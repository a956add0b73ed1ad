-- ===== src/Base/Ranked.antt =====
-- Rows in a strict order: what ORDER BY makes of rows of which no two are equal in the order.
use mathlib.Core.Path.{◌≡◌, refl, sym, ap, ◌∙◌, fun_ext}
use mathlib.Core.Logic.{◌⊎◌, inl, inr}
use mathlib.Core.Bool.{Bool, true, false, ◌&&◌}
use mathlib.Core.List.{List, [], ◌∷◌, ◌++◌}
use native.Mathlib.Omega.{arith}
use hookyard.Base.Tests.{if◌then◌else◌, Bool-cases, and_true}
use hookyard.Base.Lists.{All, All-map, select, All-select}
use hookyard.Base.Sorting.{insert, order_by, All-order_by}

pub record IsOrder {A : Type 0} (before : A → A → Bool) : Type 0 where
  pub asym : (a b : A) → before a b ≡ true → before b a ≡ false
  pub trans : (a b c : A) → before a b ≡ true → before b c ≡ true → before a c ≡ true

module _ {A : Type 0} (P : A → Type 0) where
  pub All-middle : (front : List A) (x : A) (back : List A) → All P (front ++ x ∷ back) → P x
  All-middle [] x back h = h.0
  All-middle (y ∷ front) x back h = All-middle front x back h.1

  pub All-behind : (front : List A) (x : A) (back : List A) → All P (front ++ x ∷ back) → All P back
  All-behind [] x back h = h.1
  All-behind (y ∷ front) x back h = All-behind front x back h.1

module _ {A : Type 0} (before : A → A → Bool) where
  -- Each row stands before all that follow it.
  abbrev pub IsRanked : List A → Type 0
  IsRanked [] = Unit
  IsRanked (x ∷ xs) = All (λ y. before x y ≡ true) xs × IsRanked xs

  abbrev pub Apart : A → A → Type 0
  Apart a b = (before a b ≡ true) ⊎ (before b a ≡ true)

  -- Any two rows are comparable.
  abbrev pub AllApart : List A → Type 0
  AllApart [] = Unit
  AllApart (x ∷ xs) = All (Apart x) xs × AllApart xs

  pub AllApart-select : (p : A → Bool) (xs : List A) → AllApart xs → AllApart (select p xs)
  unfolding select
  AllApart-select p [] h = tt
  AllApart-select p (x ∷ xs) h = elim (Bool-cases (p x)) [
    | inl hit ↦ rw hit (All-select (Apart x) p xs h.0, AllApart-select p xs h.1)
    | inr miss ↦ rw miss (AllApart-select p xs h.1)
  ]

  pub select-all : (p : A → Bool) (xs : List A) → All (λ x. p x ≡ true) xs → select p xs ≡ xs
  unfolding select
  select-all p [] h = refl
  select-all p (x ∷ xs) h = rw h.0 (ap (λ l. x ∷ l) (select-all p xs h.1))

  pub select-none : (p : A → Bool) (xs : List A) → All (λ x. p x ≡ false) xs → select p xs ≡ []
  unfolding select
  select-none p [] h = refl
  select-none p (x ∷ xs) h = rw h.0 (select-none p xs h.1)

  pub select-select :
      (p q : A → Bool) (xs : List A) → select q (select p xs) ≡ select (λ x. p x && q x) xs
  unfolding select
  select-select p q [] = refl
  select-select p q (x ∷ xs) = elim (Bool-cases (p x)) [
    | inl hit ↦ rw (hit, select) (ap (λ l. if q x then x ∷ l else l) (select-select p q xs))
    | inr miss ↦ rw miss (select-select p q xs)
  ]

  module _ (order : IsOrder before) where
    irrefl : (x : A) → before x x ≡ false
    irrefl x = elim (Bool-cases (before x x)) [ inl h ↦ order.asym x x h | inr h ↦ h ]

    ahead : (x y : A) → Apart x y → before y x ≡ false → before x y ≡ true
    ahead x y (inl h) miss = h
    ahead x y (inr h) miss = cc

    -- Past a row come exactly the rows behind it.
    pub select-after :
        (front : List A) (x : A) (back : List A)
        → IsRanked (front ++ x ∷ back)
        → select (before x) (front ++ x ∷ back) ≡ back
    unfolding select
    select-after [] x back h = rw (irrefl x) (select-all (before x) back h.0)
    select-after (y ∷ front) x back h =
        rw (order.asym y x (All-middle (λ z. before y z ≡ true) front x back h.0))
          (select-after front x back h.1)

    All-after :
        (x y : A) (ys : List A)
        → before x y ≡ true
        → All (λ z. before y z ≡ true) ys
        → All (λ z. before x z ≡ true) ys
    All-after x y ys h =
        All-map (λ z. before y z ≡ true) (λ z. before x z ≡ true) ys (λ z k. order.trans x y z h k)

    insert-first :
        (x : A) (ys : List A) → All (λ z. before x z ≡ true) ys → insert before x ys ≡ x ∷ ys
    unfolding insert
    insert-first x [] h = refl
    insert-first x (y ∷ ys) h = rw (order.asym x y h.0)

    All-insert :
        (P : A → Type 0) (x : A) (ys : List A) → P x → All P ys → All P (insert before x ys)
    unfolding insert
    All-insert P x [] h k = (h, tt)
    All-insert P x (y ∷ ys) h k = elim (Bool-cases (before y x)) [
      | inl after ↦ rw after (k.0, All-insert P x ys h k.1)
      | inr here ↦ rw here (h, k)
    ]

    insert-IsRanked :
        (x : A) (ys : List A) → All (Apart x) ys → IsRanked ys → IsRanked (insert before x ys)
    unfolding insert
    insert-IsRanked x [] apart h = (tt, tt)
    insert-IsRanked x (y ∷ ys) apart h = elim (Bool-cases (before y x)) [
      | inl after ↦
          rw after
            (All-insert (λ z. before y z ≡ true) x ys after h.0, insert-IsRanked x ys apart.1 h.1)
      | inr here ↦
          let front : before x y ≡ true = ahead x y apart.0 here in
          rw here ((front, All-after x y ys front h.0), h)
    ]

    pub order_by-IsRanked : (xs : List A) → AllApart xs → IsRanked (order_by before xs)
    unfolding order_by
    order_by-IsRanked [] h = tt
    order_by-IsRanked (x ∷ xs) h =
        insert-IsRanked x (order_by before xs) (All-order_by before (Apart x) xs h.0)
          (order_by-IsRanked xs h.1)

    select-insert :
        (q : A → Bool) (x : A) (ys : List A)
        → All (Apart x) ys
        → IsRanked ys
        → select q (insert before x ys)
          ≡ (if q x then insert before x (select q ys) else select q ys)
    unfolding select insert
    select-insert q x [] apart h = refl
    select-insert q x (y ∷ ys) apart h = elim (Bool-cases (before y x)) [
      | inl after ↦ ground (arith, after, select-insert q x ys apart.1 h.1)
      | inr here ↦
          let front : before x y ≡ true = ahead x y apart.0 here in
          rw here (
            ap (λ l. if q x then l else select q (y ∷ ys))
              (sym (
                insert-first x (select q (y ∷ ys)) (
                  All-select (λ z. before x z ≡ true) q (y ∷ ys)
                    (front, All-after x y ys front h.0)))))
    ]

    pub select-order_by :
        (q : A → Bool) (xs : List A)
        → AllApart xs
        → select q (order_by before xs) ≡ order_by before (select q xs)
    unfolding order_by select
    select-order_by q [] h = refl
    select-order_by q (x ∷ xs) h =
        select-insert q x (order_by before xs) (All-order_by before (Apart x) xs h.0)
          (order_by-IsRanked xs h.1)
        ∙ (ap (λ l. if q x then insert before x l else l) (select-order_by q xs h.1)
            ∙ order_by_if (q x))
      where
        order_by_if :
            (b : Bool)
            → (if b
                then insert before x (order_by before (select q xs))
                else order_by before (select q xs))
              ≡ order_by before (if b then x ∷ select q xs else select q xs)
        order_by_if true = refl
        order_by_if false = refl

    -- A selection and a cursor in one query: the selected rows behind that of the cursor.
    pub order_by-behind :
        (p : A → Bool) (x : A) (rows : List A)
        → AllApart rows
        → order_by before (select (λ y. p y && before x y) rows)
          ≡ select (before x) (order_by before (select p rows))
    order_by-behind p x rows apart =
        ap (order_by before) (sym (select-select p (before x) rows))
        ∙ sym (select-order_by (before x) (select p rows) (AllApart-select p rows apart))

  -- The same without a cursor.
  pub order_by-first :
      (p : A → Bool) (rows : List A)
      → order_by before (select (λ y. p y && true) rows) ≡ order_by before (select p rows)
  order_by-first p rows = ap (λ q. order_by before (select q rows)) (fun_ext (λ y. and_true (p y)))
