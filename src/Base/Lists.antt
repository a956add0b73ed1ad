-- ===== src/Base/Lists.antt =====
-- Lists measured by native numbers, selections by a Boolean test, and rows updated in place.
use Prim.Native.Nat.{ℕ, zero, suc, ◌+◌, ◌≤◌}
use mathlib.Core.Path.{◌≡◌, refl, sym, ap, subst}
use mathlib.Core.Logic.{inl, inr}
use mathlib.Core.Bool.{Bool, true, false, ◌||◌}
use mathlib.Core.List.{List, [], ◌∷◌, ◌++◌}
use mathlib.Core.Option.{Option, none, some}
use native.Mathlib.Omega.{arith}
use hookyard.Base.Tests.{if◌then◌else◌, Bool-cases}

module _ {ℓ} {A : Type ℓ} where
  abbrev pub length : List A → ℕ
  length [] = 0
  length (x ∷ xs) = suc (length xs)

  abbrev pub take : ℕ → List A → List A
  take zero xs = []
  take (suc n) [] = []
  take (suc n) (x ∷ xs) = x ∷ take n xs

  abbrev pub drop : ℕ → List A → List A
  drop zero xs = xs
  drop (suc n) [] = []
  drop (suc n) (x ∷ xs) = drop n xs

  -- The rows that pass a test, in their order.
  unfoldable pub select : (A → Bool) → List A → List A
  select p [] = []
  select p (x ∷ xs) = if p x then x ∷ select p xs else select p xs

  -- The first row that passes a test.
  unfoldable pub find : (A → Bool) → List A → Option A
  find p [] = none
  find p (x ∷ xs) = if p x then some x else find p xs

  unfoldable pub exists : (A → Bool) → List A → Bool
  exists p [] = false
  exists p (x ∷ xs) = p x || exists p xs

  -- UPDATE … SET … WHERE …: every row that passes the test is replaced.
  unfoldable pub update : (A → Bool) → (A → A) → List A → List A
  update p f [] = []
  update p f (x ∷ xs) = (if p x then f x else x) ∷ update p f xs

  abbrev pub All {κ} : (A → Type κ) → List A → Type κ
  All P [] = Unit
  All P (x ∷ xs) = P x × All P xs

module _ {ℓ} {A : Type ℓ} where
  pub length-append : (xs ys : List A) → length (xs ++ ys) ≡ length xs + length ys
  length-append [] ys = omega arith
  length-append (x ∷ xs) ys = omega (arith, length-append xs ys)

  pub take-append : (xs ys : List A) → take (length xs) (xs ++ ys) ≡ xs
  take-append [] ys = refl
  take-append (x ∷ xs) ys = ap (λ l. x ∷ l) (take-append xs ys)

  pub drop-append : (xs ys : List A) → drop (length xs) (xs ++ ys) ≡ ys
  drop-append [] ys = refl
  drop-append (x ∷ xs) ys = drop-append xs ys

  pub length-take-le : (n : ℕ) (xs : List A) → length (take n xs) ≤ n
  length-take-le zero xs = omega arith
  length-take-le (suc n) [] = omega arith
  length-take-le (suc n) (x ∷ xs) = omega (arith, length-take-le n xs)

  pub exists-update :
      (q p : A → Bool) (f : A → A) (xs : List A)
      → ((x : A) → q (f x) ≡ q x)
      → exists q (update p f xs) ≡ exists q xs
  unfolding exists update
  exists-update q p f [] same = refl
  exists-update q p f (x ∷ xs) same = ground (arith, same x, exists-update q p f xs same)

  pub exists-found :
      (p q : A → Bool) (xs : List A) {a : A}
      → ((x : A) → p x ≡ true → q x ≡ true)
      → find p xs ≡ some a
      → exists q xs ≡ true
  unfolding exists find
  exists-found p q [] h e = cc
  exists-found p q (x ∷ xs) {a} h e = ground (arith, h x, exists-found p q xs {a = a} h)

  pub length-update : (p : A → Bool) (f : A → A) (xs : List A) → length (update p f xs) ≡ length xs
  unfolding update
  length-update p f [] = refl
  length-update p f (x ∷ xs) = ap suc (length-update p f xs)

  pub find-nil : (p : A → Bool) → find p [] ≡ none
  unfolding find
  find-nil p = refl

  pub find-hit : (p : A → Bool) (x : A) (xs : List A) → p x ≡ true → find p (x ∷ xs) ≡ some x
  unfolding find
  find-hit p x xs h = rw h

  pub find-miss : (p : A → Bool) (x : A) (xs : List A) → p x ≡ false → find p (x ∷ xs) ≡ find p xs
  unfolding find
  find-miss p x xs h = rw h

  pub find-none : (p : A → Bool) (xs : List A) → exists p xs ≡ false → find p xs ≡ none
  unfolding find exists
  find-none p [] h = refl
  find-none p (x ∷ xs) h = ground (arith, find-none p xs)

  -- What is appended is found when nothing before it is.
  pub find-append :
      (p : A → Bool) (xs ys : List A) → find p xs ≡ none → find p (xs ++ ys) ≡ find p ys
  unfolding find
  find-append p [] ys h = refl
  find-append p (x ∷ xs) ys h = elim (Bool-cases (p x)) [
    | inl hit ↦ ground (arith, find-append p xs ys)
    | inr miss ↦ rw miss (find-append p xs ys (rw miss at h))
  ]

  pub find-append_left :
      (p : A → Bool) (xs ys : List A) (x : A) → find p xs ≡ some x → find p (xs ++ ys) ≡ some x
  unfolding find
  find-append_left p [] ys x h = cc
  find-append_left p (y ∷ xs) ys x h = ground (arith, find-append_left p xs ys x)

  pub exists-append_left :
      (p : A → Bool) (xs ys : List A) → exists p xs ≡ true → exists p (xs ++ ys) ≡ true
  unfolding exists
  exists-append_left p [] ys h = cc
  exists-append_left p (x ∷ xs) ys h = ground (arith, exists-append_left p xs ys)

  pub exists-append_last :
      (p : A → Bool) (xs : List A) (y : A) → p y ≡ true → exists p (xs ++ y ∷ []) ≡ true
  unfolding exists
  exists-append_last p [] y h = ground arith
  exists-append_last p (x ∷ xs) y h = ground (arith, exists-append_last p xs y h)

  -- What is found passes the test.
  pub find-passes : (p : A → Bool) (xs : List A) (a : A) → find p xs ≡ some a → p a ≡ true
  unfolding find
  find-passes p [] a h = cc
  find-passes p (x ∷ xs) a h = elim (Bool-cases (p x)) [
    | inl hit ↦ let e : x ≡ a = ground arith in subst (λ y. p y ≡ true) e hit
    | inr miss ↦ find-passes p xs a (rw (miss, find) at h)
  ]

  -- An update of no row changes nothing.
  pub update-none :
      (p : A → Bool) (f : A → A) (xs : List A) → exists p xs ≡ false → update p f xs ≡ xs
  unfolding exists update
  update-none p f [] h = refl
  update-none p f (x ∷ xs) h = elim (Bool-cases (p x)) [
    | inl hit ↦ absurd (ground arith)
    | inr miss ↦ rw miss (ap (λ ys. x ∷ ys) (update-none p f xs (rw miss at h)))
  ]

  -- An update that leaves a test alone changes what the test finds, if it changes that row.
  pub find-update :
      (p q : A → Bool) (f : A → A) (xs : List A) (x : A)
      → ((y : A) → p (f y) ≡ p y)
      → find p xs ≡ some x
      → find p (update q f xs) ≡ some (if q x then f x else x)
  unfolding find update
  find-update p q f [] x same h = cc
  find-update p q f (y ∷ ys) x same h = elim (Bool-cases (p y)) [
    | inl hit ↦
        let e : y ≡ x = ground arith in
        rw (kept (q y), hit) (ap (λ z. some (if q z then f z else z)) e)
    | inr miss ↦ rw (kept (q y), miss) (find-update p q f ys x same (rw (miss, find) at h))
  ]
    where
      kept : (b : Bool) → p (if b then f y else y) ≡ p y
      kept true = same y
      kept false = refl

  pub select-hit :
      (p : A → Bool) (x : A) (xs : List A) → p x ≡ true → select p (x ∷ xs) ≡ x ∷ select p xs
  unfolding select
  select-hit p x xs h = rw h

  pub select-miss :
      (p : A → Bool) (x : A) (xs : List A) → p x ≡ false → select p (x ∷ xs) ≡ select p xs
  unfolding select
  select-miss p x xs h = rw h

  -- Whatever is selected passes the test.
  pub All-selected : (p : A → Bool) (xs : List A) → All (λ x. p x ≡ true) (select p xs)
  unfolding select
  All-selected p [] = tt
  All-selected p (x ∷ xs) = elim (Bool-cases (p x)) [
    | inl hit ↦ subst (All (λ y. p y ≡ true)) (sym (if_hit (p x) hit)) (hit, All-selected p xs)
    | inr miss ↦ rw miss (All-selected p xs)
  ]
    where
      if_hit :
          (b : Bool) → b ≡ true → (if b then x ∷ select p xs else select p xs) ≡ x ∷ select p xs
      if_hit b e = rw e

  module _ {κ} (P : A → Type κ) where
    pub All-append : (xs ys : List A) → All P xs → All P ys → All P (xs ++ ys)
    All-append [] ys h k = k
    All-append (x ∷ xs) ys h k = (h.0, All-append xs ys h.1 k)

    pub All-update :
        (p : A → Bool) (f : A → A) (xs : List A)
        → ((a : A) → p a ≡ true → P a → P (f a))
        → All P xs
        → All P (update p f xs)
    unfolding update
    All-update p f [] keep h = tt
    All-update p f (x ∷ xs) keep h = elim (Bool-cases (p x)) [
      | inl hit ↦ rw hit (keep x hit h.0, All-update p f xs keep h.1)
      | inr miss ↦ rw miss (h.0, All-update p f xs keep h.1)
    ]

    pub All-take : (n : ℕ) (xs : List A) → All P xs → All P (take n xs)
    All-take zero xs h = tt
    All-take (suc n) [] h = tt
    All-take (suc n) (x ∷ xs) h = (h.0, All-take n xs h.1)

    pub All-select : (p : A → Bool) (xs : List A) → All P xs → All P (select p xs)
    unfolding select
    All-select p [] h = tt
    All-select p (x ∷ xs) h = elim (Bool-cases (p x)) [
      | inl hit ↦ rw hit (h.0, All-select p xs h.1)
      | inr miss ↦ rw miss (All-select p xs h.1)
    ]

    -- What `find` returns satisfies whatever holds of all rows.
    pub All-find : (p : A → Bool) (xs : List A) {a : A} → find p xs ≡ some a → All P xs → P a
    unfolding find
    All-find p [] e h = cc
    All-find p (x ∷ xs) {a} e h = elim (Bool-cases (p x)) [
      | inl hit ↦ let e' : x ≡ a = ground arith in subst P e' h.0
      | inr miss ↦ All-find p xs (rw (miss, find) at e) h.1
    ]

module _ {ℓ κ κ'} {A : Type ℓ} (P : A → Type κ) (Q : A → Type κ') where
  pub All-map : (xs : List A) → ((a : A) → P a → Q a) → All P xs → All Q xs
  All-map [] f h = tt
  All-map (x ∷ xs) f h = (f x h.0, All-map xs f h.1)

  -- What the rows satisfy after an update, row by row.
  pub All-update_to :
      (p : A → Bool) (f : A → A) (xs : List A)
      → ((a : A) → P a → Q (if p a then f a else a))
      → All P xs
      → All Q (update p f xs)
  unfolding update
  All-update_to p f [] step h = tt
  All-update_to p f (x ∷ xs) step h = (step x h.0, All-update_to p f xs step h.1)

module _ {ℓ κ κ' ν} {A : Type ℓ} (P : A → Type κ) (Q : A → Type κ') (R : A → Type ν) where
  pub All-zip : (xs : List A) → ((a : A) → P a → Q a → R a) → All P xs → All Q xs → All R xs
  All-zip [] f h k = tt
  All-zip (x ∷ xs) f h k = (f x h.0 k.0, All-zip xs f h.1 k.1)
