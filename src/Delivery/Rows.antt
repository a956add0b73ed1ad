-- ===== src/Delivery/Rows.antt =====
-- The table of deliveries as a list of rows with distinct ids.
use hookyard.Base.{
  ℕ, ◌≡◌, ◌≢◌, sym, inl, inr, Bool, true, false, some, List, [], ◌∷◌, ◌++◌, ◌==◌, ==_iff,
  Bool-cases, ap, ◌∙◌, some-injective, if_rule, if◌then◌else◌, find-nil, find-hit, find-miss, All,
  find, exists, select, select-hit, select-miss, update, subst, arith,
}
use hookyard.Delivery.Model.{Delivery}
use hookyard.Delivery.Repository.{has_id}

abbrev pub Distinct : List Delivery → Type 0
Distinct [] = Unit
Distinct (x ∷ xs) = All (λ y. y.id ≢ x.id) xs × Distinct xs

pub find-id :
    (id : ℕ) (ds : List Delivery) {r : Delivery} → find (has_id id) ds ≡ some r → r.id ≡ id
unfolding find
find-id id [] e = cc
find-id id (x ∷ xs) {r} e = ground (arith, find-id id xs {r = r})

-- An id that no row has.
pub exists-All :
    (id : ℕ) (ds : List Delivery) → exists (has_id id) ds ≡ false → All (λ y. y.id ≢ id) ds
unfolding exists
exists-All id [] h = tt
exists-All id (x ∷ xs) h = (ground arith, exists-All id xs (ground arith))

All-snoc {ℓ} :
    (P : Delivery → Type ℓ) (ds : List Delivery) (row : Delivery)
    → All P ds
    → P row
    → All P (ds ++ row ∷ [])
All-snoc P [] row h k = (k, tt)
All-snoc P (x ∷ xs) row h k = (h.0, All-snoc P xs row h.1 k)

pub Distinct-append :
    (ds : List Delivery) (row : Delivery)
    → exists (has_id row.id) ds ≡ false
    → Distinct ds
    → Distinct (ds ++ row ∷ [])
unfolding exists
Distinct-append [] row h d = (tt, tt)
Distinct-append (x ∷ xs) row h d = (
  All-snoc (λ y. y.id ≢ x.id) xs row d.0 (ground arith),
  Distinct-append xs row (ground arith) d.1,
)

module _ (p : Delivery → Bool) (f : Delivery → Delivery)
    (same : (d : Delivery) → (f d).id ≡ d.id) where
  All-ne-update :
      (id : ℕ) (ds : List Delivery) → All (λ y. y.id ≢ id) ds → All (λ y. y.id ≢ id) (update p f ds)
  unfolding update
  All-ne-update id [] h = tt
  All-ne-update id (x ∷ xs) h = (ground (arith, same x), All-ne-update id xs h.1)

  -- An update that leaves the ids alone leaves them distinct.
  pub Distinct-update : (ds : List Delivery) → Distinct ds → Distinct (update p f ds)
  unfolding update
  Distinct-update [] d = tt
  Distinct-update (x ∷ xs) d = elim (Bool-cases (p x)) [
    | inl hit ↦ rw (hit, same x) (All-ne-update x.id xs d.0, Distinct-update xs d.1)
    | inr miss ↦ rw miss (All-ne-update x.id xs d.0, Distinct-update xs d.1)
  ]

  -- The row of an id behind any such update.
  pub find-updated :
      (id : ℕ) (ds : List Delivery) {r : Delivery}
      → find (has_id id) ds ≡ some r
      → find (has_id id) (update p f ds) ≡ some (if p r then f r else r)
  unfolding update
  find-updated id [] e = cc (find-nil (has_id id))
  find-updated id (x ∷ xs) {r} e = elim (Bool-cases (x.id == id)) [
    | inl hit ↦
        find-hit (has_id id) _ _ (new_id x (rw hit))
        ∙ ap (λ (y : Delivery). some (if p y then f y else y))
            (some-injective x r (sym (find-hit (has_id id) x xs hit) ∙ e))
    | inr miss ↦
        find-miss (has_id id) _ _ (new_id x miss)
        ∙ find-updated id xs (sym (find-miss (has_id id) x xs miss) ∙ e)
  ]
    where
      new_id :
          (y : Delivery) {b : Bool} → (y.id == id) ≡ b → ((if p y then f y else y).id == id) ≡ b
      new_id y {b} h = if_rule (λ z. (z.id == id) ≡ b) (p y) (f y) y (λ _. rw (same y) h) (λ _. h)

  -- The row of an id is untouched by an update that does not select it.
  pub find-update :
      (id : ℕ) (ds : List Delivery) {r : Delivery}
      → find (has_id id) ds ≡ some r
      → p r ≡ false
      → find (has_id id) (update p f ds) ≡ some r
  unfolding find update
  find-update id [] e h = cc
  find-update id (x ∷ xs) {r} e h = ground (arith, same x, find-update id xs {r = r})

pub find-append :
    (id : ℕ) (ds : List Delivery) (row : Delivery) {r : Delivery}
    → find (has_id id) ds ≡ some r
    → find (has_id id) (ds ++ row ∷ []) ≡ some r
unfolding find
find-append id [] row e = cc
find-append id (x ∷ xs) row {r} e = ground (arith, find-append id xs row {r = r})

All-absent :
    (id : ℕ) (r : Delivery) (ds : List Delivery)
    → All (λ y. y.id ≢ id) ds
    → All (λ d. d.id ≡ id → d ≡ r) ds
All-absent id r [] h = tt
All-absent id r (x ∷ xs) h = (λ e. absurd (h.0 e), All-absent id r xs h.1)

-- With distinct ids, the row that is found is the only one of its id.
pub find-only :
    (id : ℕ) (ds : List Delivery) {r : Delivery}
    → Distinct ds
    → find (has_id id) ds ≡ some r
    → All (λ d. d.id ≡ id → d ≡ r) ds
unfolding find
find-only id [] d e = tt
find-only id (x ∷ xs) {r} d e = elim (Bool-cases (x.id == id)) [
  | inl hit ↦ found hit (ground arith)
  | inr miss ↦ (λ q. absurd (ground arith), find-only id xs d.1 (ground arith))
]
  where
    found : (x.id == id) ≡ true → x ≡ r → All (λ d. d.id ≡ id → d ≡ r) (x ∷ xs)
    found hit q = (λ _. q, All-absent id r xs (rw (← (==_iff x.id id).0 hit) d.0))

-- What is known of the rows that share an id with one of `rows`.
abbrev pub Covered {ℓ} : (Delivery → Type ℓ) → List Delivery → List Delivery → Type ℓ
Covered P rows ds = All (λ x. All (λ d. d.id ≡ x.id → P x) rows) ds

module _ (p : Delivery → Bool) where
  covered_head :
      (y : Delivery) (ds : List Delivery)
      → All (λ d. d.id ≢ y.id) ds
      → All (λ d. d.id ≡ y.id → p y ≡ true) (select p ds)
  unfolding select
  covered_head y [] h = tt
  covered_head y (x ∷ xs) h = elim (Bool-cases (p x)) [
    | inl hit ↦ rw hit (λ e. absurd (h.0 e), covered_head y xs h.1)
    | inr miss ↦ rw miss (covered_head y xs h.1)
  ]

  Covered-tail :
      (y : Delivery) (rows ds : List Delivery)
      → All (λ x. x.id ≢ y.id) ds
      → Covered (λ x. p x ≡ true) rows ds
      → Covered (λ x. p x ≡ true) (y ∷ rows) ds
  Covered-tail y rows [] h k = tt
  Covered-tail y rows (x ∷ xs) h k =
      ((λ e. absurd (h.0 (sym e)), k.0), Covered-tail y rows xs h.1 k.1)

  -- With distinct ids, a row that shares its id with a selected row passes the test itself.
  pub Covered-select :
      (ds : List Delivery) → Distinct ds → Covered (λ x. p x ≡ true) (select p ds) ds
  Covered-select [] d = tt
  Covered-select (y ∷ ys) d = elim (Bool-cases (p y)) [
    | inl hit ↦
        subst (λ rows. Covered (λ x. p x ≡ true) rows (y ∷ ys)) (sym (select-hit p y ys hit))
          (
            (λ _. hit, covered_head y ys d.0),
            Covered-tail y (select p ys) ys d.0 (Covered-select ys d.1),
          )
    | inr miss ↦
        subst (λ rows. Covered (λ x. p x ≡ true) rows (y ∷ ys)) (sym (select-miss p y ys miss))
          (covered_head y ys d.0, Covered-select ys d.1)
  ]

-- A row that was found passes any test that it passes.
pub find-exists :
    (p q : Delivery → Bool) (ds : List Delivery) {r : Delivery}
    → find p ds ≡ some r
    → ((x : Delivery) → x ≡ r → q x ≡ true)
    → exists q ds ≡ true
unfolding find exists
find-exists p q [] e h = cc
find-exists p q (x ∷ xs) {r} e h = ground (arith, h x, find-exists p q xs {r = r})
