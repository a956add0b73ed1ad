-- ===== src/Base/Sorting.antt =====
-- ORDER BY: an insertion sort that keeps the order of rows with equal keys.
use mathlib.Core.Bool.{Bool}
use mathlib.Core.List.{List, [], ◌∷◌, Perm}
use mathlib.Core.List.Perm
use hookyard.Base.Tests.{if◌then◌else◌, Bool-cases}
use hookyard.Base.Lists.{All}
use mathlib.Core.Logic.{inl, inr}

module _ {ℓ} {A : Type ℓ} (before : A → A → Bool) where
  -- `x` goes in front of the first row that comes strictly after it.
  unfoldable pub insert : A → List A → List A
  insert x [] = x ∷ []
  insert x (y ∷ ys) = if before y x then y ∷ insert x ys else x ∷ y ∷ ys

  unfoldable pub order_by : List A → List A
  unfolding insert
  order_by [] = []
  order_by (x ∷ xs) = insert x (order_by xs)

  pub insert-perm : (x : A) (ys : List A) → Perm (insert x ys) (x ∷ ys)
  unfolding insert
  insert-perm x [] = Perm.refl _
  insert-perm x (y ∷ ys) = elim (Bool-cases (before y x)) [
    | inl after ↦ rw after (Perm.trans (Perm.cons y (insert-perm x ys)) (Perm.swap x y ys))
    | inr here ↦ rw here (Perm.refl _)
  ]

  pub order_by-perm : (xs : List A) → Perm (order_by xs) xs
  unfolding order_by
  order_by-perm [] = Perm.refl _
  order_by-perm (x ∷ xs) = Perm.trans (insert-perm x (order_by xs)) (Perm.cons x (order_by-perm xs))

  module _ {κ} (P : A → Type κ) where
    All-insert : (x : A) (ys : List A) → P x → All P ys → All P (insert x ys)
    unfolding insert
    All-insert x [] h k = (h, k)
    All-insert x (y ∷ ys) h k = elim (Bool-cases (before y x)) [
      | inl after ↦ rw after (k.0, All-insert x ys h k.1)
      | inr here ↦ rw here (h, k)
    ]

    pub All-order_by : (xs : List A) → All P xs → All P (order_by xs)
    unfolding order_by
    All-order_by [] h = tt
    All-order_by (x ∷ xs) h = All-insert x (order_by xs) h.0 (All-order_by xs h.1)
