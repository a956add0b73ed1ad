-- ===== src/Base/Keyset.antt =====
-- Rows with a time and an id, from the newest to the oldest: ORDER BY created_at DESC, id DESC.
use Prim.Native.Nat.{ℕ}
use mathlib.Core.Logic.{◌≢◌, inl, inr}
use mathlib.Core.Bool.{Bool, ◌&&◌, ◌||◌}
use mathlib.Core.List.{List, [], ◌∷◌}
use native.Mathlib.Omega.{arith}
use hookyard.Base.Tests.{ltb, ◌==◌, Bool-cases}
use hookyard.Base.Lists.{All, All-map}
use hookyard.Base.Ranked.{IsOrder, Apart, AllApart}

module _ {A : Type 0} (time id : A → ℕ) where
  -- (created_at, id) < (t, i)
  abbrev pub older : ℕ → ℕ → A → Bool
  older t i a = ltb (time a) t || ((time a == t) && ltb (id a) i)

  abbrev pub newer : A → A → Bool
  newer a b = older (time a) (id a) b

  abbrev pub DistinctIds : List A → Type 0
  DistinctIds [] = Unit
  DistinctIds (x ∷ xs) = All (λ y. id y ≢ id x) xs × DistinctIds xs

  pub newer-IsOrder : IsOrder newer
  newer-IsOrder = record { asym = λ a b h. ground arith; trans = λ a b c h k. ground arith }

  distinct-Apart : (a b : A) → id b ≢ id a → Apart newer a b
  distinct-Apart a b h = elim (Bool-cases (newer a b)) [
    | inl first ↦ inl first
    | inr second ↦ inr (ground arith)
  ]

  pub DistinctIds-AllApart : (xs : List A) → DistinctIds xs → AllApart newer xs
  DistinctIds-AllApart [] h = tt
  DistinctIds-AllApart (x ∷ xs) h = (
    All-map (λ y. id y ≢ id x) (Apart newer x) xs (λ y k. distinct-Apart x y k) h.0,
    DistinctIds-AllApart xs h.1,
  )
