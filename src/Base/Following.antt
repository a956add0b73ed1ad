-- ===== src/Base/Following.antt =====
-- A client that follows the cursors of a list that is read in pages reads all of it.
use Prim.Native.Nat.{ℕ, zero, suc, ◌-◌, ◌<◌}
use mathlib.Core.Path.{◌≡◌, refl, sym, ap, ◌∙◌, subst}
use mathlib.Core.Logic.{◌≢◌, inl, inr}
use mathlib.Core.Bool.{Bool}
use mathlib.Core.Option.{Option, some}
use mathlib.Core.List.{List, [], ◌∷◌, ◌++◌, map, append_assoc}
use native.Mathlib.Omega.{arith}
use hookyard.Base.Tests.{ltb, Bool-cases}
use hookyard.Base.Lists.{All, length, take, drop, select}
use hookyard.Base.ByteStrings.{Bytes}
use hookyard.Base.Ranked.{IsOrder, IsRanked, All-middle, All-behind, select-after}
use hookyard.Base.Session.{Result, ok}
use hookyard.Base.Paging.{
  Page, get_elem?, gathered, prepend, follow, page_of, page_of_last, page_of_full, split_at,
  take-append-drop, length-drop,
}

gathered_more :
    {B : Type 0} (further : Bytes → Option (List B)) (items : List B) (c : Bytes)
    → c ≢ []
    → gathered further (ok (record { items = items; next_cursor = c })) ≡ prepend items (further c)
gathered_more further items [] h = absurd (h refl)
gathered_more further items (b ∷ bs) h = refl

map-append : {A B : Type 0} (f : A → B) (xs ys : List A) → map f (xs ++ ys) ≡ map f xs ++ map f ys
map-append f [] ys = refl
map-append f (x ∷ xs) ys = ap (λ l. f x ∷ l) (map-append f xs ys)

module _ {A B : Type 0} (before : A → A → Bool) (order : IsOrder before) (show : A → B)
    (cursor_of : B → Bytes) (m : ℕ) (request : Bytes → Result (Page B)) (all : List A) where
  -- The page that answers the cursor of a row is that of the rows behind it.
  abbrev Continues : A → Type 0
  Continues x =
      (cursor_of (show x) ≢ [])
      × (request (cursor_of (show x)) ≡ ok (page_of show cursor_of (suc m) (select (before x) all)))

  follow_more :
      (fuel : ℕ) (rest : List A) (x : A) (c : Bytes)
      → request c ≡ ok (page_of show cursor_of (suc m) rest)
      → suc m < length rest
      → get_elem? (take (suc (suc m)) rest) m ≡ some x
      → cursor_of (show x) ≢ []
      → follow request fuel (cursor_of (show x)) ≡ some (map show (drop (suc m) rest))
      → follow request (suc fuel) c ≡ some (map show rest)
  unfolding follow
  follow_more fuel rest x c answer more at_end filled later =
      ap (gathered (follow request fuel)) (
        answer
        ∙ ap ok (
            page_of_full show cursor_of (suc m) rest x more (
              ap (get_elem? (take (suc (suc m)) rest)) {x = suc m - 1} {y = m} (omega arith)
              ∙ at_end)))
      ∙ gathered_more (follow request fuel) (map show (take (suc m) rest)) (cursor_of (show x))
          filled
      ∙ ap (prepend (map show (take (suc m) rest))) later
      ∙ ap some (
          sym (map-append show (take (suc m) rest) (drop (suc m) rest))
          ∙ ap (map show) (take-append-drop (suc m) rest))

  follow_rest :
      IsRanked before all
      → (fuel : ℕ) (front rest : List A) → all ≡ front ++ rest
      → All Continues rest
      → length rest < fuel
      → (c : Bytes) → request c ≡ ok (page_of show cursor_of (suc m) rest)
      → follow request fuel c ≡ some (map show rest)
  unfolding follow
  follow_rest ranked zero front rest e known h c answer = absurd (omega arith)
  follow_rest ranked (suc fuel) front rest e known h c answer =
      elim (Bool-cases (ltb (suc m) (length rest))) [
        | inr last ↦
            rw (answer, page_of_last show cursor_of (suc m) rest (ground (arith, last))) refl
        | inl more ↦
            let r = split_at m rest (ground (arith, more)) in
            let back : List A = drop (suc m) rest in
            let there : All Continues (take m rest ++ r.0 ∷ back) =
              subst (All Continues) r.1 known in
            let whole : all ≡ (front ++ take m rest) ++ r.0 ∷ back =
              e ∙ ap (λ l. front ++ l) r.1 ∙ sym (append_assoc front (take m rest) (r.0 ∷ back)) in
            let here : Continues r.0 = All-middle Continues (take m rest) r.0 back there in
            let behind : select (before r.0) all ≡ back =
              ap (select (before r.0)) whole
              ∙ select-after before order (front ++ take m rest) r.0 back
                  (subst (IsRanked before) whole ranked) in
            follow_more fuel rest r.0 c answer (ground (arith, more)) r.2 here.0 (
              follow_rest ranked fuel ((front ++ take m rest) ++ r.0 ∷ []) back
                (whole ∙ sym (append_assoc (front ++ take m rest) (r.0 ∷ []) back))
                (All-behind Continues (take m rest) r.0 back there)
                (omega (arith, length-drop (suc m) rest (ground (arith, more))))
                (cursor_of (show r.0))
                (here.1 ∙ ap (λ l. ok (page_of show cursor_of (suc m) l)) behind))
      ]

  follow_ranked :
      IsRanked before all
      → All Continues all
      → request [] ≡ ok (page_of show cursor_of (suc m) all)
      → follow request (suc (length all)) [] ≡ some (map show all)
  follow_ranked ranked known answer =
      follow_rest ranked (suc (length all)) [] all refl known (omega arith) [] answer

module _ {A B : Type 0} (before : A → A → Bool) (order : IsOrder before) (show : A → B)
    (cursor_of : B → Bytes) (limit : ℕ) (request : Bytes → Result (Page B)) (all : List A) where
  -- Following the cursors from the first page yields every row once, in their order, within one
  -- request more than there are rows.
  pub follow-all :
      0 < limit
      → IsRanked before all
      → All
          (λ x.
            (cursor_of (show x) ≢ [])
            × (request (cursor_of (show x))
                ≡ ok (page_of show cursor_of limit (select (before x) all))))
          all
      → request [] ≡ ok (page_of show cursor_of limit all)
      → follow request (suc (length all)) [] ≡ some (map show all)
  follow-all some_room ranked =
      subst
        (λ l.
          All
            (λ x.
              (cursor_of (show x) ≢ [])
              × (request (cursor_of (show x))
                  ≡ ok (page_of show cursor_of l (select (before x) all))))
            all
          → request [] ≡ ok (page_of show cursor_of l all)
          → follow request (suc (length all)) [] ≡ some (map show all))
        {x = suc (limit - 1)} {y = limit} (omega arith)
        (follow_ranked before order show cursor_of (limit - 1) request all ranked)
