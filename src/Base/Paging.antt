-- ===== src/Base/Paging.antt =====
-- Pages of a list that is read with one row more than a page holds, and a client that follows the
-- cursors. The lists of deliveries, attempts and endpoints are read in this way.
use Prim.Native.Nat.{ℕ, zero, suc, ◌+◌, ◌-◌, ◌≤◌, ◌<◌}
use mathlib.Core.Path.{◌≡◌, refl, ap, ◌∙◌}
use mathlib.Core.Bool.{true, ◌||◌}
use mathlib.Core.Option.{Option, none, some}
use mathlib.Core.List.{List, [], ◌∷◌, ◌++◌, map}
use native.Mathlib.Omega.{arith}
use hookyard.Base.Tests.{ltb, if◌then◌else◌}
use hookyard.Base.Lists.{length, take, drop}
use hookyard.Base.ByteStrings.{Bytes}
use hookyard.Base.Session.{Result, ok, err}
use hookyard.Base.Int.{ℤ, pos, negsuc}

pub record Page (B : Type 0) : Type 0 where
  pub items : List B
  pub next_cursor : Bytes

-- The limit that a list falls back to, and the one that it uses.
abbrev pub default_limit : ℕ
default_limit = 50

unfoldable pub page_limit : ℤ → ℕ
page_limit (negsuc n) = default_limit
page_limit (pos n) = if ltb n 1 || ltb 100 n then default_limit else n

pub page_limit_bounds : (n : ℤ) → (0 < page_limit n) × (page_limit n ≤ 100)
unfolding page_limit
page_limit_bounds (negsuc n) = omega arith
page_limit_bounds (pos n) = ground arith

abbrev pub get_elem? {ℓ} : {A : Type ℓ} → List A → ℕ → Option A
get_elem? [] i = none
get_elem? (x ∷ xs) zero = some x
get_elem? (x ∷ xs) (suc i) = get_elem? xs i

module _ {B : Type 0} where
  abbrev pub cursor_after : (B → Bytes) → Option B → Bytes
  cursor_after cursor_of none = []
  cursor_after cursor_of (some b) = cursor_of b

  -- What is made of the rows: a full page has the cursor of its last item.
  unfoldable pub cut : (B → Bytes) → ℕ → List B → Page B
  cut cursor_of limit rows =
      if ltb limit (length rows)
      then record {
        items = take limit rows;
        next_cursor = cursor_after cursor_of (get_elem? rows (limit - 1));
      }
      else record { items = rows; next_cursor = [] }

  abbrev pub prepend : List B → Option (List B) → Option (List B)
  prepend front none = none
  prepend front (some back) = some (front ++ back)

  abbrev pub gathered : (Bytes → Option (List B)) → Result (Page B) → Option (List B)
  gathered further (err e) = none
  gathered further (ok p) = elim p.next_cursor [
    | [] ↦ some p.items
    | b ∷ bs ↦ prepend p.items (further (b ∷ bs))
  ]

  -- A client that asks for a page and follows the cursors until there is none: all items, if no
  -- request fails and the fuel is enough.
  unfoldable pub follow : (Bytes → Result (Page B)) → ℕ → Bytes → Option (List B)
  follow request zero cursor = none
  follow request (suc fuel) cursor = gathered (follow request fuel) (request cursor)

module _ {A : Type 0} where
  take-all : (n : ℕ) (xs : List A) → length xs ≤ n → take n xs ≡ xs
  take-all zero [] h = refl
  take-all zero (x ∷ xs) h = absurd (omega arith)
  take-all (suc n) [] h = refl
  take-all (suc n) (x ∷ xs) h = ap (λ l. x ∷ l) (take-all n xs (omega arith))

  take-take : (n : ℕ) (xs : List A) → take n (take (suc n) xs) ≡ take n xs
  take-take zero xs = refl
  take-take (suc n) [] = refl
  take-take (suc n) (x ∷ xs) = ap (λ l. x ∷ l) (take-take n xs)

  length-take : (n : ℕ) (xs : List A) → n ≤ length xs → length (take n xs) ≡ n
  length-take zero xs h = refl
  length-take (suc n) [] h = absurd (omega arith)
  length-take (suc n) (x ∷ xs) h = ap suc (length-take n xs (omega arith))

  -- Where a list is longer than `n`, it has an element at `n`, behind the first `n`.
  pub split_at :
      (n : ℕ) (xs : List A)
      → n < length xs
      → (x : A) × (xs ≡ take n xs ++ x ∷ drop (suc n) xs)
        × (get_elem? (take (suc (suc n)) xs) n ≡ some x)
  split_at n [] h = absurd (omega arith)
  split_at zero (x ∷ xs) h = (x, refl, refl)
  split_at (suc n) (x ∷ xs) h =
      let r = split_at n xs (omega arith) in (r.0, ap (λ l. x ∷ l) r.1, r.2)

  pub take-append-drop : (n : ℕ) (xs : List A) → take n xs ++ drop n xs ≡ xs
  take-append-drop zero xs = refl
  take-append-drop (suc n) [] = refl
  take-append-drop (suc n) (x ∷ xs) = ap (λ l. x ∷ l) (take-append-drop n xs)

  pub length-drop : (n : ℕ) (xs : List A) → n ≤ length xs → length (drop n xs) + n ≡ length xs
  length-drop zero xs h = omega arith
  length-drop (suc n) [] h = absurd (omega arith)
  length-drop (suc n) (x ∷ xs) h = omega (arith, length-drop n xs)

module _ {A B : Type 0} (f : A → B) where
  take-map : (n : ℕ) (xs : List A) → take n (map f xs) ≡ map f (take n xs)
  take-map zero xs = refl
  take-map (suc n) [] = refl
  take-map (suc n) (x ∷ xs) = ap (λ l. f x ∷ l) (take-map n xs)

  length-map : (xs : List A) → length (map f xs) ≡ length xs
  length-map [] = refl
  length-map (x ∷ xs) = ap suc (length-map xs)

  get_elem?-map :
      (xs : List A) (n : ℕ) (x : A) → get_elem? xs n ≡ some x → get_elem? (map f xs) n ≡ some (f x)
  get_elem?-map [] n x h = cc
  get_elem?-map (y ∷ ys) zero x h = cc
  get_elem?-map (y ∷ ys) (suc n) x h = get_elem?-map ys n x h

module _ {A B : Type 0} (show : A → B) (cursor_of : B → Bytes) (limit : ℕ) where
  -- The page of the rows that are still to come, of which `limit + 1` are read.
  abbrev pub page_of : List A → Page B
  page_of rows = cut cursor_of limit (map show (take (suc limit) rows))

  pub page_of_last :
      (rows : List A)
      → length rows ≤ limit
      → page_of rows ≡ record { items = map show rows; next_cursor = [] }
  unfolding cut
  page_of_last rows h =
      rw (take-all (suc limit) rows (omega arith)) (ground (arith, length-map show rows))

  pub page_of_full :
      (rows : List A) (x : A)
      → limit < length rows
      → get_elem? (take (suc limit) rows) (limit - 1) ≡ some x
      → page_of rows
        ≡ record { items = map show (take limit rows); next_cursor = cursor_of (show x) }
  unfolding cut
  page_of_full rows x h at_end =
      let many : ltb limit (length (map show (take (suc limit) rows))) ≡ true =
        ground (arith, length-map show (take (suc limit) rows), length-take (suc limit) rows) in
      rw (many, get_elem?-map show (take (suc limit) rows) (limit - 1) x at_end)
        (ap (λ l. record { items = l; next_cursor = cursor_of (show x) })
          (take-map show limit (take (suc limit) rows) ∙ ap (map show) (take-take limit rows)))
