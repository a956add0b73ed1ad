-- ===== src/Base/Atoi.antt =====
-- strconv.Atoi on a machine of 64 bits, and that it reads back what strconv and fmt print.
use Prim.Native.Nat.{ℕ, zero, suc, ◌+◌, ◌-◌, ◌*◌, ◌/◌, ◌%◌, ◌<◌}
use mathlib.Core.Path.{◌≡◌, refl, ◌∙◌}
use mathlib.Core.Logic.{◌≢◌, inl, inr}
use mathlib.Core.Bool.{Bool, ◌&&◌}
use mathlib.Core.Option.{Option, none, some}
use mathlib.Core.List.{[], ◌∷◌, ◌++◌}
use native.Mathlib.Omega.{arith}
use hookyard.Base.Tests.{ltb, leb, ◌==◌, if◌then◌else◌, Bool-cases, if_rule}
use hookyard.Base.Lists.{All, All-append}
use hookyard.Base.ByteStrings.{Bytes}
use hookyard.Base.Int.{ℤ, pos, negsuc}
use hookyard.Base.Decimal.{decimal, decimal_on}

abbrev is_digit : ℕ → Bool
is_digit c = leb 48 c && leb c 57

unfoldable pub digits : ℕ → Bytes → Option ℕ
digits n [] = some n
digits n (c ∷ cs) = let rest = digits (n * 10 + (c - 48)) cs in if is_digit c then rest else none

-- The number has at least one digit.
abbrev pub unsigned : Bytes → Option ℕ
unsigned [] = none
unsigned (c ∷ cs) = digits 0 (c ∷ cs)

abbrev pub min_int : ℕ
min_int = 9_223_372_036_854_775_808

abbrev pub positive : Option ℕ → Option ℤ
positive none = none
positive (some n) = if ltb n min_int then some (pos n) else none

abbrev pub negative : Option ℕ → Option ℤ
negative none = none
negative (some n) =
    if n == 0 then some (pos 0) else if leb n min_int then some (negsuc (n - 1)) else none

unfoldable pub atoi : Bytes → Option ℤ
unfolding digits
atoi [] = none
atoi (c ∷ cs) =
    if c == 45
    then negative (unsigned cs)
    else if c == 43
    then positive (unsigned cs)
    else positive (unsigned (c ∷ cs))

digits-append :
    (acc n : ℕ) (xs ys : Bytes) → digits acc xs ≡ some n → digits acc (xs ++ ys) ≡ digits n ys
unfolding digits
digits-append acc n [] ys h = cc
digits-append acc n (c ∷ cs) ys h = elim (Bool-cases (is_digit c)) [
  | inl yes_digit ↦ rw yes_digit (digits-append (acc * 10 + (c - 48)) n cs ys (rw (yes_digit) at h))
  | inr other ↦ absurd (ground (arith, other))
]

digits-decimal_on : (fuel n : ℕ) → n < fuel → digits 0 (decimal_on fuel n) ≡ some n
unfolding decimal_on digits
digits-decimal_on zero n h = elim h [ ]
digits-decimal_on (suc fuel) n h = elim (Bool-cases (ltb n 10)) [
  | inl small ↦ rw small (ground arith)
  | inr large ↦ rw large (
      digits-append 0 (n / 10) (decimal_on fuel (n / 10)) ((48 + n % 10) ∷ [])
        (digits-decimal_on fuel (n / 10) (ground arith))
      ∙ ground arith)
]

atoi-digits :
    (n : ℕ) (text : Bytes)
    → digits 0 text ≡ some n
    → text ≢ []
    → n < min_int
    → atoi text ≡ some (pos n)
unfolding atoi digits
atoi-digits n [] h more small = absurd (more refl)
atoi-digits n (c ∷ cs) h more small = ground arith

append-ne-nil : (xs : Bytes) (y : ℕ) → xs ++ y ∷ [] ≢ []
append-ne-nil [] y h = cc
append-ne-nil (x ∷ xs) y h = cc

decimal-ne-nil : (fuel n : ℕ) → decimal_on (suc fuel) n ≢ []
unfolding decimal_on
decimal-ne-nil fuel n =
    if_rule (λ bs. bs ≢ []) (ltb n 10) _ _ (λ _ h. cc)
      (λ _. append-ne-nil (decimal_on fuel (n / 10)) (48 + n % 10))

-- Atoi reads back what %d prints.
pub atoi-decimal : (n : ℕ) → n < min_int → atoi (decimal n) ≡ some (pos n)
unfolding decimal
atoi-decimal n small =
    atoi-digits n (decimal_on (suc n) n) (digits-decimal_on (suc n) n (omega arith))
      (decimal-ne-nil n n) small

-- What is printed is read back, and is digits only.
pub digits-decimal : (n : ℕ) → digits 0 (decimal n) ≡ some n
unfolding decimal
digits-decimal n = digits-decimal_on (suc n) n (omega arith)

decimal_on-bytes : (fuel n : ℕ) → All (λ b. (47 < b) × (b < 58)) (decimal_on fuel n)
unfolding decimal_on
decimal_on-bytes zero n = tt
decimal_on-bytes (suc fuel) n =
    if_rule (All (λ b. (47 < b) × (b < 58))) (ltb n 10) _ _
      (λ low. ((ground (arith, low), ground (arith, low)), tt))
      (λ high.
        All-append (λ b. (47 < b) × (b < 58)) (decimal_on fuel (n / 10)) _
          (decimal_on-bytes fuel (n / 10)) ((omega arith, omega arith), tt))

pub decimal-bytes : (n : ℕ) → All (λ b. (47 < b) × (b < 58)) (decimal n)
unfolding decimal
decimal-bytes n = decimal_on-bytes (suc n) n
