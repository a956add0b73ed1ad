-- ===== src/Base/Decimal.antt =====
-- strconv's decimal digits.
use Prim.Native.Nat.{ℕ, zero, suc, ◌+◌, ◌/◌, ◌%◌}
use mathlib.Core.List.{[], ◌∷◌, ◌++◌}
use hookyard.Base.Tests.{ltb, if◌then◌else◌}
use hookyard.Base.ByteStrings.{Bytes}

unfoldable pub decimal_on : ℕ → ℕ → Bytes
decimal_on zero n = []
decimal_on (suc fuel) n =
    let high = decimal_on fuel (n / 10) in
    if ltb n 10 then (48 + n) ∷ [] else high ++ (48 + n % 10) ∷ []

-- A number has fewer digits than its successor counts, so the fuel is enough.
unfoldable pub decimal : ℕ → Bytes
unfolding decimal_on
decimal n = decimal_on (suc n) n
