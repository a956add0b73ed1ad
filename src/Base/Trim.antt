-- ===== src/Base/Trim.antt =====
-- strings.TrimSpace, ToUpper and TrimPrefix, on ASCII text: white space and letters of more than one byte,
-- which Go knows too, stay as they are.
use Prim.Native.Nat.{ℕ, ◌-◌}
use mathlib.Core.Bool.{Bool, ◌&&◌, ◌||◌}
use mathlib.Core.Option.{Option, none, some}
use mathlib.Core.List.{[], ◌∷◌, map}
use hookyard.Base.Tests.{leb, ◌==◌, if◌then◌else◌, coalesce}
use hookyard.Base.ByteStrings.{Bytes, is_empty}

-- '\t', '\n', '\v', '\f', '\r' and ' '
abbrev pub is_space : ℕ → Bool
is_space b = (b == 32) || (leb 9 b && leb b 13)

unfoldable pub trim_left : Bytes → Bytes
trim_left [] = []
trim_left (b ∷ bs) = if is_space b then trim_left bs else b ∷ bs

unfoldable pub trim_right : Bytes → Bytes
trim_right [] = []
trim_right (b ∷ bs) =
    let rest = trim_right bs in if is_empty rest && is_space b then [] else b ∷ rest

unfoldable pub trim_space : Bytes → Bytes
unfolding trim_left trim_right
trim_space bs = trim_right (trim_left bs)

unfoldable pub to_upper : Bytes → Bytes
to_upper = map (λ b. if leb 97 b && leb b 122 then b - 32 else b)

-- What follows a prefix, if the text has it.
unfoldable pub strip_prefix : Bytes → Bytes → Option Bytes
strip_prefix [] bs = some bs
strip_prefix (p ∷ ps) [] = none
strip_prefix (p ∷ ps) (b ∷ bs) = let rest = strip_prefix ps bs in if p == b then rest else none

-- strings.TrimPrefix
abbrev pub trim_prefix : Bytes → Bytes → Bytes
trim_prefix p bs = coalesce (strip_prefix p bs) bs
