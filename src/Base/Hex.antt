-- ===== src/Base/Hex.antt =====
-- DecodeString and EncodeToString of Go's encoding/hex.
use Prim.Native.Nat.{ℕ, ◌+◌, ◌-◌, ◌*◌, ◌/◌, ◌%◌, ◌<◌}
use mathlib.Core.Path.{◌≡◌, refl}
use mathlib.Core.Bool.{◌&&◌}
use mathlib.Core.Option.{Option, none, some}
use mathlib.Core.List.{[], ◌∷◌}
use native.Mathlib.Omega.{arith}
use hookyard.Base.Tests.{ltb, leb, if◌then◌else◌}
use hookyard.Base.Lists.{All}
use hookyard.Base.ByteStrings.{Bytes}

-- The value of a digit, of either case.
unfoldable pub hex_value : ℕ → Option ℕ
hex_value c =
    if leb 48 c && leb c 57
    then some (c - 48)
    else if leb 97 c && leb c 102
    then some (c - 87)
    else if leb 65 c && leb c 70
    then some (c - 55)
    else none

abbrev byte_of : Option ℕ → Option ℕ → Option Bytes → Option Bytes
byte_of (some h) (some l) (some rest) = some ((h * 16 + l) ∷ rest)
byte_of _ _ _ = none

-- Two digits are a byte; a digit that is left over and any other letter are errors.
unfoldable pub decode_hex : Bytes → Option Bytes
unfolding hex_value
decode_hex [] = some []
decode_hex (h ∷ []) = none
decode_hex (h ∷ l ∷ rest) = byte_of (hex_value h) (hex_value l) (decode_hex rest)

unfoldable pub hex_digit : ℕ → ℕ
hex_digit n = if ltb n 10 then 48 + n else 87 + n

unfoldable pub encode_hex : Bytes → Bytes
unfolding hex_digit
encode_hex [] = []
encode_hex (b ∷ bs) = hex_digit (b / 16) ∷ hex_digit (b % 16) ∷ encode_hex bs

hex_value-digit : (n : ℕ) → n < 16 → hex_value (hex_digit n) ≡ some n
unfolding hex_value hex_digit
hex_value-digit n h = ground arith

joined_byte : (b : ℕ) (rest : Bytes) → some ((b / 16 * 16 + b % 16) ∷ rest) ≡ some (b ∷ rest)
joined_byte b rest = ground arith

-- Decoding reads back what was encoded.
pub decode-encode_hex : (bs : Bytes) → All (λ b. b < 256) bs → decode_hex (encode_hex bs) ≡ some bs
unfolding decode_hex encode_hex
decode-encode_hex [] h = refl
decode-encode_hex (b ∷ bs) h =
    rw
      (
        hex_value-digit (b / 16) (omega arith),
        hex_value-digit (b % 16) (omega arith),
        decode-encode_hex bs h.1,
      )
      (joined_byte b bs)
