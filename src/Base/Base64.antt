-- ===== src/Base/Base64.antt =====
-- base64.RawURLEncoding of Go's encoding/base64.
use Prim.Native.Nat.{ℕ, ◌+◌, ◌-◌, ◌*◌, ◌/◌, ◌%◌, ◌<◌}
use mathlib.Core.Path.{◌≡◌, refl, ap}
use mathlib.Core.Logic.{◌≢◌}
use mathlib.Core.Bool.{false, ◌&&◌, ◌||◌}
use mathlib.Core.Option.{Option, none, some}
use mathlib.Core.List.{[], ◌∷◌, ◌++◌, map}
use native.Mathlib.Omega.{arith}
use hookyard.Base.Tests.{ltb, leb, ◌==◌, if◌then◌else◌}
use hookyard.Base.Lists.{All}
use hookyard.Base.ByteStrings.{Bytes}

-- The letter of a value below 64, and the value of a letter.
unfoldable pub letter : ℕ → ℕ
letter n =
    if ltb n 26
    then 65 + n
    else if ltb n 52
    then 71 + n
    else if ltb n 62
    then n - 4
    else if n == 62
    then 45
    else 95

unfoldable pub value : ℕ → Option ℕ
value c =
    if leb 65 c && leb c 90
    then some (c - 65)
    else if leb 97 c && leb c 122
    then some (c - 71)
    else if leb 48 c && leb c 57
    then some (c + 4)
    else if c == 45
    then some 62
    else if c == 95
    then some 63
    else none

unfoldable pub encode_base64 : Bytes → Bytes
unfolding letter
encode_base64 [] = []
encode_base64 (a ∷ []) = letter (a / 4) ∷ letter (a % 4 * 16) ∷ []
encode_base64 (a ∷ b ∷ []) =
    letter (a / 4) ∷ letter (a % 4 * 16 + b / 16) ∷ letter (b % 16 * 4) ∷ []
encode_base64 (a ∷ b ∷ c ∷ rest) =
    letter (a / 4)
    ∷ letter (a % 4 * 16 + b / 16)
    ∷ letter (b % 16 * 4 + c / 64)
    ∷ letter (c % 64)
    ∷ encode_base64 rest

-- '\r' and '\n' are passed over.
unfoldable pub without_breaks : Bytes → Bytes
without_breaks [] = []
without_breaks (c ∷ rest) =
    let later = without_breaks rest in if (c == 10) || (c == 13) then later else c ∷ later

abbrev both : Option ℕ → Option Bytes → Option Bytes
both (some n) (some ns) = some (n ∷ ns)
both _ _ = none

-- The values of the letters, if all are letters.
unfoldable pub values : Bytes → Option Bytes
unfolding value
values [] = some []
values (c ∷ rest) = both (value c) (values rest)

abbrev longer : Bytes → Option Bytes → Option Bytes
longer front none = none
longer front (some rest) = some (front ++ rest)

-- Four values are three bytes; the bits that a shorter last group has too many are dropped, and a
-- single value is an error.
unfoldable pub join : Bytes → Option Bytes
join [] = some []
join (p ∷ []) = none
join (p ∷ q ∷ []) = some ((p * 4 + q / 16) ∷ [])
join (p ∷ q ∷ r ∷ []) = some ((p * 4 + q / 16) ∷ (q % 16 * 16 + r / 4) ∷ [])
join (p ∷ q ∷ r ∷ s ∷ rest) =
    longer ((p * 4 + q / 16) ∷ (q % 16 * 16 + r / 4) ∷ (r % 4 * 64 + s) ∷ []) (join rest)

abbrev joined : Option Bytes → Option Bytes
joined none = none
joined (some ns) = join ns

-- DecodeString
unfoldable pub decode_base64 : Bytes → Option Bytes
unfolding without_breaks values join
decode_base64 text = joined (values (without_breaks text))

-- The groups of six bits of a text.
sextets : Bytes → Bytes
sextets [] = []
sextets (a ∷ []) = (a / 4) ∷ (a % 4 * 16) ∷ []
sextets (a ∷ b ∷ []) = (a / 4) ∷ (a % 4 * 16 + b / 16) ∷ (b % 16 * 4) ∷ []
sextets (a ∷ b ∷ c ∷ rest) =
    (a / 4) ∷ (a % 4 * 16 + b / 16) ∷ (b % 16 * 4 + c / 64) ∷ (c % 64) ∷ sextets rest

encode-sextets : (bs : Bytes) → encode_base64 bs ≡ map letter (sextets bs)
unfolding encode_base64 sextets
encode-sextets [] = refl
encode-sextets (a ∷ []) = refl
encode-sextets (a ∷ b ∷ []) = refl
encode-sextets (a ∷ b ∷ c ∷ rest) = cc (encode-sextets rest)

sextets-small : (bs : Bytes) → All (λ b. b < 256) bs → All (λ n. n < 64) (sextets bs)
unfolding sextets
sextets-small [] h = tt
sextets-small (a ∷ []) h = omega arith
sextets-small (a ∷ b ∷ []) h = omega arith
sextets-small (a ∷ b ∷ c ∷ rest) h =
    (omega arith, (omega arith, (omega arith, (omega arith, sextets-small rest h.1.1.1))))

join-sextets : (bs : Bytes) → All (λ b. b < 256) bs → join (sextets bs) ≡ some bs
unfolding join sextets
join-sextets [] h = refl
join-sextets (a ∷ []) h = ground arith
join-sextets (a ∷ b ∷ []) h = ground arith
join-sextets (a ∷ b ∷ c ∷ rest) h = rw (join-sextets rest h.1.1.1) (ground arith)

letter-no_break : (n : ℕ) → n < 64 → ((letter n == 10) || (letter n == 13)) ≡ false
unfolding letter
letter-no_break n h = ground arith

value-letter : (n : ℕ) → n < 64 → value (letter n) ≡ some n
unfolding value letter
value-letter n h = ground arith

without_breaks-letters :
    (ns : Bytes) → All (λ n. n < 64) ns → without_breaks (map letter ns) ≡ map letter ns
unfolding without_breaks
without_breaks-letters [] h = refl
without_breaks-letters (n ∷ ns) h =
    rw (letter-no_break n h.0) (ap (λ l. letter n ∷ l) (without_breaks-letters ns h.1))

values-letters : (ns : Bytes) → All (λ n. n < 64) ns → values (map letter ns) ≡ some ns
unfolding values
values-letters [] h = refl
values-letters (n ∷ ns) h = rw (value-letter n h.0, values-letters ns h.1)

-- Decoding reads back what was encoded.
pub decode-encode :
    (bs : Bytes) → All (λ b. b < 256) bs → decode_base64 (encode_base64 bs) ≡ some bs
unfolding decode_base64
decode-encode bs h =
    let small : All (λ n. n < 64) (sextets bs) = sextets-small bs h in
    rw
      (
        encode-sextets bs,
        without_breaks-letters (sextets bs) small,
        values-letters (sextets bs) small,
      )
      (join-sextets bs h)

pub encode-ne-nil : (bs : Bytes) → bs ≢ [] → encode_base64 bs ≢ []
unfolding encode_base64
encode-ne-nil [] more e = more refl
encode-ne-nil (a ∷ []) more e = cc
encode-ne-nil (a ∷ b ∷ []) more e = cc
encode-ne-nil (a ∷ b ∷ c ∷ rest) more e = cc
