-- ===== src/Base/Cursor.antt =====
-- The opaque cursors of the lists of deliveries and of endpoints: the time and the id of a row,
-- with a '|' between them, in base64. The text of times and UUIDs is a parameter.
use Prim.Native.Nat.{ℕ, ◌<◌}
use mathlib.Core.Path.{◌≡◌, refl, ap, ap₂, ◌∙◌}
use mathlib.Core.Logic.{◌≢◌}
use mathlib.Core.Bool.{true, false}
use mathlib.Core.Option.{Option, none, some}
use mathlib.Core.List.{List, [], ◌∷◌, ◌++◌}
use native.Mathlib.Omega.{arith}
use hookyard.Base.Tests.{◌==◌, if◌then◌else◌}
use hookyard.Base.Lists.{All, All-append}
use hookyard.Base.ByteStrings.{Bytes}
use hookyard.Base.Session.{Error, Result, ok, err}
use hookyard.Base.Base64.{encode_base64, decode_base64, decode-encode, encode-ne-nil}

-- time.RFC3339Nano of an instant in UTC and uuid.UUID.String, with their parsers.
pub record Texts : Type 0 where
  pub format_time : ℕ → Bytes
  pub parse_time : Bytes → Option ℕ
  pub uuid_text : ℕ → Bytes
  pub parse_uuid : Bytes → Option ℕ

abbrev pub add_first : ℕ → List Bytes → List Bytes
add_first b [] = (b ∷ []) ∷ []
add_first b (part ∷ parts) = (b ∷ part) ∷ parts

-- strings.Split at a separator of one byte.
unfoldable pub split : ℕ → Bytes → List Bytes
split sep [] = [] ∷ []
split sep (b ∷ bs) = let rest = split sep bs in if b == sep then [] ∷ rest else add_first b rest

-- 124 is '|'.
unfoldable pub write_cursor : Texts → ℕ → ℕ → Bytes
write_cursor texts time id = encode_base64 (texts.format_time time ++ 124 ∷ texts.uuid_text id)

abbrev pub pair_of : Error → Option ℕ → Option ℕ → Result (ℕ × ℕ)
pair_of bad (some time) (some id) = ok (time, id)
pair_of bad _ _ = err bad

abbrev pub read_parts : Texts → Error → List Bytes → Result (ℕ × ℕ)
read_parts texts bad (time ∷ id ∷ []) = pair_of bad (texts.parse_time time) (texts.parse_uuid id)
read_parts texts bad _ = err bad

abbrev pub read_decoded : Texts → Error → Option Bytes → Result (ℕ × ℕ)
read_decoded texts bad none = err bad
read_decoded texts bad (some text) = read_parts texts bad (split 124 text)

-- No cursor leaves the zero time and the nil UUID.
unfoldable pub read_cursor : Texts → Error → Bytes → Result (ℕ × ℕ)
read_cursor texts bad [] = ok (0, 0)
read_cursor texts bad (b ∷ bs) = read_decoded texts bad (decode_base64 (b ∷ bs))

-- What the packages document of these texts: they are ASCII, hold no '|' and are read back.
pub record IsFaithful (texts : Texts) : Type 0 where
  pub time_back : (t : ℕ) → texts.parse_time (texts.format_time t) ≡ some t
  pub uuid_back : (id : ℕ) → texts.parse_uuid (texts.uuid_text id) ≡ some id
  pub time_bytes : (t : ℕ) → All (λ b. (b < 128) × (b ≢ 124)) (texts.format_time t)
  pub uuid_bytes : (id : ℕ) → All (λ b. (b < 128) × (b ≢ 124)) (texts.uuid_text id)

split-none : (sep : ℕ) (bs : Bytes) → All (λ b. (b < 128) × (b ≢ sep)) bs → split sep bs ≡ bs ∷ []
unfolding split
split-none sep [] h = refl
split-none sep (b ∷ bs) h =
    let other : (b == sep) ≡ false = ground (arith, h.0.1) in rw (other, split-none sep bs h.1)

split-append :
    (sep : ℕ) (front back : Bytes)
    → All (λ b. (b < 128) × (b ≢ sep)) front
    → split sep (front ++ sep ∷ back) ≡ front ∷ split sep back
unfolding split
split-append sep [] back h = let same : (sep == sep) ≡ true = ground arith in rw same
split-append sep (b ∷ bs) back h =
    let other : (b == sep) ≡ false = ground (arith, h.0.1) in
    rw (other, split-append sep bs back h.1)

small : (bs : Bytes) → All (λ b. (b < 128) × (b ≢ 124)) bs → All (λ b. b < 256) bs
small [] h = tt
small (b ∷ bs) h = (omega arith, small bs h.1)

middle-ne-nil : (front : Bytes) (b : ℕ) (back : Bytes) → front ++ b ∷ back ≢ []
middle-ne-nil [] b back e = cc
middle-ne-nil (x ∷ front) b back e = cc

-- The text of a cursor is not empty.
pub write_cursor-ne-nil : (texts : Texts) (time id : ℕ) → write_cursor texts time id ≢ []
unfolding write_cursor
write_cursor-ne-nil texts time id =
    encode-ne-nil _ (middle-ne-nil (texts.format_time time) 124 (texts.uuid_text id))

read_cursor_given :
    (texts : Texts) (bad : Error) (c : Bytes)
    → c ≢ []
    → read_cursor texts bad c ≡ read_decoded texts bad (decode_base64 c)
unfolding read_cursor
read_cursor_given texts bad [] h = absurd (h refl)
read_cursor_given texts bad (b ∷ bs) h = refl

-- A cursor is read back as the time and the id of its row.
pub read-write :
    (texts : Texts) (bad : Error) (time id : ℕ)
    → IsFaithful texts
    → read_cursor texts bad (write_cursor texts time id) ≡ ok (time, id)
unfolding write_cursor
read-write texts bad time id faithful =
    read_cursor_given texts bad (write_cursor texts time id) (write_cursor-ne-nil texts time id)
    ∙ ap (read_decoded texts bad) (decode-encode (front ++ 124 ∷ back) all_small)
    ∙ ap (read_parts texts bad) parts
    ∙ ap₂ (pair_of bad) (faithful.time_back time) (faithful.uuid_back id)
  where
    front : Bytes
    front = texts.format_time time

    back : Bytes
    back = texts.uuid_text id

    all_small : All (λ b. b < 256) (front ++ 124 ∷ back)
    all_small =
        All-append (λ b. b < 256) front (124 ∷ back) (small front (faithful.time_bytes time))
          (omega arith, small back (faithful.uuid_bytes id))

    parts : split 124 (front ++ 124 ∷ back) ≡ front ∷ back ∷ []
    parts =
        split-append 124 front back (faithful.time_bytes time)
        ∙ ap (λ l. front ∷ l) (split-none 124 back (faithful.uuid_bytes id))
