-- ===== src/Secrets/Ciphers.antt =====
-- endpoint-service/internal/secrets/secrets.go, delivery-service/internal/secrets/secrets.go, and
-- the key that delivery-service/cmd/server/main.go reads. Packages crypto/aes and crypto/cipher and
-- the source of random bytes are parameters.
use hookyard.Base.{
  ℕ, ◌≡◌, Bytes, not, ◌&&◌, Option, none, some, ◌++◌, ◌==◌, ltb, if◌then◌else◌, length, take, drop,
}
use hookyard.Base.Hex.{decode_hex}
use hookyard.Base.Session.{Error, Result, ok, err, other}

-- cipher.AEAD: Seal and Open with no additional data, and what they append to nothing.
pub record Aead : Type 0 where
  pub nonce_size : ℕ
  pub seal : Bytes → Bytes → Bytes
  pub open_sealed : Bytes → Bytes → Option Bytes

-- aes.NewCipher and cipher.NewGCM.
pub record Crypto : Type 1 where
  pub Block : Type 0
  pub new_cipher : Bytes → Option Block
  pub new_gcm : Block → Option Aead

abbrev pub or_error : {A : Type 0} → Error → Option A → Result A
or_error e none = err e
or_error e (some a) = ok a

abbrev pub new_aead : (cr : Crypto) → Error → Error → Option cr.Block → Result Aead
new_aead cr bad_block bad_mode none = err bad_block
new_aead cr bad_block bad_mode (some b) = or_error bad_mode (cr.new_gcm b)

abbrev pub from_key : Crypto → Option Bytes → Result Aead
from_key cr none = err (other "decode encryption key")
from_key cr (some key) =
    if not (length key == 32)
    then err (other "encryption key must be 32 bytes")
    else new_aead cr (other "create cipher") (other "create gcm") (cr.new_cipher key)

-- NewFromHex of the endpoint service.
unfoldable pub new_from_hex : Crypto → Bytes → Result Aead
new_from_hex cr key_hex = from_key cr (decode_hex key_hex)

-- New of the delivery service.
unfoldable pub new : Crypto → Bytes → Result Aead
new cr key = new_aead cr (other "create AES cipher") (other "create GCM") (cr.new_cipher key)

abbrev pub sealed : Aead → Bytes → Option Bytes → Option Bytes
sealed a m none = none
sealed a m (some nonce) = some (nonce ++ a.seal nonce m)

-- Encrypt of both services: `read_full` fills a slice of a length with random bytes, or fails.
unfoldable pub encrypt : (ℕ → Option Bytes) → Aead → Bytes → Option Bytes
encrypt read_full a m = sealed a m (read_full a.nonce_size)

-- Decrypt of the delivery service.
unfoldable pub decrypt : Aead → Bytes → Option Bytes
decrypt a b =
    if ltb (length b) a.nonce_size
    then none
    else a.open_sealed (take a.nonce_size b) (drop a.nonce_size b)

abbrev pub decryptor_of : Crypto → Option Bytes → Option (Result Aead)
decryptor_of cr none = none
decryptor_of cr (some key) =
    if not (length key == 16) && (not (length key == 24) && not (length key == 32))
    then none
    else some (new cr key)

-- The decryptor of the delivery service's main, which exits on a key that is not hexadecimal or of
-- another length.
unfoldable pub decryptor : Crypto → Bytes → Option (Result Aead)
unfolding new
decryptor cr key_hex = decryptor_of cr (decode_hex key_hex)

-- What the packages document: a full read gives as many bytes as were asked for, and a mode opens
-- what it has sealed under the same nonce.
pub record Works (read_full : ℕ → Option Bytes) (a : Aead) : Type 0 where
  pub fills : (n : ℕ) (nonce : Bytes) → read_full n ≡ some nonce → length nonce ≡ n
  pub opens :
      (nonce m : Bytes)
      → length nonce ≡ a.nonce_size
      → a.open_sealed nonce (a.seal nonce m) ≡ some m
