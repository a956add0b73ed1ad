-- ===== src/Secrets/Stored.antt =====
-- A secret on its way from Create of endpoint-service/internal/endpoint/service.go to Decrypt of
-- delivery-service/internal/secrets/secrets.go.
use hookyard.Base.{
  ℕ, ◌≡◌, refl, sym, ap, some-injective, false, ltb, ◌∙◌, Bytes, Option, none, some, ◌++◌, length,
  take-append, drop-append, length-append, arith,
}
use hookyard.Base.Hex.{decode_hex}
use hookyard.Base.Session.{Session, Error, other, ok}
use hookyard.Endpoint.Store.{View, Tables, CreateRequest, Moment}
use hookyard.Endpoint.Service.{Service, create}
use hookyard.Endpoint.Admission.{create-IsAdmitted}
use hookyard.Secrets.Ciphers.{
  Aead, Crypto, new_from_hex, encrypt, decrypt, decryptor, new, Works, sealed, or_error, from_key,
  decryptor_of, new_aead,
}

ltb-append : (xs ys : Bytes) → ltb (length (xs ++ ys)) (length xs) ≡ false
ltb-append xs ys = ground (arith, length-append xs ys)

-- A nonce in front of what was sealed under it.
decrypt-sealed :
    (read_full : ℕ → Option Bytes) (a : Aead) (nonce m : Bytes)
    → Works read_full a
    → length nonce ≡ a.nonce_size
    → decrypt a (nonce ++ a.seal nonce m) ≡ some m
unfolding decrypt
decrypt-sealed read_full a nonce m works e =
    let opened : a.open_sealed nonce (a.seal nonce m) ≡ some m = works.opens nonce m e in
    rw
      (
        sym e,
        ltb-append nonce (a.seal nonce m),
        take-append nonce (a.seal nonce m),
        drop-append nonce (a.seal nonce m),
      )
      opened

decrypt-encrypt :
    (read_full : ℕ → Option Bytes) (a : Aead) (m b : Bytes)
    → Works read_full a
    → encrypt read_full a m ≡ some b
    → decrypt a b ≡ some m
unfolding encrypt
decrypt-encrypt read_full a m b works run = go (read_full a.nonce_size) refl run
  where
    go :
        (o : Option Bytes)
        → read_full a.nonce_size ≡ o
        → sealed a m o ≡ some b
        → decrypt a b ≡ some m
    go none e made = cc
    go (some nonce) e made =
        ap (decrypt a) (sym (some-injective (nonce ++ a.seal nonce m) b made))
        ∙ decrypt-sealed read_full a nonce m works (works.fills a.nonce_size nonce e)

decryptor-new_from_hex :
    (cr : Crypto) (key_hex : Bytes) (a : Aead)
    → new_from_hex cr key_hex ≡ ok a
    → decryptor cr key_hex ≡ some (ok a)
unfolding new_from_hex decryptor new
decryptor-new_from_hex cr key_hex a run = go (decode_hex key_hex) run
  where
    modes : (e f : Error) (o : Option Aead) → or_error e o ≡ ok a → or_error f o ≡ ok a
    modes e f (some b) made = made
    modes e f none made = cc

    blocks :
        (e f e' f' : Error) (o : Option cr.Block)
        → new_aead cr e f o ≡ ok a
        → new_aead cr e' f' o ≡ ok a
    blocks e f e' f' (some b) made = modes f f' (cr.new_gcm b) made
    blocks e f e' f' none made = cc

    go : (o : Option Bytes) → from_key cr o ≡ ok a → decryptor_of cr o ≡ some (ok a)
    go none made = cc
    go (some key) made = ground (
      arith,
      blocks (other "create cipher") (other "create gcm") (other "create AES cipher")
          (other "create GCM") (cr.new_cipher key),
    )

-- Where the two services are given the same key, and the endpoint service accepts it, the delivery
-- service accepts it too and reads the secret of a new endpoint back: its decryptor gives for what
-- the row holds the very secret of the request. The hypotheses are that the source of random bytes
-- fills what it is given and that the mode opens what it sealed.
pub stored_secret_opens :
    (cr : Crypto) (read_full : ℕ → Option Bytes) (key_hex : Bytes) (a : Aead) (sv : Service)
    (fresh_policy id : ℕ) (c : Moment) (tenant_id : ℕ) (req : CreateRequest) (s s' : Session Tables)
    (v : View)
    → Works read_full a
    → new_from_hex cr key_hex ≡ ok a
    → create (record sv { encrypt = encrypt read_full a }) fresh_policy id c tenant_id req s
      ≡ (ok v, s')
    → (decryptor cr key_hex ≡ some (ok a)) × (decrypt a v.row.secret_encrypted ≡ some req.secret)
stored_secret_opens cr read_full key_hex a sv fresh_policy id c tenant_id req s s' v works accepted
      run =
    (
      decryptor-new_from_hex cr key_hex a accepted,
      decrypt-encrypt read_full a req.secret v.row.secret_encrypted works
          (create-IsAdmitted (record sv { encrypt = encrypt read_full a }) fresh_policy id c
            tenant_id req s s' v run).sealed,
    )
