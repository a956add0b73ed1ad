-- ===== src/Auth/Secrets.antt =====
-- The text of the keys of auth-service/internal/service/service.go and how Verify reads it.
use hookyard.Base.{
  ℕ, ◌≡◌, refl, ap, ◌≢◌, Bytes, bytes, some, [], ◌∷◌, ◌++◌, ◌==◌, All, false, All-append, arith,
}
use hookyard.Auth.Repository.{before_dot, stripped, prefix_of}
use hookyard.Base.Trim.{strip_prefix}
use hookyard.Auth.Service.{Draw, secret_of}

-- The bytes in front of the first dot.
before_dot-append :
    (front rest : Bytes) → All (λ b. b ≢ 46) front → before_dot (front ++ 46 ∷ rest) ≡ some front
unfolding before_dot
before_dot-append [] rest h = refl
before_dot-append (b ∷ front) rest h = ground (arith, h.0, before_dot-append front rest h.1)

-- If the prefix has no dot, what Verify cuts out of the text of a new key is the prefix that the key
-- was stored under.
pub prefix_of-secret_of :
    (draw : Draw) → All (λ b. b ≢ 46) draw.prefix → prefix_of (secret_of draw) ≡ some draw.prefix
unfolding prefix_of strip_prefix
prefix_of-secret_of draw h = ap stripped (
    before_dot-append (bytes "hk_live_" ++ draw.prefix) draw.random_text
      (All-append (λ b. b ≢ 46) (bytes "hk_live_") draw.prefix no_dot h))
  where
    no_dot : All (λ b. b ≢ 46) (bytes "hk_live_")
    no_dot =
        let no : (b : ℕ) → (b == 46) ≡ false → b ≢ 46 = λ b e f. ground (arith) in
        (
          no 104 refl,
          (
            no 107 refl,
            (
              no 95 refl,
              (no 108 refl, (no 105 refl, (no 118 refl, (no 101 refl, (no 95 refl, tt))))),
            ),
          ),
        )
