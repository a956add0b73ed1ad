-- ===== src/Auth/Revocation.antt =====
-- That a revoked key stays revoked (auth-service/internal/repository/repository.go).
use hookyard.Base.{
  ℕ, ◌≡◌, refl, sym, ap, ◌∙◌, subst, Bool, true, false, List, [], ◌∷◌, ◌++◌, All, All-append,
  All-update, exists, exists-append_left, update, arith,
}
use hookyard.Auth.Store.{key_revoked, ApiKey, Tables, has_key}
use hookyard.Auth.Preservation.{IsPreserved}

-- There is a key `id`, and it is revoked.
pub record IsRevoked (id : ℕ) (t : Tables) : Type 0 where
  pub present : exists (has_key id) t.keys ≡ true
  pub all : All (λ k. k.id ≡ id → k.status ≡ key_revoked) t.keys

exists-update :
    (id : ℕ) (p : ApiKey → Bool) (f : ApiKey → ApiKey) (ks : List ApiKey)
    → ((k : ApiKey) → (f k).id ≡ k.id)
    → exists (has_key id) ks ≡ true
    → exists (has_key id) (update p f ks) ≡ true
unfolding exists update
exists-update id p f [] same h = cc
exists-update id p f (k ∷ ks) same h = ground (arith, same k, exists-update id p f ks same)

-- An update that keeps the identifiers and revives no key.
update-IsRevoked :
    (id : ℕ) (p : ApiKey → Bool) (f : ApiKey → ApiKey) (t : Tables)
    → ((k : ApiKey) → (f k).id ≡ k.id)
    → ((k : ApiKey) → k.status ≡ key_revoked → (f k).status ≡ key_revoked)
    → IsRevoked id t
    → IsRevoked id (record t { keys = update p f t.keys })
update-IsRevoked id p f t same stays h = record {
  present = exists-update id p f t.keys same h.present;
  all = All-update _ p f t.keys (λ k hit r e. stays k (r (sym (same k) ∙ e))) h.all;
}

-- The keys are another table than the tenants and the log.
other_table : (id : ℕ) (t t' : Tables) → t'.keys ≡ t.keys → IsRevoked id t → IsRevoked id t'
other_table id t t' e h = record {
  present = ap (exists (has_key id)) e ∙ h.present;
  all = subst (All (λ k. k.id ≡ id → k.status ≡ key_revoked)) (sym e) h.all;
}

-- A new key has an identifier of its own.
insert-IsRevoked :
    (id : ℕ) (k : ApiKey) (t : Tables)
    → exists (has_key k.id) t.keys ≡ false
    → IsRevoked id t
    → IsRevoked id (record t { keys = t.keys ++ k ∷ [] })
insert-IsRevoked id k t unused h = record {
  present = exists-append_left (has_key id) t.keys _ h.present;
  all = All-append _ t.keys _ h.all (
    (λ e. absurd (clash unused (subst (λ i. exists (has_key i) t.keys ≡ true) (sym e) h.present))),
    tt,
  );
}
  where
    clash : {b : Bool} → b ≡ false → b ≡ true → ⊥
    clash p q = cc

-- No statement of the repository revives the key or takes it away.
pub IsRevoked-IsPreserved : (id : ℕ) → IsPreserved (IsRevoked id)
IsRevoked-IsPreserved id = record {
  on_audit = λ entry t h. other_table id t _ refl h;
  on_tenant = λ x t free h. other_table id t _ refl h;
  on_rewrite = λ key f t same h. other_table id t _ refl h;
  on_key = insert-IsRevoked id;
  on_key_update = update-IsRevoked id;
}
