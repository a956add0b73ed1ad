-- ===== src/Endpoint/Growth.antt =====
-- How the row of an endpoint may change over its life
-- (endpoint-service/internal/endpoint/repository.go).
use hookyard.Base.{
  ℕ, suc, ◌≤◌, ◌≡◌, sym, ap, ◌∙◌, true, false, some, List, ◌==◌, if◌then◌else◌, if_rule, find,
  find-update, find-passes, update, arith,
}
use hookyard.Endpoint.Store.{Endpoint, Tables, is_deleted, has_id, owned_by}

-- The row of an endpoint as it has become since it was `r`.
pub record HasGrown (id : ℕ) (r : Endpoint) (t : Tables) : Type 0 where
  pub row : Endpoint
  pub found : find (has_id id) t.endpoints ≡ some row
  pub newer : r.version ≤ row.version
  pub absorbed : is_deleted r.status ≡ true → row ≡ r

-- What others commit leaves the row of the endpoint `id` as it is.
abbrev pub IsApart : ℕ → (Tables → Tables) → Type 0
IsApart id others =
    (t : Tables) → find (has_id id) (others t).endpoints ≡ find (has_id id) t.endpoints

module _ (id : ℕ) (r : Endpoint) where
  abbrev pub Grown : Tables → Type 0
  Grown = HasGrown id r

  -- Besides, `e` has been read as the endpoint `key`, and where this is `id`, its row still is `e`.
  unfoldable pub Reads : ℕ → Endpoint → Tables → Type 0
  Reads key e t = Grown t × (key ≡ id → find (has_id id) t.endpoints ≡ some e)

  pub Reads-weaken : (key : ℕ) (e : Endpoint) (d : Tables) → Reads key e d → Grown d
  unfolding Reads
  Reads-weaken key e d h = h.0

  -- Subscriptions are another table.
  pub same_endpoints : (t t' : Tables) → t'.endpoints ≡ t.endpoints → Grown t → Grown t'
  same_endpoints t t' e h = record {
    row = h.row;
    found = ap (find (has_id id)) e ∙ h.found;
    newer = h.newer;
    absorbed = h.absorbed;
  }

  -- A row that the UPDATE hits is the one that was read.
  is_read :
      (key tenant_id : ℕ) (e x : Endpoint) (es : List Endpoint)
      → (key ≡ id → find (has_id id) es ≡ some e)
      → find (has_id id) es ≡ some x
      → owned_by tenant_id key x ≡ true
      → e ≡ x
  is_read key tenant_id e x es read found hit =
      let x_id : x.id ≡ id = ground (arith, find-passes (has_id id) es x found) in
      let x_key : x.id ≡ key = ground arith in
      let both : some e ≡ some x = sym (read (sym x_key ∙ x_id)) ∙ found in cc

  -- A write to the endpoint that was read, which is not deleted and gets the next version.
  pub write_grows :
      (key tenant_id : ℕ) (e : Endpoint) (f : Endpoint → Endpoint) (t : Tables)
      → ((y : Endpoint) → (f y).id ≡ y.id)
      → ((y : Endpoint) → (f y).version ≡ suc e.version)
      → is_deleted e.status ≡ false
      → Reads key e t
      → Grown (record t { endpoints = update (owned_by tenant_id key) f t.endpoints })
  unfolding Reads
  write_grows key tenant_id e f t same next live h = record {
    row = if owned_by tenant_id key (h.0.row) then f (h.0.row) else h.0.row;
    found =
        find-update (has_id id) (owned_by tenant_id key) f t.endpoints h.0.row
          (λ y. ap (λ i. i == id) (same y)) h.0.found;
    newer =
        if_rule (λ y. r.version ≤ y.version) (owned_by tenant_id key (h.0.row)) (f (h.0.row))
          (h.0.row)
          (λ hit.
            let e_row : e ≡ h.0.row =
              is_read key tenant_id e h.0.row t.endpoints h.1 h.0.found hit in
            omega (arith, ap (λ y. y.version) e_row, next h.0.row, h.0.newer))
          (λ miss. h.0.newer);
    absorbed = λ gone.
        if_rule (λ y. y ≡ r) (owned_by tenant_id key (h.0.row)) (f (h.0.row)) (h.0.row)
          (λ hit.
            let e_row : e ≡ h.0.row =
              is_read key tenant_id e h.0.row t.endpoints h.1 h.0.found hit in
            let e_r : e ≡ r = e_row ∙ h.0.absorbed gone in
            absurd (ground (arith, ap (λ y. is_deleted y.status) e_r)))
          (λ miss. h.0.absorbed gone);
  }

  -- What others commit in between leaves the endpoint alone.
  pub others-Reads :
      (others : Tables → Tables) (key : ℕ) (e : Endpoint)
      → IsApart id others
      → (t : Tables) → Reads key e t
      → Reads key e (others t)
  unfolding Reads
  others-Reads others key e apart t h = (
    record {
      row = h.0.row;
      found = apart t ∙ h.0.found;
      newer = h.0.newer;
      absorbed = h.0.absorbed;
    },
    λ same. apart t ∙ h.1 same,
  )
