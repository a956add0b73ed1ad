-- ===== src/Auth/Access.antt =====
-- Who may use the routes of auth-service/internal/httpapi/handler.go.
use hookyard.Base.{
  ℕ, ◌≡◌, refl, ◌≢◌, ◌↔◌, Bytes, bytes, bytes_eq, bytes_eq_iff, Bool, true, [], ◌∷◌, if◌then◌else◌,
  arith,
}
use hookyard.Base.Trim.{trim_prefix}
use hookyard.Base.Session.{Session}
use hookyard.Http.{Request, answered, Handler, respond}
use hookyard.Auth.Store.{Tables}
use hookyard.Auth.Service.{Draw}
use hookyard.Auth.Http.{
  Body, healthy, Secrets, Parsers, unauthorized, admits, admin, verify_key, verify_handler,
  create_tenant_handler, list_tenants_handler, get_tenant_handler, update_tenant_handler,
  delete_tenant_handler, create_key_handler, list_keys_handler, revoke_key_handler,
}

-- The routes that Register puts behind `admin`, with what their handlers draw.
pub data AdminRoute : Type 0 where
  post_tenant : Draw → AdminRoute
  get_tenants get_tenant get_keys : AdminRoute
  patch_tenant delete_tenant delete_key : ℕ → AdminRoute
  post_key : Draw → AdminRoute

pub data Route : Type 0 where
  get_health : Route
  post_verify : ℕ → Route
  for_admin : AdminRoute → Route

-- What PostgreSQL and the standard library do.
pub record Functions : Type 0 where
  pub lower : Bytes → Bytes
  pub hash : Bytes → Bytes

unfoldable pub administer : Parsers → Functions → AdminRoute → Request → Handler Tables Body
administer ps fs (post_tenant draw) req = create_tenant_handler ps fs.lower fs.hash draw req
administer ps fs get_tenants req = list_tenants_handler ps req
administer ps fs get_tenant req = get_tenant_handler ps req
administer ps fs (patch_tenant now) req = update_tenant_handler ps fs.lower now req
administer ps fs (delete_tenant now) req = delete_tenant_handler ps now req
administer ps fs (post_key draw) req = create_key_handler ps fs.hash draw req
administer ps fs get_keys req = list_keys_handler ps req
administer ps fs (delete_key now) req = revoke_key_handler ps now req

-- Register
unfoldable pub serve : Parsers → Functions → Secrets → Route → Request → Handler Tables Body
unfolding administer
serve ps fs secrets get_health req = respond (answered 200 healthy)
serve ps fs secrets (post_verify now) req = verify_handler ps secrets fs.hash now req
serve ps fs secrets (for_admin route) req = admin secrets req (administer ps fs route req)

-- The secret of a route, and what a request sends for it.
abbrev pub secret_of : Secrets → Route → Bytes
secret_of secrets get_health = []
secret_of secrets (post_verify now) = secrets.internal_token
secret_of secrets (for_admin route) = secrets.bootstrap

abbrev pub sent_with : Route → Request → Bytes
sent_with get_health req = []
sent_with (post_verify now) req = req.header (bytes "X-Auth-Internal-Token")
sent_with (for_admin route) req = trim_prefix (bytes "Bearer ") (req.header (bytes "Authorization"))

-- A secret is configured, and the request sends it.
abbrev pub IsTrusted : Secrets → Route → Request → Type 0
IsTrusted secrets route req =
    (secret_of secrets route ≢ []) × (sent_with route req ≡ secret_of secrets route)

admits_sound :
    (sent configured : Bytes)
    → admits sent configured ≡ true
    → (configured ≢ []) × (sent ≡ configured)
unfolding admits
admits_sound sent [] h = cc
admits_sound sent (b ∷ bs) h = ((λ e. cc), (bytes_eq_iff sent (b ∷ bs)).0 (ground arith))

admits_complete :
    (sent configured : Bytes) → configured ≢ [] → sent ≡ configured → admits sent configured ≡ true
unfolding admits
admits_complete sent [] more same = absurd (more refl)
admits_complete sent (b ∷ bs) more same =
    let equal : bytes_eq sent (b ∷ bs) ≡ true = (bytes_eq_iff sent (b ∷ bs)).1 same in rw equal

-- What a route does for a request that it trusts.
unfoldable pub permitted : Parsers → Functions → Route → Request → Handler Tables Body
permitted ps fs get_health req = respond (answered 200 healthy)
permitted ps fs (post_verify now) req = verify_key ps fs.hash now req
permitted ps fs (for_admin route) req = administer ps fs route req

abbrev pub is_trusted : Secrets → Route → Request → Bool
is_trusted secrets route req = admits (sent_with route req) (secret_of secrets route)

-- Every route but that of the health check serves exactly the requests that send its secret, and none
-- if no secret is configured: the bootstrap token for the routes of the administrators, the internal
-- token for the verification of keys. Any other request is answered 401 and leaves the tables and the
-- driver alone.
pub access_needs_secret :
    (ps : Parsers) (fs : Functions) (secrets : Secrets) (route : Route) (req : Request)
    (s : Session Tables)
    → route ≢ get_health
    → (serve ps fs secrets route req s
        ≡ (if is_trusted secrets route req then permitted ps fs route req s else (unauthorized, s)))
      × ((is_trusted secrets route req ≡ true) ↔ IsTrusted secrets route req)
unfolding serve admin verify_handler permitted
access_needs_secret ps fs secrets route req s known =
    (gate route known, (admits_sound _ _, λ h. admits_complete _ _ h.0 h.1))
  where
    gate :
        (route : Route)
        → route ≢ get_health
        → serve ps fs secrets route req s ≡ (
            if is_trusted secrets route req then permitted ps fs route req s else (unauthorized, s))
    gate get_health known = absurd (known refl)
    gate (post_verify now) known = ground arith
    gate (for_admin route) known = ground arith
