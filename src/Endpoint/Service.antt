-- ===== src/Endpoint/Service.antt =====
-- endpoint-service/internal/endpoint/service.go with GetOrCreateDefault of
-- endpoint-service/internal/retrypolicy/repository.go. The cipher and the parser of URLs are
-- parameters. A timeout is a natural number: a negative one, which the check refuses, is left out.
use hookyard.Base.{
  ℕ, Bytes, bytes, bytes_eq, Bool, ◌&&◌, ◌||◌, Option, none, some, [], ◌∷◌, ◌++◌, ◌==◌, ltb,
  if◌then◌else◌, is_empty, length, find, exists,
}
use hookyard.Base.Session.{Error, other, Result, ok, err, Session, M, ◌>>=◌, ◌>>◌, pure, call, lift}
use hookyard.Validation.Rules.{endpoint_name, Url, webhook_url, event_types, timeout}
use hookyard.Base.Trim.{trim_space}
use hookyard.Endpoint.Store.{View, Policy, Tables, CreateRequest, PatchRequest, Collation, Moment}
use hookyard.Endpoint.Repository.{get_policy, create_endpoint, patch, delete}

-- The service and what it stands on.
pub record Service : Type 0 where
  pub collation : Collation
  pub parse_url : Bytes → Option Url
  pub allow_http : Bool
  pub encrypt : Bytes → Option Bytes

unfoldable pub validate_tenant : ℕ → Result (Unit {0})
validate_tenant id = if id == 0 then err (Error.invalid "invalid tenant id") else ok tt

abbrev pub or_default : ℕ → ℕ → ℕ
or_default n default = if n == 0 then default else n

-- normalizeCreate
unfoldable pub normalize_create : CreateRequest → CreateRequest
normalize_create r = record r {
  name = trim_space r.name;
  url = trim_space r.url;
  connect_timeout_ms = or_default r.connect_timeout_ms 5000;
  request_timeout_ms = or_default r.request_timeout_ms 10000;
}

unfoldable pub check_secret : Bytes → Result (Unit {0})
check_secret secret =
    if is_empty secret || ltb 4096 (length secret)
    then err (Error.invalid "secret must be between 1 and 4096 characters")
    else ok tt

abbrev pub default_policy : ℕ → ℕ → Policy
default_policy id tenant_id = record {
  id = id;
  tenant_id = tenant_id;
  name = bytes "default";
  max_attempts = 5;
  backoff_type = bytes "exponential";
  initial_delay = 10000;
  max_delay = 600000;
  jitter_percent = 20;
}

abbrev pub is_default : ℕ → Policy → Bool
is_default tenant_id p = (p.tenant_id == tenant_id) && bytes_eq p.name (bytes "default")

abbrev pub found_or_stored : Policy → Option Policy → M Tables Policy
found_or_stored new (some p) s = (ok p, s)
found_or_stored new none s =
    if exists (λ p. p.id == new.id) s.db.policies
    then (err (other "get default retry policy"), s)
    else (ok new, record s { db = record (s.db) { policies = s.db.policies ++ new ∷ [] } })

-- GetOrCreateDefault, whose conflict clause leaves the policy that is there as it is; `id` is the
-- gen_random_uuid() of a new one.
unfoldable pub get_or_create_default : ℕ → ℕ → M Tables Policy
get_or_create_default id tenant_id = do
  call (other "get default retry policy")
  λ s. found_or_stored (default_policy id tenant_id) (find (is_default tenant_id) s.db.policies) s

-- Whatever went wrong, the policy was not found.
abbrev pub or_invalid : Result Policy × Session Tables → Result Policy × Session Tables
or_invalid (ok p, s) = (ok p, s)
or_invalid (err e, s) = (err (Error.invalid "retry policy not found"), s)

unfoldable pub resolve_policy : ℕ → ℕ → Option ℕ → M Tables Policy
resolve_policy fresh tenant_id none = get_or_create_default fresh tenant_id
resolve_policy fresh tenant_id (some id) = λ s. or_invalid (get_policy tenant_id id s)

abbrev pub encrypted : Option Bytes → Result Bytes
encrypted none = err (other "encrypt endpoint secret")
encrypted (some b) = ok b

-- Create, of the normalized request.
unfoldable pub create_normalized : Service → ℕ → ℕ → Moment → ℕ → CreateRequest → M Tables View
create_normalized sv fresh_policy id c tenant_id req = do
  lift (endpoint_name req.name)
  lift (webhook_url sv.parse_url req.url sv.allow_http)
  lift (check_secret req.secret)
  lift (timeout req.connect_timeout_ms)
  lift (timeout req.request_timeout_ms)
  types ← lift (event_types req.event_types)
  policy ← resolve_policy fresh_policy tenant_id req.retry_policy_id
  secret ← lift (encrypted (sv.encrypt req.secret))
  create_endpoint sv.collation id c tenant_id (record req { event_types = types }) secret policy

unfoldable pub create : Service → ℕ → ℕ → Moment → ℕ → CreateRequest → M Tables View
unfolding normalize_create
create sv fresh_policy id c tenant_id req = do
  lift (validate_tenant tenant_id)
  create_normalized sv fresh_policy id c tenant_id (normalize_create req)

-- A check of a field that the request has.
abbrev pub keep : {B : Type 0} → Result B → Result (Option B)
keep (ok b) = ok (some b)
keep (err e) = err e

abbrev pub if_given : {A B : Type 0} → (A → Result B) → Option A → Result (Option B)
if_given check none = ok none
if_given check (some a) = keep (check a)

abbrev pub checked_name : Bytes → Result Bytes
checked_name name = trimmed (endpoint_name (trim_space name))
  where
    trimmed : Result (Unit {0}) → Result Bytes
    trimmed (ok u) = ok (trim_space name)
    trimmed (err e) = err e

abbrev pub checked_url : Service → Bytes → Result Bytes
checked_url sv url = trimmed (webhook_url sv.parse_url (trim_space url) sv.allow_http)
  where
    trimmed : Result (Unit {0}) → Result Bytes
    trimmed (ok u) = ok (trim_space url)
    trimmed (err e) = err e

abbrev pub checked_secret : Service → Bytes → Result Bytes
checked_secret sv secret = then_encrypted (check_secret secret)
  where
    then_encrypted : Result (Unit {0}) → Result Bytes
    then_encrypted (ok u) = encrypted (sv.encrypt secret)
    then_encrypted (err e) = err e

abbrev pub given_or_empty : Option Bytes → Bytes
given_or_empty none = []
given_or_empty (some b) = b

abbrev pub resolve_if_given : ℕ → ℕ → Option ℕ → M Tables (Option Policy)
resolve_if_given fresh tenant_id none = pure none
resolve_if_given fresh tenant_id (some id) = do
  p ← resolve_policy fresh tenant_id (some id)
  pure (some p)

unfoldable pub patch_endpoint :
    Service → ℕ → Moment → ℕ → ℕ → PatchRequest → M Tables (View × Policy)
patch_endpoint sv fresh_policy c tenant_id id req = do
  lift (validate_tenant tenant_id)
  name ← lift (if_given checked_name req.name)
  url ← lift (if_given (checked_url sv) req.url)
  secret ← lift (if_given (checked_secret sv) req.secret)
  connect ← lift (if_given timeout req.connect_timeout_ms)
  request ← lift (if_given timeout req.request_timeout_ms)
  types ← lift (if_given event_types req.event_types)
  policy ← resolve_if_given fresh_policy tenant_id req.retry_policy_id
  patch sv.collation c tenant_id id (record req { name = name; url = url; event_types = types })
      (given_or_empty secret) policy

unfoldable pub delete_endpoint : Service → Moment → ℕ → ℕ → M Tables (View × Policy)
delete_endpoint sv c tenant_id id = do
  lift (validate_tenant tenant_id)
  delete sv.collation c tenant_id id
