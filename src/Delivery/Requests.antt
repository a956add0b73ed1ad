-- ===== src/Delivery/Requests.antt =====
-- What the requests to delivery-service/internal/httpapi/handler.go cannot do.
use hookyard.Base.{
  ℕ, ◌≡◌, refl, ap, ◌∙◌, ◌≢◌, Bytes, bytes, true, Option, none, some, [], ◌∷◌, ◌++◌, ◌==◌, is_some,
  coalesce, arith,
}
use mathlib.Core.List.{append_assoc}
use hookyard.Base.Hex.{hex_value}
use hookyard.Base.Trim.{strip_prefix, trim_prefix}
use hookyard.Base.Atoi.{atoi}
use hookyard.Base.Cursor.{Texts}
use hookyard.Base.Session.{Session, other}
use hookyard.Http.{Request, fixed, failed, Response}
use hookyard.Delivery.Model.{Tables, UniqueIndex, Clock}
use hookyard.Delivery.Http.{
  Body, Route, get_health, get_list, get_one, get_attempts, post_replay, get_dlq, bad_request,
  serve, attempts_handler,
}

abbrev unauthorized : Response Body
unauthorized = failed 401 (fixed (bytes "invalid tenant"))

-- Every route but that of the health check answers 401 to a request whose X-Tenant-ID is no UUID, and
-- leaves the tables and the driver alone.
pub tenant_required :
    (parse : Bytes → Option ℕ) (texts : Texts) (index : UniqueIndex) (fresh : ℕ) (c : Clock)
    (route : Route) (req : Request) (s : Session Tables)
    → route ≢ get_health
    → parse (req.header (bytes "X-Tenant-ID")) ≡ none
    → serve parse texts index fresh c route req s ≡ (unauthorized, s)
unfolding serve
tenant_required parse texts index fresh c get_health req s known h = absurd (known refl)
tenant_required parse texts index fresh c get_list req s known h = rw h
tenant_required parse texts index fresh c get_one req s known h = rw h
tenant_required parse texts index fresh c get_attempts req s known h = rw h
tenant_required parse texts index fresh c post_replay req s known h = rw h
tenant_required parse texts index fresh c get_dlq req s known h = rw h

strip-append : (p bs : Bytes) → strip_prefix p (p ++ bs) ≡ some bs
unfolding strip_prefix
strip-append [] bs = refl
strip-append (b ∷ p) bs = let same : (b == b) ≡ true = ground arith in rw (same, strip-append p bs)

-- Each form that uuid.Parse documents (the digits in groups or in a row, with urn:uuid: in front or
-- with a character on either side, as braces are) ends in hexadecimal digits of the UUID, with at most
-- one character behind them.
abbrev pub EndsInDigits : (Bytes → Option ℕ) → Type 0
EndsInDigits parse =
    (front : Bytes) (a b c n : ℕ)
    → parse (front ++ a ∷ b ∷ c ∷ []) ≡ some n
    → (is_some (hex_value a) ≡ true) × (is_some (hex_value b) ≡ true)

replay-unparsed :
    (parse : Bytes → Option ℕ) (id : Bytes)
    → EndsInDigits parse
    → (o : Option ℕ) → parse (id ++ bytes "/replay") ≡ o
    → o ≡ none
unfolding hex_value
replay-unparsed parse id digits none e = refl
replay-unparsed parse id digits (some n) e =
    let same : (id ++ bytes "/rep") ++ 108 ∷ 97 ∷ 121 ∷ [] ≡ id ++ bytes "/replay" =
      append_assoc id (bytes "/rep") (108 ∷ 97 ∷ 121 ∷ []) in
    let letter : is_some (hex_value 108) ≡ true =
      (digits (id ++ bytes "/rep") 108 97 121 n (ap parse same ∙ e)).0 in
    cc letter

-- A request on the route POST /v1/deliveries/{id}/replay is never served: whatever the identifier,
-- the answer to a valid tenant is 400 and nothing is replayed, since uuid.Parse takes only texts that
-- end in hexadecimal digits with at most one character behind them.
pub replay_route_refused :
    (parse : Bytes → Option ℕ) (texts : Texts) (index : UniqueIndex) (fresh : ℕ) (c : Clock)
    (req : Request) (id : Bytes) (tenant_id : ℕ) (s : Session Tables)
    → EndsInDigits parse
    → req.path ≡ bytes "/v1/deliveries/" ++ id ++ bytes "/replay"
    → parse (req.header (bytes "X-Tenant-ID")) ≡ some tenant_id
    → serve parse texts index fresh c post_replay req s
      ≡ (failed 400 (fixed (bytes "invalid delivery ID")), s)
unfolding serve
replay_route_refused parse texts index fresh c req id tenant_id s digits path tenant =
    rw (tenant, refused)
  where
    rest : trim_prefix (bytes "/v1/deliveries/") req.path ≡ id ++ bytes "/replay"
    rest =
        ap (trim_prefix (bytes "/v1/deliveries/")) path
        ∙ ap (λ o. coalesce o (bytes "/v1/deliveries/" ++ id ++ bytes "/replay"))
            (strip-append (bytes "/v1/deliveries/") (id ++ bytes "/replay"))

    refused : parse (trim_prefix (bytes "/v1/deliveries/") req.path) ≡ none
    refused = ap parse rest ∙ replay-unparsed parse id digits (parse (id ++ bytes "/replay")) refl

-- The attempts of a delivery are not listed without a limit.
attempts_need_limit :
    (parse : Bytes → Option ℕ) (req : Request) (tenant_id id : ℕ) (s : Session Tables)
    → parse (req.header (bytes "X-Tenant-ID")) ≡ some tenant_id
    → parse (req.path_value (bytes "id")) ≡ some id
    → req.parameter (bytes "limit") ≡ []
    → attempts_handler parse req s ≡ (bad_request (other "strconv.Atoi"), s)
unfolding attempts_handler atoi
attempts_need_limit parse req tenant_id id s tenant path limit = rw (tenant, path, limit)
