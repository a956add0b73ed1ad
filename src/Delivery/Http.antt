-- ===== src/Delivery/Http.antt =====
-- delivery-service/internal/httpapi/handler.go. uuid.Parse is a parameter.
use hookyard.Base.{
  ℕ, Bytes, bytes, Bool, true, false, ◌||◌, Option, none, some, List, [], ◌∷◌, map, ltb,
  if◌then◌else◌,
}
use hookyard.Base.Int.{ℤ, pos, negsuc}
use hookyard.Base.Atoi.{atoi}
use hookyard.Base.Trim.{trim_prefix}
use hookyard.Base.Cursor.{Texts}
use hookyard.Base.Paging.{Page}
use hookyard.Base.Session.{Error, not_found, other, Result, ok, err}
use hookyard.Http.{
  Request, fixed, text_of, Response, failed, answered, Handler, respond, given, calls,
}
use hookyard.Delivery.Model.{Status, Delivery, Tables, UniqueIndex, Clock}
use hookyard.Delivery.Repository.{get}
use hookyard.Delivery.Service.{replay}
use hookyard.Delivery.Listing.{ListFilter, AttemptView, list_deliveries, list_dlq, list_attempts_of}

-- The maps of deliveryView and GetDelivery.
pub record DeliveryView : Type 0 where
  pub id : ℕ
  pub event_id : ℕ
  pub endpoint_id : ℕ
  pub status : Status
  pub attempt_count : ℕ
  pub next_attempt_at : ℕ
  pub last_attempt_at : Option ℕ
  pub last_status_code : Option ℕ
  pub last_error_code : Option Bytes
  pub replay_of_delivery_id : Option ℕ
  pub created_at : ℕ
  pub updated_at : ℕ
  pub completed_at : Option ℕ

abbrev pub delivery_view : Delivery → DeliveryView
delivery_view d = record {
  id = d.id;
  event_id = d.event_id;
  endpoint_id = d.endpoint_id;
  status = d.status;
  attempt_count = d.attempt_count;
  next_attempt_at = d.next_attempt_at;
  last_attempt_at = d.last_attempt_at;
  last_status_code = d.last_status_code;
  last_error_code = d.last_error_code;
  replay_of_delivery_id = d.replay_of_delivery_id;
  created_at = d.created_at;
  updated_at = d.updated_at;
  completed_at = d.completed_at;
}

pub data Body : Type 0 where
  -- A delivery with its last_error_message.
  detail : DeliveryView → Option Bytes → Body
  deliveries : List DeliveryView → Bytes → Body
  attempts : Page AttemptView → Body
  queued : ℕ → Body
  healthy : Body

-- deliveryPageResponse
abbrev pub delivery_page : Page Delivery → Response Body
delivery_page page = answered 200 (deliveries (map delivery_view page.items) page.next_cursor)

abbrev pub bad_request : Error → Response Body
bad_request e = failed 400 (text_of e)

abbrev pub in_range : ℤ → Bool
in_range (pos n) = if ltb n 1 || ltb 100 n then false else true
in_range (negsuc n) = false

abbrev pub limit_or_default : Option ℤ → ℤ
limit_or_default none = pos 50
limit_or_default (some n) = if in_range n then n else pos 50

-- An identifier of the filter, which need not be there.
abbrev pub optional_id : (Bytes → Option ℕ) → Error → Bytes → Result (Option ℕ)
optional_id parse bad [] = ok none
optional_id parse bad (b ∷ bs) = elim (parse (b ∷ bs)) [ none ↦ err bad | some id ↦ ok (some id) ]

abbrev pub filter_of : Request → Result (Option ℕ) → Result (Option ℕ) → Result ListFilter
filter_of req (ok endpoint_id) (ok event_id) = ok (record {
  limit = limit_or_default (atoi (req.parameter (bytes "limit")));
  cursor = req.parameter (bytes "cursor");
  status = req.parameter (bytes "status");
  endpoint_id = endpoint_id;
  event_id = event_id;
})
filter_of req (err e) _ = err e
filter_of req (ok endpoint_id) (err e) = err e

-- parseListFilter
unfoldable pub parse_list_filter : (Bytes → Option ℕ) → Request → Result ListFilter
parse_list_filter parse req =
    filter_of req
      (optional_id parse (other "invalid endpoint_id") (req.parameter (bytes "endpoint_id")))
      (optional_id parse (other "invalid event_id") (req.parameter (bytes "event_id")))

-- An error of the filter, or the rest of the handler.
abbrev pub filtered : Result ListFilter → (ListFilter → Handler Tables Body) → Handler Tables Body
filtered (err e) rest = respond (bad_request e)
filtered (ok filter) rest = rest filter

abbrev pub detail_of : Delivery → Response Body
detail_of d = answered 200 (detail (delivery_view d) d.last_error_message)

abbrev pub get_error : Error → Response Body
get_error not_found = failed 404 (fixed (bytes "delivery not found"))
get_error _ = failed 500 (fixed (bytes "failed to get delivery"))

abbrev pub replay_error : Error → Response Body
replay_error not_found = failed 404 (fixed (bytes "delivery not found"))
replay_error e = failed 409 (text_of e)

abbrev pub attempts_error : Error → Response Body
attempts_error not_found = failed 404 (fixed (bytes "delivery not found"))
attempts_error e = bad_request e

module _ (parse : Bytes → Option ℕ) where
  -- tenantID, and the response where it fails.
  abbrev pub for_tenant : Request → (ℕ → Handler Tables Body) → Handler Tables Body
  for_tenant req =
      given (parse (req.header (bytes "X-Tenant-ID"))) (failed 401 (fixed (bytes "invalid tenant")))

  -- The identifier as the path has it behind "/v1/deliveries/", or the value that the mux found.
  abbrev pub for_path : Request → (ℕ → Handler Tables Body) → Handler Tables Body
  for_path req =
      given (parse (trim_prefix (bytes "/v1/deliveries/") req.path))
        (failed 400 (fixed (bytes "invalid delivery ID")))

  abbrev pub for_id : Request → (ℕ → Handler Tables Body) → Handler Tables Body
  for_id req =
      given (parse (req.path_value (bytes "id"))) (failed 400 (fixed (bytes "invalid delivery ID")))

  unfoldable pub get_delivery : Request → Handler Tables Body
  get_delivery req =
      for_tenant req λ tenant_id. for_path req λ id. calls (get tenant_id id) get_error detail_of

  unfoldable pub list_handler : Texts → Request → Handler Tables Body
  list_handler texts req = for_tenant req λ tenant_id.
      filtered (parse_list_filter parse req)
        λ filter. calls (list_deliveries texts tenant_id filter) bad_request delivery_page

  unfoldable pub dlq_handler : Texts → Request → Handler Tables Body
  dlq_handler texts req = for_tenant req λ tenant_id.
      filtered (parse_list_filter parse req)
        λ filter. calls (list_dlq texts tenant_id filter) bad_request delivery_page

  -- `index`, `fresh` and `c` are those of CreateReplay.
  unfoldable pub replay_delivery : UniqueIndex → ℕ → Clock → Request → Handler Tables Body
  replay_delivery index fresh c req = for_tenant req λ tenant_id. for_path req λ id.
      calls (replay index fresh c tenant_id id) replay_error (λ new. answered 202 (queued new))

  -- The error of Atoi stays set where the limit falls back to 50.
  unfoldable pub attempts_handler : Request → Handler Tables Body
  attempts_handler req = for_tenant req λ tenant_id. for_id req λ id.
      given (atoi (req.parameter (bytes "limit"))) (bad_request (other "strconv.Atoi")) λ limit.
        calls
          (list_attempts_of tenant_id id (limit_or_default (some limit))
            (req.parameter (bytes "cursor")))
          attempts_error (λ page. answered 200 (attempts page))

unfoldable pub health : Request → Handler Tables Body
health req = respond (answered 200 healthy)

-- The routes of delivery-service/cmd/server/main.go.
pub data Route : Type 0 where
  get_health get_list get_one get_attempts post_replay get_dlq : Route

unfoldable pub serve :
    (Bytes → Option ℕ) → Texts → UniqueIndex → ℕ → Clock → Route → Request → Handler Tables Body
unfolding health list_handler get_delivery attempts_handler replay_delivery dlq_handler
serve parse texts index fresh c get_health req = health req
serve parse texts index fresh c get_list req = list_handler parse texts req
serve parse texts index fresh c get_one req = get_delivery parse req
serve parse texts index fresh c get_attempts req = attempts_handler parse req
serve parse texts index fresh c post_replay req = replay_delivery parse index fresh c req
serve parse texts index fresh c get_dlq req = dlq_handler parse texts req
