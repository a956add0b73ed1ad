-- ===== src/Delivery/Isolation.antt =====
-- What a tenant reads of delivery-service/internal/httpapi is its own.
use hookyard.Base.{ℕ, ◌≡◌, refl, sym, ap, ◌∙◌, ◌≢◌, Bytes, bytes, Bool, Option, none, some, List}
use hookyard.Base.Int.{ℤ}
use hookyard.Base.Trim.{trim_prefix}
use hookyard.Base.Cursor.{Texts}
use hookyard.Base.Paging.{Page}
use hookyard.Base.Atoi.{atoi}
use hookyard.Base.Session.{Session, Error, other, Result, ok, err, M}
use hookyard.Base.Views.{Shows}
use hookyard.Http.{Request, Response, answered, Handler, given, calls, reply}
use hookyard.Delivery.Model.{Tables, UniqueIndex, Clock}
use hookyard.Delivery.Repository.{get}
use hookyard.Delivery.Listing.{ListFilter, AttemptView, list_deliveries, list_dlq, list_attempts_of}
use hookyard.Delivery.Http.{
  Body, Route, get_health, get_list, get_one, get_attempts, post_replay, get_dlq, serve, filtered,
  parse_list_filter, get_error, detail_of, bad_request, delivery_page, attempts_error,
  limit_or_default, attempts,
}
use hookyard.Delivery.OwnRows.{
  own, OwnOnly, get-OwnOnly, list_deliveries-OwnOnly, list_dlq-OwnOnly, list_attempts_of-OwnOnly,
}

module _ (tenant_id : ℕ) where
  -- The answer of a handler, which sees no more than the part.
  abbrev Answers : Handler Tables Body → Type 0
  Answers h = (s s' : Session Tables) → Shows (own tenant_id) s s' → (h s').0 ≡ (h s).0

  calls-Answers :
      {B : Type 0} (m : M Tables B) (bad : Error → Response Body) (good : B → Response Body)
      → OwnOnly tenant_id m
      → Answers (calls m bad good)
  calls-Answers {B} m bad good em s s' h = go (m s) (m s') (em s s' h).0
    where
      shown : Result B → Response Body
      shown (ok b) = good b
      shown (err e) = bad e

      response : (r : Result B) (t : Session Tables) → (reply bad good (r, t)).0 ≡ shown r
      response (ok b) t = refl
      response (err e) t = refl

      go :
          (x y : Result B × Session Tables)
          → y.0 ≡ x.0
          → (reply bad good y).0 ≡ (reply bad good x).0
      go (x, t) (y, t') e = response y t' ∙ ap shown e ∙ sym (response x t)

  given-Answers :
      {B : Type 0} (o : Option B) (refusal : Response Body) (rest : B → Handler Tables Body)
      → ((b : B) → Answers (rest b))
      → Answers (given o refusal rest)
  given-Answers none refusal rest h = λ s s' k. refl
  given-Answers (some b) refusal rest h = h b

  filtered-Answers :
      (r : Result ListFilter) (rest : ListFilter → Handler Tables Body)
      → ((filter : ListFilter) → Answers (rest filter))
      → Answers (filtered r rest)
  filtered-Answers (err e) rest h = λ s s' k. refl
  filtered-Answers (ok filter) rest h = h filter

  serve-Answers :
      (parse : Bytes → Option ℕ) (texts : Texts) (index : UniqueIndex) (fresh : ℕ) (c : Clock)
      (route : Route) (req : Request)
      → route ≢ post_replay
      → parse (req.header (bytes "X-Tenant-ID")) ≡ some tenant_id
      → Answers (serve parse texts index fresh c route req)
  unfolding serve
  serve-Answers parse texts index fresh c get_health req reads tenant = λ s s' h. refl
  serve-Answers parse texts index fresh c post_replay req reads tenant = absurd (reads refl)
  serve-Answers parse texts index fresh c get_one req reads tenant = rw tenant (
      given-Answers (parse (trim_prefix (bytes "/v1/deliveries/") req.path)) _
        (λ id. calls (get tenant_id id) get_error detail_of)
        (λ id. calls-Answers (get tenant_id id) get_error detail_of (get-OwnOnly tenant_id id)))
  serve-Answers parse texts index fresh c get_list req reads tenant = rw tenant (
      filtered-Answers (parse_list_filter parse req)
        (λ filter. calls (list_deliveries texts tenant_id filter) bad_request delivery_page)
        (λ filter.
          calls-Answers (list_deliveries texts tenant_id filter) bad_request delivery_page
            (list_deliveries-OwnOnly tenant_id texts filter)))
  serve-Answers parse texts index fresh c get_dlq req reads tenant = rw tenant (
      filtered-Answers (parse_list_filter parse req)
        (λ filter. calls (list_dlq texts tenant_id filter) bad_request delivery_page)
        (λ filter.
          calls-Answers (list_dlq texts tenant_id filter) bad_request delivery_page
            (list_dlq-OwnOnly tenant_id texts filter)))
  serve-Answers parse texts index fresh c get_attempts req reads tenant = rw tenant (
      given-Answers (parse (req.path_value (bytes "id"))) _ (λ id. limited id)
        (λ id.
          given-Answers (atoi (req.parameter (bytes "limit"))) _ (λ limit. paged id limit)
            (λ limit.
              calls-Answers (run id limit) attempts_error page_answer
                (list_attempts_of-OwnOnly tenant_id id _ _))))
    where
      run : ℕ → ℤ → M Tables (Page AttemptView)
      run id limit =
          list_attempts_of tenant_id id (limit_or_default (some limit))
            (req.parameter (bytes "cursor"))

      page_answer : Page AttemptView → Response Body
      page_answer page = answered 200 (attempts page)

      paged : ℕ → ℤ → Handler Tables Body
      paged id limit = calls (run id limit) attempts_error page_answer

      limited : ℕ → Handler Tables Body
      limited id =
          given (atoi (req.parameter (bytes "limit"))) (bad_request (other "strconv.Atoi"))
            (λ limit. paged id limit)

-- What a tenant is answered depends on nothing but its own deliveries and their attempts: on every
-- route that reads, whatever the request, the answer is the same from any two states of the tables
-- in which these are the same, on the same failures of calls.
pub tenants_apart :
    (parse : Bytes → Option ℕ) (texts : Texts) (index : UniqueIndex) (fresh : ℕ) (c : Clock)
    (route : Route) (req : Request) (tenant_id : ℕ) (t t' : Tables) (faults : List Bool)
    → route ≢ post_replay
    → parse (req.header (bytes "X-Tenant-ID")) ≡ some tenant_id
    → own tenant_id t ≡ own tenant_id t'
    → (serve parse texts index fresh c route req (record { db = t; faults = faults })).0
      ≡ (serve parse texts index fresh c route req (record { db = t'; faults = faults })).0
tenants_apart parse texts index fresh c route req tenant_id t t' faults reads tenant same =
    sym (seen t)
    ∙ ap (λ u. (serve parse texts index fresh c route req (record { db = u; faults = faults })).0)
        same
    ∙ seen t'
  where
    seen :
        (u : Tables)
        → (serve parse texts index fresh c route req
            (record { db = own tenant_id u; faults = faults })).0
          ≡ (serve parse texts index fresh c route req (record { db = u; faults = faults })).0
    seen u =
        serve-Answers tenant_id parse texts index fresh c route req reads tenant
          (record { db = u; faults = faults }) (record { db = own tenant_id u; faults = faults })
          (record { faults = refl; db = refl })
