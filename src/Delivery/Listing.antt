-- ===== src/Delivery/Listing.antt =====
-- List and ListAttempts of delivery-service/internal/delivery/repository.go with the methods of
-- service.go that call them. The call of the driver that scans a row may fail for each row.
use hookyard.Base.{
  ℕ, suc, Bytes, bytes, bytes_eq, Bool, true, false, ◌&&◌, ◌||◌, Option, none, some, List, [], ◌∷◌,
  map, ◌==◌, ltb, if◌then◌else◌, is_empty, take, select, exists, order_by, decimal,
}
use hookyard.Base.Int.{ℤ, pos}
use hookyard.Base.Trim.{trim_space, to_upper}
use hookyard.Base.Atoi.{atoi}
use hookyard.Base.Base64.{encode_base64, decode_base64}
use hookyard.Base.Cursor.{Texts, write_cursor, read_cursor}
use hookyard.Base.Paging.{Page, page_limit, cut}
use hookyard.Base.Keyset
use hookyard.Base.Session.{
  not_found, other, Result, ok, err, M, ◌>>=◌, ◌>>◌, pure, throw, call, query, lift, for_each,
}
use hookyard.Attempt.{ResultStatus}
use hookyard.Delivery.Model.{
  Status, pending, in_progress, retrying, delivered, failed, dlq, cancelled, Status-discrete,
  EndpointSnapshot, Delivery, Attempt, Tables,
}
use hookyard.Delivery.Repository.{has_id}

pub record ListFilter : Type 0 where
  pub limit : ℤ
  pub cursor : Bytes
  pub status : Bytes
  pub endpoint_id : Option ℕ
  pub event_id : Option ℕ

unfoldable pub status_named : Bytes → Option Status
status_named s =
    if bytes_eq s (bytes "PENDING")
    then some pending
    else if bytes_eq s (bytes "IN_PROGRESS")
    then some in_progress
    else if bytes_eq s (bytes "RETRYING")
    then some retrying
    else if bytes_eq s (bytes "DELIVERED")
    then some delivered
    else if bytes_eq s (bytes "FAILED")
    then some failed
    else if bytes_eq s (bytes "DLQ")
    then some dlq
    else if bytes_eq s (bytes "CANCELLED")
    then some cancelled
    else none

abbrev pub known_status : Option Status → Result (Option Status)
known_status none = err (other "invalid delivery status filter")
known_status (some s) = ok (some s)

-- The status that rows must have, if any, from the text of the filter.
unfoldable pub status_filter : Bool → Bytes → Result (Option Status)
unfolding status_named
status_filter true s =
    if is_empty s || bytes_eq s (bytes "DLQ")
    then ok (some dlq)
    else err (other "invalid DLQ status filter")
status_filter false s = if is_empty s then ok none else known_status (status_named s)

abbrev pub same_status : Status → Status → Bool
same_status a b = elim (Status-discrete a b) [ yes e ↦ true | no e ↦ false ]

-- A condition of the query that is left out where there is no value for it.
abbrev pub if_given : {A : Type 0} → (A → Bool) → Option A → Bool
if_given test none = true
if_given test (some a) = test a

unfoldable pub matches : ℕ → Option Status → ListFilter → Delivery → Bool
matches tenant_id status filter d =
    (d.tenant_id == tenant_id)
    && (if_given (λ s. same_status d.status s) status
        && (if_given (λ id. d.endpoint_id == id) filter.endpoint_id
            && if_given (λ id. d.event_id == id) filter.event_id))

-- ORDER BY created_at DESC, id DESC
abbrev pub newer : Delivery → Delivery → Bool
newer = Keyset.newer (λ d. d.created_at) (λ d. d.id)

-- The condition of a cursor, which the zero time stands for the lack of.
abbrev pub past : ℕ × ℕ → Delivery → Bool
past (time, id) d = (time == 0) || Keyset.older (λ d. d.created_at) (λ d. d.id) time id d

abbrev no_snapshot : EndpointSnapshot
no_snapshot = record {
  event_type = [];
  url = [];
  secret_encrypted = [];
  connect_timeout_ms = 0;
  request_timeout_ms = 0;
  retry_policy = record {
    max_attempts = 0;
    backoff_type = [];
    initial_delay_ms = 0;
    max_delay_ms = 0;
    jitter_percent = 0;
  };
}

-- What the columns of the query fill in of a Delivery; the other fields keep their zero values.
abbrev pub listed : Delivery → Delivery
listed d = record d {
  last_error_message = none;
  lease_owner = none;
  lease_expires_at = none;
  endpoint_snapshot = no_snapshot;
  event_payload = [];
}

abbrev pub delivery_cursor : Texts → Delivery → Bytes
delivery_cursor texts d = write_cursor texts d.created_at d.id

-- Repository.List
unfoldable pub list : Texts → ℕ → ListFilter → Bool → M Tables (Page Delivery)
unfolding status_filter matches page_limit
list texts tenant_id filter dlq_only = do
  status ← lift (status_filter dlq_only (to_upper (trim_space filter.status)))
  position ← lift (read_cursor texts (other "invalid cursor") filter.cursor)
  rows ← query (other "list deliveries") (λ t. take (suc (page_limit filter.limit)) (
      order_by newer
        (select (λ d. matches tenant_id status filter d && past position d) t.deliveries)))
  for_each rows (λ d. call (other "scan delivery"))
  call (other "list deliveries")
  pure (cut (delivery_cursor texts) (page_limit filter.limit) (map listed rows))

pub record AttemptView : Type 0 where
  pub attempt_number : ℕ
  pub status : ResultStatus
  pub http_status_code : Option ℕ
  pub latency_ms : Option ℕ
  pub error_code : Option Bytes
  pub started_at : ℕ
  pub completed_at : ℕ

abbrev pub attempt_view : Attempt → AttemptView
attempt_view a = record {
  attempt_number = a.attempt_number;
  status = a.status;
  http_status_code = a.http_status_code;
  latency_ms = some a.latency_ms;
  error_code = a.error_code;
  started_at = a.started_at;
  completed_at = a.completed_at;
}

abbrev pub parsed_number : Option ℤ → Result ℕ
parsed_number (some (pos n)) = ok n
parsed_number _ = err (other "invalid cursor")

abbrev pub decoded_number : Option Bytes → Result ℕ
decoded_number none = err (other "invalid cursor")
decoded_number (some text) = parsed_number (atoi text)

-- The number of the last attempt that was seen, 0 if there is no cursor.
unfoldable pub read_number : Bytes → Result ℕ
read_number [] = ok 0
read_number (b ∷ bs) = decoded_number (decode_base64 (b ∷ bs))

abbrev pub attempt_cursor : AttemptView → Bytes
attempt_cursor v = encode_base64 (decimal v.attempt_number)

-- The row of the delivery, which the JOIN and the last query look for.
abbrev pub is_own : ℕ → ℕ → Delivery → Bool
is_own tenant_id id d = has_id id d && (d.tenant_id == tenant_id)

-- The WHERE of the query but for the cursor.
unfoldable pub attempt_of : ℕ → ℕ → List Delivery → Attempt → Bool
attempt_of tenant_id id deliveries a =
    (a.delivery_id == id) && exists (is_own tenant_id id) deliveries

-- ORDER BY attempt_number ASC
abbrev pub earlier : Attempt → Attempt → Bool
earlier a b = ltb a.attempt_number b.attempt_number

abbrev pub found_or_missing : {A : Type 0} → A → Bool → M Tables A
found_or_missing a true = pure a
found_or_missing a false = throw not_found

-- An empty page is that of a delivery that exists.
abbrev pub checked_page : ℕ → ℕ → Page AttemptView → M Tables (Page AttemptView)
checked_page tenant_id id page = elim page.items [
  | v ∷ vs ↦ pure page
  | [] ↦ do
    is_there ← query (other "check delivery") (λ t. exists (is_own tenant_id id) t.deliveries)
    found_or_missing page is_there
]

-- Repository.ListAttempts
unfoldable pub list_attempts : ℕ → ℕ → ℤ → Bytes → M Tables (Page AttemptView)
unfolding page_limit attempt_of read_number
list_attempts tenant_id id limit cursor = do
  after ← lift (read_number cursor)
  rows ← query (other "list attempts") (λ t. take (suc (page_limit limit)) (
      order_by earlier (
        select (λ a. attempt_of tenant_id id t.deliveries a && ltb after a.attempt_number)
          t.attempts)))
  for_each rows (λ a. call (other "scan attempt"))
  call (other "list attempts")
  checked_page tenant_id id (cut attempt_cursor (page_limit limit) (map attempt_view rows))

abbrev valid_tenant : {A : Type 0} → ℕ → M Tables A → M Tables A
valid_tenant tenant_id m = if tenant_id == 0 then throw (other "invalid tenant id") else m

-- The methods of Service
unfoldable pub list_deliveries : Texts → ℕ → ListFilter → M Tables (Page Delivery)
list_deliveries texts tenant_id filter = valid_tenant tenant_id (list texts tenant_id filter false)

unfoldable pub list_dlq : Texts → ℕ → ListFilter → M Tables (Page Delivery)
list_dlq texts tenant_id filter = valid_tenant tenant_id (list texts tenant_id filter true)

unfoldable pub list_attempts_of : ℕ → ℕ → ℤ → Bytes → M Tables (Page AttemptView)
list_attempts_of tenant_id id limit cursor =
    valid_tenant tenant_id (list_attempts tenant_id id limit cursor)
