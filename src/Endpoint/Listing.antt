-- ===== src/Endpoint/Listing.antt =====
-- List and GetSubscriptions of endpoint-service/internal/endpoint/repository.go with the methods of
-- service.go that call them. The call of the driver that scans a row may fail for each row.
use hookyard.Base.{
  ℕ, suc, Bytes, bytes, bytes_eq, Bool, true, not, ◌&&◌, ◌||◌, Option, none, some, List, [], ◌∷◌,
  ◌++◌, map, ◌==◌, ltb, if◌then◌else◌, is_empty, is_none, take, select, order_by,
}
use hookyard.Base.Int.{ℤ}
use hookyard.Base.Trim.{trim_space, to_upper}
use hookyard.Base.Cursor.{Texts, write_cursor, read_cursor}
use hookyard.Base.Paging.{Page, page_limit, cut}
use hookyard.Base.Keyset
use hookyard.Base.Session.{
  Error, other, Result, ok, err, M, ◌>>=◌, ◌>>◌, pure, throw, call, query, lift, for_each,
}
use hookyard.Validation.Rules.{event_types}
use hookyard.Endpoint.Store.{
  Status, active, deleted, Endpoint, View, Policy, Subscription, Tables, Collation, is_deleted,
  has_id, event_types_of,
}
use hookyard.Endpoint.Repository.{get_endpoint}
use hookyard.Endpoint.Service.{validate_tenant}

pub record ListFilter : Type 0 where
  pub limit : ℤ
  pub cursor : Bytes
  pub status : Bytes

-- The status that rows must have; none stands for ALL.
unfoldable pub status_filter : Bytes → Result (Option Status)
status_filter s =
    if is_empty s || bytes_eq s (bytes "ACTIVE")
    then ok (some active)
    else if bytes_eq s (bytes "DELETED")
    then ok (some deleted)
    else if bytes_eq s (bytes "ALL")
    then ok none
    else err (Error.invalid "status must be ACTIVE, DELETED or ALL")

abbrev pub has_status : Option Status → Status → Bool
has_status none s = true
has_status (some active) s = not (is_deleted s)
has_status (some deleted) s = is_deleted s

unfoldable pub matches : ℕ → Option Status → Endpoint → Bool
matches tenant_id status e = (e.tenant_id == tenant_id) && has_status status e.status

-- ORDER BY created_at DESC, endpoint_id DESC
abbrev pub newer : Endpoint → Endpoint → Bool
newer = Keyset.newer (λ e. e.created_at) (λ e. e.id)

-- (created_at, endpoint_id) < (time, id), where the zero time and the nil UUID are sent as NULL.
abbrev pub past : ℕ × ℕ → Endpoint → Bool
past (time, id) e =
    (time == 0)
    || (if id == 0
        then ltb e.created_at time
        else Keyset.older (λ e. e.created_at) (λ e. e.id) time id e)

-- A row of the query, with the event types that it aggregates.
abbrev pub view_of : Collation → List Subscription → Endpoint → View
view_of co subscriptions e = record { row = e; event_types = event_types_of co e.id subscriptions }

abbrev pub endpoint_cursor : Texts → View → Bytes
endpoint_cursor texts v = write_cursor texts v.row.created_at v.row.id

-- Repository.List
unfoldable pub list : Collation → Texts → ℕ → ListFilter → M Tables (Page View)
unfolding status_filter matches page_limit
list co texts tenant_id filter = do
  status ← lift (status_filter (to_upper (trim_space filter.status)))
  position ← lift (read_cursor texts (Error.invalid "invalid cursor") filter.cursor)
  rows ← query (other "list endpoints") (λ t. map (view_of co t.subscriptions) (
      take (suc (page_limit filter.limit))
        (order_by newer (select (λ e. matches tenant_id status e && past position e) t.endpoints))))
  for_each rows (λ e. call (other "scan endpoint"))
  call (other "list endpoints")
  pure (cut (endpoint_cursor texts) (page_limit filter.limit) rows)

-- The WHERE of GetSubscriptions on the endpoint.
abbrev pub is_subscriber : ℕ → Endpoint → Bool
is_subscriber tenant_id e =
    (e.tenant_id == tenant_id) && (not (is_deleted e.status) && is_none e.deleted_at)

-- The JOIN: for each subscription to the event type, its endpoint.
unfoldable pub subscribers : ℕ → Bytes → List Subscription → List Endpoint → List Endpoint
subscribers tenant_id event_type [] es = []
subscribers tenant_id event_type (s ∷ ss) es =
    (if bytes_eq s.event_type event_type
      then select (λ e. has_id s.endpoint_id e && is_subscriber tenant_id e) es
      else [])
    ++ subscribers tenant_id event_type ss es

abbrev pub by_id : Endpoint → Endpoint → Bool
by_id a b = ltb a.id b.id

-- GetSubscriptions, whose endpoints come without their event types.
unfoldable pub get_subscriptions : ℕ → Bytes → M Tables (List View)
unfolding subscribers
get_subscriptions tenant_id event_type = do
  rows ←
      query (other "get subscriptions")
        (λ t. order_by by_id (subscribers tenant_id event_type t.subscriptions t.endpoints))
  for_each rows (λ e. call (other "scan endpoint"))
  call (other "get subscriptions")
  pure (map (λ e. record { row = e; event_types = [] }) rows)

-- Service.Get
unfoldable pub get : Collation → ℕ → ℕ → M Tables (View × Policy)
get co tenant_id id = do lift (validate_tenant tenant_id); get_endpoint co tenant_id id

-- types[0]
abbrev pub of_first : ℕ → List Bytes → M Tables (List View)
of_first tenant_id [] = throw (other "index out of range")
of_first tenant_id (event_type ∷ rest) = get_subscriptions tenant_id event_type

-- Service.Subscriptions
unfoldable pub subscriptions_of : ℕ → Bytes → M Tables (List View)
subscriptions_of tenant_id event_type = do
  lift (validate_tenant tenant_id)
  types ← lift (event_types (event_type ∷ []))
  of_first tenant_id types

-- Service.List
unfoldable pub list_endpoints : Collation → Texts → ℕ → ListFilter → M Tables (Page View)
list_endpoints co texts tenant_id filter = do
  lift (validate_tenant tenant_id)
  list co texts tenant_id filter
