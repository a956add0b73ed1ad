-- ===== src/Endpoint/Pages.antt =====
-- That the pages of endpoints, read by their cursors, are the list of all matching endpoints
-- (List of endpoint-service/internal/endpoint/repository.go).
use hookyard.Base.{
  ℕ, suc, ◌≡◌, refl, ap, ◌∙◌, ◌≢◌, Bytes, false, ◌&&◌, Option, some, List, [], map, ◌==◌, All,
  All-map, All-select, length, take, select, order_by, All-order_by, arith,
}
use hookyard.Base.Trim.{trim_space, to_upper}
use hookyard.Base.Cursor.{
  Texts, IsFaithful, write_cursor, read_cursor, read-write, write_cursor-ne-nil,
}
use hookyard.Base.Paging.{Page, page_limit, page_limit_bounds, cut, page_of, follow}
use hookyard.Base.Following.{follow-all}
use hookyard.Base.Ranked.{
  IsOrder, AllApart, AllApart-select, order_by-IsRanked, order_by-behind, order_by-first,
}
use hookyard.Base.Keyset.{newer-IsOrder, DistinctIds, DistinctIds-AllApart}
use hookyard.Base.Session.{
  for_each-calm, Error, other, Result, ok, bind, pure, ◌>>◌, call, query, calm,
}
use hookyard.Endpoint.Store.{Status, Endpoint, View, Tables, Collation}
use hookyard.Endpoint.Listing.{
  ListFilter, status_filter, matches, newer, past, view_of, endpoint_cursor, list,
}

order : IsOrder newer
order = newer-IsOrder (λ e. e.created_at) (λ e. e.id)

-- All endpoints that a filter asks for, from the newest to the oldest.
unfoldable pub matching : ℕ → Option Status → List Endpoint → List Endpoint
matching tenant_id status es = order_by newer (select (matches tenant_id status) es)

-- Neither the time nor the id of the row is a zero value.
abbrev pub IsStamped : Endpoint → Type 0
IsStamped e = (e.created_at ≢ 0) × (e.id ≢ 0)

module _ (co : Collation) (texts : Texts) (tenant_id : ℕ) (filter : ListFilter)
    (status : Option Status) (t : Tables) where
  abbrev limit : ℕ
  limit = page_limit filter.limit

  abbrev show : Endpoint → View
  show = view_of co t.subscriptions

  abbrev ask : Bytes → Result (Page View)
  ask c = (list co texts tenant_id (record filter { cursor = c }) (calm t)).0

  abbrev all : List Endpoint
  all = matching tenant_id status t.endpoints

  list-runs :
      (c : Bytes) (position : ℕ × ℕ)
      → status_filter (to_upper (trim_space filter.status)) ≡ ok status
      → read_cursor texts (Error.invalid "invalid cursor") c ≡ ok position
      → (list co texts tenant_id (record filter { cursor = c }) (calm t)).0
        ≡ ok (
            page_of show (endpoint_cursor texts) limit (
              order_by newer
                (select (λ e. matches tenant_id status e && past position e) t.endpoints)))
  unfolding list query call
  list-runs c position known read =
      rw (known, read)
        (ap (λ r. (bind r (λ u. do call (other "list endpoints"); pure page)).0)
          (for_each-calm (other "scan endpoint") rows t))
    where
      rows : List View
      rows = map (view_of co t.subscriptions) (
          take (suc (page_limit filter.limit)) (
            order_by newer
              (select (λ e. matches tenant_id status e && past position e) t.endpoints)))

      page : Page View
      page = cut (endpoint_cursor texts) (page_limit filter.limit) rows

  -- The rows behind that of a cursor.
  behind :
      (x : Endpoint)
      → IsStamped x
      → AllApart newer t.endpoints
      → order_by newer
          (select (λ e. matches tenant_id status e && past (x.created_at, x.id) e) t.endpoints)
        ≡ select (newer x) all
  unfolding matching
  behind x stamped apart =
      let timed : (x.created_at == 0) ≡ false = ground (arith, stamped.0) in
      let named : (x.id == 0) ≡ false = ground (arith, stamped.1) in
      rw (timed, named) (order_by-behind newer order (matches tenant_id status) x t.endpoints apart)

  module _ (faithful : IsFaithful texts)
      (known : status_filter (to_upper (trim_space filter.status)) ≡ ok status)
      (apart : AllApart newer t.endpoints) where
    continues :
        (x : Endpoint)
        → IsStamped x
        → (endpoint_cursor texts (show x) ≢ [])
          × (ask (endpoint_cursor texts (show x))
              ≡ ok (page_of show (endpoint_cursor texts) limit (select (newer x) all)))
    continues x stamped = (
      write_cursor-ne-nil texts x.created_at x.id,
      list-runs (write_cursor texts x.created_at x.id) (x.created_at, x.id) known
            (read-write texts (Error.invalid "invalid cursor") x.created_at x.id faithful)
          ∙ ap (λ rows. ok (page_of show (endpoint_cursor texts) limit rows))
              (behind x stamped apart),
    )

    starts : ask [] ≡ ok (page_of show (endpoint_cursor texts) limit all)
    unfolding read_cursor matching
    starts =
        list-runs [] (0, 0) known refl
        ∙ ap (λ rows. ok (page_of show (endpoint_cursor texts) limit rows))
            (order_by-first newer (matches tenant_id status) t.endpoints)

-- A client that follows the cursors of the list of endpoints from its first page, over tables that do
-- not change and with no call failing, gets exactly the endpoints of the tenant with the status of the
-- filter, each once with its event types, from the newest to the oldest, within one request more than
-- there are such endpoints: if the filter is accepted, no two rows have one id, no row has the zero
-- time or the nil UUID, and the texts of times and ids are read back.
pub endpoint_pages_are_list :
    (co : Collation) (texts : Texts) (tenant_id : ℕ) (filter : ListFilter) (status : Option Status)
    (t : Tables)
    → IsFaithful texts
    → status_filter (to_upper (trim_space filter.status)) ≡ ok status
    → DistinctIds (λ (e : Endpoint). e.created_at) (λ e. e.id) t.endpoints
    → All IsStamped t.endpoints
    → follow
        (λ c. (list co texts tenant_id (record filter { cursor = c }) (calm t)).0)
        (suc (length (matching tenant_id status t.endpoints)))
        []
      ≡ some (map (view_of co t.subscriptions) (matching tenant_id status t.endpoints))
unfolding matching
endpoint_pages_are_list co texts tenant_id filter status t faithful known distinct stamped =
    follow-all newer order (view_of co t.subscriptions) (endpoint_cursor texts)
      (page_limit filter.limit)
      (λ c. (list co texts tenant_id (record filter { cursor = c }) (calm t)).0)
      (matching tenant_id status t.endpoints) (page_limit_bounds filter.limit).0
      (order_by-IsRanked newer order _ (AllApart-select newer _ t.endpoints apart))
      (All-map IsStamped _ (matching tenant_id status t.endpoints)
        (λ x k. continues co texts tenant_id filter status t faithful known apart x k)
        (All-order_by newer IsStamped _ (All-select IsStamped _ t.endpoints stamped)))
      (starts co texts tenant_id filter status t faithful known apart)
  where
    apart : AllApart newer t.endpoints
    apart = DistinctIds-AllApart (λ e. e.created_at) (λ e. e.id) t.endpoints distinct
