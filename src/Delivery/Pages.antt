-- ===== src/Delivery/Pages.antt =====
-- That the pages of deliveries, read by their cursors, are the list of all matching deliveries
-- (List of delivery-service/internal/delivery/repository.go).
use hookyard.Base.{
  ℕ, suc, ◌≡◌, refl, ap, ◌∙◌, ◌≢◌, Bytes, Bool, false, ◌&&◌, Option, some, List, [], map, ◌==◌, All,
  All-map, All-select, length, take, select, order_by, All-order_by, arith,
}
use hookyard.Base.Trim.{trim_space, to_upper}
use hookyard.Base.Cursor.{
  Texts, IsFaithful, write_cursor, read_cursor, read-write, write_cursor-ne-nil,
}
use hookyard.Base.Paging.{Page, page_limit, page_limit_bounds, cut, page_of, follow}
use hookyard.Base.Following.{follow-all}
use hookyard.Base.Ranked.{
  IsOrder, AllApart, AllApart-select, order_by-IsRanked, order_by-behind, order_by-first,
}
use hookyard.Base.Keyset.{newer-IsOrder, DistinctIds-AllApart}
use hookyard.Base.Session.{for_each-calm, other, Result, ok, call, query, bind, pure, ◌>>◌, calm}
use hookyard.Delivery.Model.{Status, Delivery, Tables}
use hookyard.Delivery.Rows.{Distinct}
use hookyard.Delivery.Listing.{
  ListFilter, status_filter, matches, newer, past, listed, delivery_cursor, list,
}

order : IsOrder newer
order = newer-IsOrder (λ d. d.created_at) (λ d. d.id)

-- All deliveries that a filter asks for, from the newest to the oldest.
unfoldable pub matching : ℕ → Option Status → ListFilter → List Delivery → List Delivery
matching tenant_id status filter ds = order_by newer (select (matches tenant_id status filter) ds)

module _ (texts : Texts) (tenant_id : ℕ) (filter : ListFilter) (dlq_only : Bool)
    (status : Option Status) (t : Tables) where
  -- The filter with a cursor.
  abbrev with_cursor : Bytes → ListFilter
  with_cursor c = record filter { cursor = c }

  list-runs :
      (c : Bytes) (position : ℕ × ℕ)
      → status_filter dlq_only (to_upper (trim_space filter.status)) ≡ ok status
      → read_cursor texts (other "invalid cursor") c ≡ ok position
      → (list texts tenant_id (with_cursor c) dlq_only (calm t)).0
        ≡ ok (
            page_of listed (delivery_cursor texts) (page_limit filter.limit) (
              order_by newer
                (select (λ d. matches tenant_id status filter d && past position d) t.deliveries)))
  unfolding list query call matches
  list-runs c position known read =
      rw (known, read)
        (ap (λ r. (bind r (λ u. do call (other "list deliveries"); pure page)).0)
          (for_each-calm (other "scan delivery") rows t))
    where
      rows : List Delivery
      rows = take (suc (page_limit filter.limit)) (
          order_by newer
            (select (λ d. matches tenant_id status filter d && past position d) t.deliveries))

      page : Page Delivery
      page = cut (delivery_cursor texts) (page_limit filter.limit) (map listed rows)

  -- The rows behind that of a cursor.
  behind :
      (x : Delivery)
      → x.created_at ≢ 0
      → AllApart newer t.deliveries
      → order_by newer (
          select
            (λ d. matches tenant_id status filter d && past (x.created_at, x.id) d)
            t.deliveries)
        ≡ select (newer x) (matching tenant_id status filter t.deliveries)
  unfolding matching
  behind x later apart =
      let test : (x.created_at == 0) ≡ false = ground (arith, later) in
      rw test (order_by-behind newer order (matches tenant_id status filter) x t.deliveries apart)

  -- What a client is asked and answered over tables that do not change.
  abbrev ask : Bytes → Result (Page Delivery)
  ask c = (list texts tenant_id (with_cursor c) dlq_only (calm t)).0

  abbrev all : List Delivery
  all = matching tenant_id status filter t.deliveries

  module _ (faithful : IsFaithful texts)
      (known : status_filter dlq_only (to_upper (trim_space filter.status)) ≡ ok status)
      (apart : AllApart newer t.deliveries) where
    continues :
        (x : Delivery)
        → x.created_at ≢ 0
        → (delivery_cursor texts (listed x) ≢ [])
          × (ask (delivery_cursor texts (listed x))
              ≡ ok (
                  page_of listed
                    (delivery_cursor texts)
                    (page_limit filter.limit)
                    (select (newer x) all)))
    continues x later = (
      write_cursor-ne-nil texts x.created_at x.id,
      list-runs (write_cursor texts x.created_at x.id) (x.created_at, x.id) known
            (read-write texts (other "invalid cursor") x.created_at x.id faithful)
          ∙ ap (λ rows. ok (page_of listed (delivery_cursor texts) (page_limit filter.limit) rows))
              (behind x later apart),
    )

    starts : ask [] ≡ ok (page_of listed (delivery_cursor texts) (page_limit filter.limit) all)
    unfolding read_cursor matching
    starts =
        list-runs [] (0, 0) known refl
        ∙ ap (λ rows. ok (page_of listed (delivery_cursor texts) (page_limit filter.limit) rows))
            (order_by-first newer (matches tenant_id status filter) t.deliveries)

  follow_matching :
      IsFaithful texts
      → status_filter dlq_only (to_upper (trim_space filter.status)) ≡ ok status
      → Distinct t.deliveries
      → All (λ d. d.created_at ≢ 0) t.deliveries
      → follow ask (suc (length all)) [] ≡ some (map listed all)
  unfolding matching
  follow_matching faithful known distinct later =
      follow-all newer order listed (delivery_cursor texts) (page_limit filter.limit) ask all
        (page_limit_bounds filter.limit).0
        (order_by-IsRanked newer order _ (AllApart-select newer _ t.deliveries apart))
        (All-map (λ d. d.created_at ≢ 0) _ all (λ x k. continues faithful known apart x k)
          (All-order_by newer (λ d. d.created_at ≢ 0) _
            (All-select (λ d. d.created_at ≢ 0) _ t.deliveries later)))
        (starts faithful known apart)
    where
      apart : AllApart newer t.deliveries
      apart = DistinctIds-AllApart (λ d. d.created_at) (λ d. d.id) t.deliveries distinct

-- A client that follows the cursors of a list of deliveries from its first page, over tables that do
-- not change and with no call failing, gets exactly the deliveries of the tenant that match the
-- filter, each once, from the newest to the oldest, within one request more than there are such
-- deliveries: if the filter is accepted, no two rows have one id, no row has the zero time, and the
-- texts of times and ids are read back.
pub pages_are_list :
    (texts : Texts) (tenant_id : ℕ) (filter : ListFilter) (dlq_only : Bool) (status : Option Status)
    (t : Tables)
    → IsFaithful texts
    → status_filter dlq_only (to_upper (trim_space filter.status)) ≡ ok status
    → Distinct t.deliveries
    → All (λ d. d.created_at ≢ 0) t.deliveries
    → follow
        (λ c. (list texts tenant_id (record filter { cursor = c }) dlq_only (calm t)).0)
        (suc (length (matching tenant_id status filter t.deliveries)))
        []
      ≡ some (map listed (matching tenant_id status filter t.deliveries))
pages_are_list texts tenant_id filter dlq_only status t faithful known distinct later =
    follow_matching texts tenant_id filter dlq_only status t faithful known distinct later
