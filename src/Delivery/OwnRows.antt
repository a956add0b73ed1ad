-- ===== src/Delivery/OwnRows.antt =====
-- What the methods of delivery-service/internal/delivery read for a tenant is its own.
use hookyard.Base.{
  ℕ, suc, ◌≡◌, refl, sym, ap, ◌∙◌, subst, Bytes, Bool, true, false, ◌&&◌, Option, none, some, List,
  [], ◌∷◌, ◌==◌, ==_iff, ltb, find, exists, select, order_by, take, arith,
}
use hookyard.Base.Int.{ℤ}
use hookyard.Base.Trim.{trim_space, to_upper}
use hookyard.Base.Cursor.{Texts, read_cursor}
use hookyard.Base.Paging.{page_limit, Page}
use hookyard.Base.Session.{other, lift, M, throw, call, query, for_each}
use hookyard.Base.Views.{
  Blind, Blind-lift, Blind-pure, Blind-throw, Blind-if, Blind-call, Blind-bind, Blind-then,
  Blind-query, Blind-for_each,
}
use hookyard.Delivery.Model.{Delivery, Attempt, Tables}
use hookyard.Delivery.Repository.{get, or_not_found}
use hookyard.Delivery.Listing.{
  ListFilter, AttemptView, matches, status_filter, newer, list, is_own, attempt_of, earlier,
  read_number, checked_page, found_or_missing, list_attempts, list_deliveries, list_dlq,
  list_attempts_of,
}

abbrev belongs : ℕ → Delivery → Bool
belongs tenant_id d = d.tenant_id == tenant_id

-- The part of the tables that a tenant owns: its deliveries, and the attempts of those.
unfoldable pub own : ℕ → Tables → Tables
own tenant_id t = record {
  deliveries = select (belongs tenant_id) t.deliveries;
  attempts = select (λ a. exists (is_own tenant_id a.delivery_id) t.deliveries) t.attempts;
}

module _ {ℓ} {A : Type ℓ} (p mine : A → Bool) (only : (x : A) → p x ≡ true → mine x ≡ true) where
  select-select : (xs : List A) → select p (select mine xs) ≡ select p xs
  unfolding select
  select-select [] = refl
  select-select (x ∷ xs) = ground (arith, only x, select-select xs)

  find-select : (xs : List A) → find p (select mine xs) ≡ find p xs
  unfolding find select
  find-select [] = refl
  find-select (x ∷ xs) = ground (arith, only x, find-select xs)

  exists-select : (xs : List A) → exists p (select mine xs) ≡ exists p xs
  unfolding exists select
  exists-select [] = refl
  exists-select (x ∷ xs) = ground (arith, only x, exists-select xs)

module _ (tenant_id : ℕ) where
  abbrev pub OwnOnly : {A : Type 0} → M Tables A → Type 0
  OwnOnly m = Blind (own tenant_id) m

  pub get-OwnOnly : (id : ℕ) → OwnOnly (get tenant_id id)
  unfolding get own
  get-OwnOnly id =
      Blind-bind (own tenant_id) (query _ _) or_not_found
        (Blind-query (own tenant_id) _ _
          (λ t. find-select _ (belongs tenant_id) (λ d hit. ground arith) t.deliveries))
        found
    where
      found : (o : Option Delivery) → OwnOnly (or_not_found o)
      found none = Blind-throw (own tenant_id) _
      found (some d) = Blind-pure (own tenant_id) d

  list-OwnOnly :
      (texts : Texts) (filter : ListFilter) (dlq_only : Bool)
      → OwnOnly (list texts tenant_id filter dlq_only)
  unfolding list own matches
  list-OwnOnly texts filter dlq_only =
      Blind-bind V (lift _) _
        (Blind-lift V (status_filter dlq_only (to_upper (trim_space filter.status))))
        (λ status.
          Blind-bind V (lift _) _
            (Blind-lift V (read_cursor texts (other "invalid cursor") filter.cursor))
            (λ position.
              Blind-bind V (query _ _) _
                (Blind-query V _ _ (λ t.
                  ap (λ ds. take (suc (page_limit filter.limit)) (order_by newer ds))
                    (select-select _ (belongs tenant_id) (λ d hit. ground arith) t.deliveries)))
                (λ rows.
                  Blind-then V (for_each rows _) _ (Blind-for_each V rows _ (λ d. Blind-call V _))
                    (Blind-then V (call _) _ (Blind-call V _) (Blind-pure V _)))))
    where
      V : Tables → Tables
      V = own tenant_id

  own-exists :
      (id : ℕ) (t : Tables)
      → exists (is_own tenant_id id) (own tenant_id t).deliveries
        ≡ exists (is_own tenant_id id) t.deliveries
  unfolding own
  own-exists id t =
      exists-select (is_own tenant_id id) (belongs tenant_id) (λ d hit. ground arith) t.deliveries

  own_attempt :
      (id after : ℕ) (ds : List Delivery) (a : Attempt)
      → (attempt_of tenant_id id ds a && ltb after a.attempt_number) ≡ true
      → exists (is_own tenant_id a.delivery_id) ds ≡ true
  unfolding attempt_of
  own_attempt id after ds a hit =
      subst (λ i. exists (is_own tenant_id i) ds ≡ true)
        (sym ((==_iff a.delivery_id id).0 (ground arith))) (ground arith)

  own-attempts :
      (id after : ℕ) (t : Tables)
      → select
          (λ a.
            attempt_of tenant_id id (own tenant_id t).deliveries a && ltb after a.attempt_number)
          (own tenant_id t).attempts
        ≡ select
            (λ a. attempt_of tenant_id id t.deliveries a && ltb after a.attempt_number)
            t.attempts
  unfolding own attempt_of
  own-attempts id after t =
      ap
        (λ b.
          select (λ a. ((a.delivery_id == id) && b) && ltb after a.attempt_number)
            (select (λ a. exists (is_own tenant_id a.delivery_id) t.deliveries) t.attempts))
        (own-exists id t)
      ∙ select-select _ _ (own_attempt id after t.deliveries) t.attempts

  checked_page-OwnOnly :
      (id : ℕ) (page : Page AttemptView) → OwnOnly (checked_page tenant_id id page)
  checked_page-OwnOnly id page = go page.items
    where
      found : (p : Page AttemptView) (b : Bool) → OwnOnly (found_or_missing p b)
      found p true = Blind-pure (own tenant_id) p
      found p false = Blind-throw (own tenant_id) _

      go :
          (items : List AttemptView)
          → OwnOnly (checked_page tenant_id id (record page { items = items }))
      go (v ∷ vs) = Blind-pure (own tenant_id) _
      go [] =
          Blind-bind (own tenant_id) (query _ _) _ (Blind-query (own tenant_id) _ _ (own-exists id))
            (found (record page { items = [] }))

  list_attempts-OwnOnly :
      (id : ℕ) (limit : ℤ) (cursor : Bytes) → OwnOnly (list_attempts tenant_id id limit cursor)
  unfolding list_attempts
  list_attempts-OwnOnly id limit cursor =
      Blind-bind V (lift _) _ (Blind-lift V (read_number cursor)) (λ after.
        Blind-bind V (query _ _) _
          (Blind-query V _ _ (λ t.
            ap (λ l. take (suc (page_limit limit)) (order_by earlier l)) (own-attempts id after t)))
          (λ rows.
            Blind-then V (for_each rows _) _ (Blind-for_each V rows _ (λ a. Blind-call V _))
              (Blind-then V (call _) _ (Blind-call V _) (checked_page-OwnOnly id _))))
    where
      V : Tables → Tables
      V = own tenant_id

  pub list_deliveries-OwnOnly :
      (texts : Texts) (filter : ListFilter) → OwnOnly (list_deliveries texts tenant_id filter)
  unfolding list_deliveries
  list_deliveries-OwnOnly texts filter =
      Blind-if (own tenant_id) (tenant_id == 0) (throw (other "invalid tenant id"))
        (list texts tenant_id filter false) (Blind-throw (own tenant_id) _)
        (list-OwnOnly texts filter false)

  pub list_dlq-OwnOnly :
      (texts : Texts) (filter : ListFilter) → OwnOnly (list_dlq texts tenant_id filter)
  unfolding list_dlq
  list_dlq-OwnOnly texts filter =
      Blind-if (own tenant_id) (tenant_id == 0) (throw (other "invalid tenant id"))
        (list texts tenant_id filter true) (Blind-throw (own tenant_id) _)
        (list-OwnOnly texts filter true)

  pub list_attempts_of-OwnOnly :
      (id : ℕ) (limit : ℤ) (cursor : Bytes) → OwnOnly (list_attempts_of tenant_id id limit cursor)
  unfolding list_attempts_of
  list_attempts_of-OwnOnly id limit cursor =
      Blind-if (own tenant_id) (tenant_id == 0) (throw (other "invalid tenant id"))
        (list_attempts tenant_id id limit cursor) (Blind-throw (own tenant_id) _)
        (list_attempts-OwnOnly id limit cursor)
