-- ===== src/Event/Served.antt =====
-- An event from POST /v1/events to GET /v1/events/{id} (event-service/internal/httpapi/handler.go).
use hookyard.Base.{
  ℕ, ◌≡◌, refl, sym, ap, ◌∙◌, subst, bytes, Bool, true, false, Option, none, some, List, [], ◌∷◌,
  ◌++◌, ◌==◌, is_empty, ==_refl, exists, find, find-hit, find-append, find-passes, if◌then◌else◌,
  arith,
}
use hookyard.Base.Trim.{trim_prefix}
use hookyard.Base.Session.{
  Error, not_found, conflict, invalid, other, Result, ok, err, Session, M, throw, query, call, calm,
}
use hookyard.Http.{Request, Response, answered, reply}
use hookyard.Event.Store.{
  Event, PublishRequest, Tables, Notation, Draw, same_key, is_event, get_event, publish,
  create_event,
}
use hookyard.Event.Acceptance.{IsRow, Accepted, known, created, create_event-Accepted}
use hookyard.Event.Idempotency.{found_event}
use hookyard.Event.Http.{
  Body, accepted, stored, Parsers, with_header_key, publish_error, publish_event, get_handler,
}

-- What the tables hold under the identifier of an accepted event.
pub record IsStored (n : Notation) (draw : Draw) (req : PublishRequest) (tenant_id id : ℕ)
    (before after : Tables) (e : Event) : Type 0 where
  pub found : find (is_event tenant_id id) after.events ≡ some e
  pub same_id : e.id ≡ id
  pub owner : e.tenant_id ≡ tenant_id
  pub content :
      find (same_key tenant_id req.idempotency_key) before.idempotency ≡ none
      → IsRow n draw req tenant_id e

no_event :
    (tenant_id id : ℕ) (es : List Event)
    → exists (λ x. x.id == id) es ≡ false
    → find (is_event tenant_id id) es ≡ none
unfolding exists find
no_event tenant_id id [] h = refl
no_event tenant_id id (x ∷ xs) h = ground (arith, no_event tenant_id id xs)

owned :
    (tenant_id id : ℕ) (es : List Event) (e : Event)
    → find (is_event tenant_id id) es ≡ some e
    → e.tenant_id ≡ tenant_id
owned tenant_id id es e f = ground (arith, find-passes _ es e f)

accepted-IsStored :
    (n : Notation) (draw : Draw) (req : PublishRequest) (tenant_id : ℕ) (before : Tables)
    (e : Event) (after : Tables)
    → Accepted n draw req tenant_id before e after
    → (x : Event) × IsStored n draw req tenant_id e.id before after x
accepted-IsStored n draw req tenant_id before e after (known row key found same) =
    let here : e.id ≡ row.event_id = found_event tenant_id row.event_id before.events e found in
    (
      e,
      record {
        found =
            ap (λ t. find (is_event tenant_id e.id) t.events) same
            ∙ ap (λ i. find (is_event tenant_id i) before.events) here
            ∙ found;
        same_id = refl;
        owner = owned tenant_id row.event_id before.events e found;
        content = λ new. absurd (clash new key);
      },
    )
  where
    clash : {A : Type 0} {o : Option A} {a : A} → o ≡ none → o ≡ some a → ⊥
    clash p q = cc
accepted-IsStored n draw req tenant_id before e after
      (created row new free is_new is_row es ks os) =
    (
      row,
      record {
        found =
            ap (find (is_event tenant_id e.id)) es
            ∙ ap (λ (x : Event). find (is_event tenant_id x.id) (before.events ++ row ∷ [])) is_new
            ∙ find-append _ before.events _ (no_event tenant_id draw.event_id before.events free)
            ∙ find-hit (is_event tenant_id draw.event_id) _ []
                (ground (arith, is_row.id, is_row.owner, ==_refl draw.event_id, ==_refl tenant_id));
        same_id = is_row.id ∙ sym (ap (λ x. x.id) is_new);
        owner = is_row.owner;
        content = λ _. is_row;
      },
    )

-- Three checks that were passed.
passed :
    (a b c : Bool) (x : Error) (m : M Tables Event) (s s' : Session Tables) (e : Event)
    → (if a then throw x else if b then throw x else if c then throw x else m) s ≡ (ok e, s')
    → m s ≡ (ok e, s')
passed true b c x m s s' e run = cc
passed false true c x m s s' e run = cc
passed false false true x m s s' e run = cc
passed false false false x m s s' e run = run

publish-IsStored :
    (n : Notation) (draw : Draw) (tenant_id : ℕ) (req : PublishRequest) (s s' : Session Tables)
    (e : Event)
    → publish n draw tenant_id req s ≡ (ok e, s')
    → (x : Event) × IsStored n draw req tenant_id e.id s.db s'.db x
unfolding publish
publish-IsStored n draw tenant_id req s s' e run =
    accepted-IsStored n draw req tenant_id s.db e s'.db (
      create_event-Accepted n draw req tenant_id s s' e (
        passed (is_empty req.type) (is_empty req.idempotency_key) (is_empty req.content)
          (invalid "invalid event request") (create_event n draw req tenant_id) s s' e run))

-- The answer 202 names the event that was published.
accepted_answer :
    (r : Result Event × Session Tables) (id : ℕ) (s' : Session Tables)
    → reply publish_error (λ (e : Event). answered 202 (accepted e.id)) r
      ≡ (answered 202 (accepted id), s')
    → (e : Event) × (r ≡ (ok e, s')) × (e.id ≡ id)
accepted_answer (ok e, u) id s' q =
    (e, ap (λ t. (ok e, t)) (ap (λ p. p.1) q), ap (λ p. named p.0) q)
  where
    named : Response Body → ℕ
    named (answered status (accepted i)) = i
    named _ = 0
accepted_answer (err not_found, u) id s' q = cc
accepted_answer (err conflict, u) id s' q = cc
accepted_answer (err (invalid m), u) id s' q = cc
accepted_answer (err (other m), u) id s' q = cc

-- An event that a POST has accepted is served: a GET of the identifier in the answer, by the same
-- tenant and with no failure of the database, is answered 200 with an event of that identifier and
-- tenant. Where the idempotency key was new, it has the type and the source of the request, and the
-- payload, the metadata and the time of the request as their columns keep them: the JSON as JSONB, the
-- time as TIMESTAMPTZ.
pub published_event_served :
    (ps : Parsers) (n : Notation) (draw : Draw) (post fetch : Request) (body : PublishRequest)
    (tenant_id id : ℕ) (s s' : Session Tables)
    → ps.parse_uuid (post.header (bytes "X-Tenant-ID")) ≡ some tenant_id
    → ps.decode_publish post.body ≡ some body
    → publish_event ps n draw post s ≡ (answered 202 (accepted id), s')
    → ps.parse_uuid (fetch.header (bytes "X-Tenant-ID")) ≡ some tenant_id
    → ps.parse_uuid (trim_prefix (bytes "/v1/events/") fetch.path) ≡ some id
    → (e : Event) × (get_handler ps fetch (calm s'.db) ≡ (answered 200 (stored e), calm s'.db))
      × IsStored n draw (with_header_key post body) tenant_id id s.db s'.db e
unfolding publish_event get_handler get_event query call
published_event_served ps n draw post fetch body tenant_id id s s' tenant decoded run again path =
    let (e, published, named) =
      accepted_answer (publish n draw tenant_id (with_header_key post body) s) id s'
        (rw (tenant, decoded) at run) in
    let (x, is_stored) =
      publish-IsStored n draw tenant_id (with_header_key post body) s s' e published in
    let here : IsStored n draw (with_header_key post body) tenant_id id s.db s'.db x =
      subst (λ i. IsStored n draw (with_header_key post body) tenant_id i s.db s'.db x) named
        is_stored in
    (x, rw (again, path, here.found) refl, here)
