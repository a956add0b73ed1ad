-- ===== src/Examples/Changes.antt =====
-- A change of an endpoint that the delivery service takes in.
use hookyard.Base.{◌≡◌, refl, bytes, some, [], ◌∷◌, exists, update, select}
use hookyard.Base.Session.{Session, transaction, exec, for_each}
use hookyard.Projection.Store.{
  EndpointChanged, Projection, upsert, upsert_endpoint, subscribe, unsubscribe,
}
use hookyard.Projection.Freshness.{IsUpserted, upsert-IsUpserted}
use hookyard.Messaging.EndpointHandler.{handle}
use hookyard.Messaging.Redelivery.{redelivery_changes_nothing}

abbrev change : EndpointChanged
change = record {
  message_id = bytes "m";
  tenant_id = 3;
  endpoint_id = 7;
  name = bytes "orders";
  url = bytes "https://a.example/hook";
  secret_encrypted = 1 ∷ [];
  status = bytes "ACTIVE";
  connect_timeout_ms = 1000;
  request_timeout_ms = 5000;
  retry_policy = record {
    max_attempts = 3;
    backoff_type = bytes "exponential";
    initial_delay_ms = 1000;
    max_delay_ms = 60000;
    jitter_percent = 0;
  };
  version = 2;
  updated_at = 10;
  event_types = bytes "order.paid" ∷ [];
}

abbrev unknown_endpoint : Session Projection
unknown_endpoint = record { db = record { endpoints = []; subscriptions = [] }; faults = [] }

change-IsUpserted :
    IsUpserted change (bytes "order.paid") unknown_endpoint.db (upsert change unknown_endpoint).1.db
unfolding upsert transaction exec for_each
change-IsUpserted =
    upsert-IsUpserted change (bytes "order.paid") unknown_endpoint
      (upsert change unknown_endpoint).1 refl

-- The tables after the change.
abbrev known_endpoint : Session Projection
known_endpoint = (handle (λ e. some e) change unknown_endpoint).1

change_redelivered : (handle (λ e. some e) change known_endpoint).1.db ≡ known_endpoint.db
unfolding handle upsert transaction exec for_each upsert_endpoint subscribe unsubscribe exists
    update select
change_redelivered =
    redelivery_changes_nothing (λ e. some e) change unknown_endpoint known_endpoint known_endpoint
      (handle (λ e. some e) change known_endpoint).1 refl refl refl
