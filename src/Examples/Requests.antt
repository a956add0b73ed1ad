-- ===== src/Examples/Requests.antt =====
-- Requests to the endpoint service.
use hookyard.Base.{
  ℕ, zero, suc, ◌≡◌, sym, ap, ◌∙◌, length, Option, some-injective, refl, Bytes, bytes, bytes_eq,
  Bool, true, none, some, List, [], ◌∷◌, find, exists, select, insert, order_by,
}
use hookyard.Base.Hex.{hex_value, decode_hex}
use hookyard.Base.Session.{ok, Session, call, query, statement, scoped, for_each}
use hookyard.Validation.Rules.{
  matches_event_type, endpoint_name, parsed_url, webhook_url, timeout, collect, event_types,
}
use hookyard.Base.Trim.{trim_space, trim_left, trim_right}
use hookyard.Validation.EventTypes.{IsNormal, event_types-IsNormal}
use hookyard.Endpoint.Store.{
  active, View, Tables, CreateRequest, Moment, row_violation, insert_violation,
  subscription_violation, event_types_of,
}
use hookyard.Endpoint.Repository.{scan_tx, subscribe, create_endpoint}
use hookyard.Endpoint.Service.{
  Service, validate_tenant, normalize_create, check_secret, get_or_create_default, resolve_policy,
  create_normalized, create,
}
use hookyard.Endpoint.Admission.{IsAdmitted, create-IsAdmitted}
use hookyard.Secrets.Ciphers.{Aead, Crypto, new_from_hex, encrypt, decrypt, decryptor, Works}
use hookyard.Secrets.Stored.{stored_secret_opens}

abbrev given_types : List Bytes
given_types = bytes " order.paid" ∷ bytes "order.paid " ∷ bytes "user:new" ∷ []

types-IsNormal : IsNormal given_types (bytes "order.paid" ∷ bytes "user:new" ∷ [])
unfolding event_types collect trim_space trim_left trim_right matches_event_type exists bytes_eq
types-IsNormal = event_types-IsNormal given_types (bytes "order.paid" ∷ bytes "user:new" ∷ []) refl

abbrev service : Service
service = record {
  collation = record { lower = λ b. b; before = λ a b. true; fits = λ b. true };
  parse_url = λ b.
      some (record { scheme = bytes "https"; host = bytes "a.example"; has_user = Bool.false });
  allow_http = true;
  encrypt = λ b. some b;
}

abbrev clock : Moment
clock = record { now = 50; db_now = 51; others = λ t. t }

abbrev request : CreateRequest
request = record {
  name = bytes " orders";
  url = bytes "https://a.example/hook";
  secret = bytes "s";
  connect_timeout_ms = 0;
  request_timeout_ms = 5000;
  retry_policy_id = none;
  event_types = given_types;
}

abbrev session : Session Tables
session = record {
  db = record {
    tenants = record { tenant_id = 3; status = bytes "ACTIVE" } ∷ [];
    endpoints = [];
    subscriptions = [];
    policies = [];
  };
  faults = [];
}

abbrev view : View
view = record {
  row = record {
    id = 7;
    tenant_id = 3;
    name = bytes "orders";
    url = bytes "https://a.example/hook";
    secret_encrypted = bytes "s";
    status = active;
    connect_timeout_ms = 5000;
    request_timeout_ms = 5000;
    retry_policy_id = 9;
    version = 1;
    created_at = 51;
    updated_at = 51;
    deleted_at = none;
  };
  event_types = bytes "user:new" ∷ bytes "order.paid" ∷ [];
}

request-IsAdmitted : IsAdmitted service 3 (bytes "s") view
unfolding create validate_tenant create_normalized endpoint_name trim_space trim_left trim_right
    webhook_url parsed_url bytes_eq exists check_secret timeout event_types resolve_policy
    get_or_create_default call find create_endpoint scoped select for_each query statement insert
    order_by scan_tx subscribe normalize_create event_types_of insert_violation row_violation
    subscription_violation collect matches_event_type
request-IsAdmitted =
    create-IsAdmitted service 9 7 clock 3 request session
      (create service 9 7 clock 3 request session).1 view refl

-- A mode that puts a byte in front of the message, and a source of nines.
abbrev unmarked : Bytes → Option Bytes
unmarked [] = none
unmarked (mark ∷ m) = some m

abbrev mode : Aead
mode = record { nonce_size = 2; seal = λ nonce m. 1 ∷ m; open_sealed = λ nonce b. unmarked b }

abbrev crypto : Crypto
crypto = record { Block = Bytes; new_cipher = λ key. some key; new_gcm = λ key. some mode }

abbrev nines : ℕ → Bytes
nines zero = []
nines (suc n) = 9 ∷ nines n

length-nines : (n : ℕ) → length (nines n) ≡ n
length-nines zero = refl
length-nines (suc n) = ap suc (length-nines n)

mode-Works : Works (λ n. some (nines n)) mode
mode-Works = record {
  fills = λ n nonce e. ap length (sym (some-injective (nines n) nonce e)) ∙ length-nines n;
  opens = λ nonce m e. refl;
}

abbrev key_hex : Bytes
key_hex = bytes "00112233445566778899aabbccddeeff00112233445566778899AABBCCDDEEFF"

abbrev enciphered : View
enciphered = record view { row = record (view.row) { secret_encrypted = 9 ∷ 9 ∷ 1 ∷ bytes "s" } }

secret_read_back :
    (decryptor crypto key_hex ≡ some (ok mode))
    × (decrypt mode enciphered.row.secret_encrypted ≡ some (bytes "s"))
unfolding create validate_tenant create_normalized endpoint_name trim_space trim_left trim_right
    webhook_url parsed_url bytes_eq exists check_secret timeout event_types resolve_policy
    get_or_create_default call find create_endpoint scoped select for_each query statement insert
    order_by scan_tx subscribe normalize_create event_types_of insert_violation row_violation
    subscription_violation collect matches_event_type new_from_hex decode_hex hex_value encrypt
secret_read_back =
    stored_secret_opens crypto (λ n. some (nines n)) key_hex mode service 9 7 clock 3 request
      session
      (create (record service { encrypt = encrypt (λ n. some (nines n)) mode }) 9 7 clock 3 request
        session).1
      enciphered mode-Works refl refl
