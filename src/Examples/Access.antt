-- ===== src/Examples/Access.antt =====
-- Requests to the auth service with and without the bootstrap token.
use hookyard.Base.{◌≡◌, ◌↔◌, bytes, bytes_eq, Bool, none, [], if◌then◌else◌}
use hookyard.Base.Session.{Session, calm}
use hookyard.Http.{Request}
use hookyard.Auth.Store.{Tables}
use hookyard.Auth.Http.{Secrets, Parsers, unauthorized}
use hookyard.Auth.Access.{
  Functions, for_admin, get_tenants, serve, permitted, is_trusted, IsTrusted, access_needs_secret,
}

abbrev parsers : Parsers
parsers = record {
  parse_uuid = λ b. none;
  decode_verify = λ b. none;
  decode_tenant = λ b. none;
  decode_update = λ b. none;
  decode_key = λ b. none;
}

abbrev functions : Functions
functions = record { lower = λ b. b; hash = λ b. b }

abbrev secrets : Secrets
secrets = record { bootstrap = bytes "letmein"; internal_token = [] }

abbrev request : Request
request = record {
  header = λ name. if bytes_eq name (bytes "Authorization") then bytes "Bearer letmein" else [];
  path = bytes "/internal/v1/tenants";
  path_value = λ name. [];
  parameter = λ name. [];
  body = [];
}

abbrev session : Session Tables
session = calm (record { tenants = []; keys = []; audit_log = [] })

access_checked :
    (serve parsers functions secrets (for_admin get_tenants) request session ≡ (
      if is_trusted secrets (for_admin get_tenants) request
      then permitted parsers functions (for_admin get_tenants) request session
      else (unauthorized, session)))
    × ((is_trusted secrets (for_admin get_tenants) request ≡ Bool.true)
        ↔ IsTrusted secrets (for_admin get_tenants) request)
access_checked =
    access_needs_secret parsers functions secrets (for_admin get_tenants) request session (λ e. cc)
