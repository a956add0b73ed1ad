-- ===== src/Validation/Rules.antt =====
-- endpoint-service/internal/validation/validation.go. The parser of URLs, url.ParseRequestURI, is a
-- parameter.
use hookyard.Base.{
  ℕ, Bytes, bytes, bytes_eq, Bool, false, not, ◌&&◌, ◌||◌, Option, none, some, List, [], ◌∷◌, ◌++◌,
  ◌==◌, ltb, leb, if◌then◌else◌, is_empty, length, exists,
}
use hookyard.Base.Session.{Error, Result, ok, err}
use hookyard.Base.Trim.{trim_space}

-- [a-zA-Z0-9]
abbrev pub is_alphanumeric : ℕ → Bool
is_alphanumeric b = (leb 97 b && leb b 122) || ((leb 65 b && leb b 90) || (leb 48 b && leb b 57))

-- [a-zA-Z0-9._:-]
abbrev pub is_type_byte : ℕ → Bool
is_type_byte b = is_alphanumeric b || ((b == 46) || ((b == 95) || ((b == 58) || (b == 45))))

-- ^[a-zA-Z0-9][a-zA-Z0-9._:-]{0,254}$
unfoldable pub matches_event_type : Bytes → Bool
matches_event_type [] = false
matches_event_type (b ∷ bs) =
    is_alphanumeric b && (not (exists (λ x. not (is_type_byte x)) bs) && leb (length bs) 254)

unfoldable pub endpoint_name : Bytes → Result (Unit {0})
endpoint_name v =
    let t = trim_space v in
    if is_empty t || ltb 255 (length t)
    then err (Error.invalid "name must be between 1 and 255 characters")
    else ok tt

-- What ParseRequestURI yields of a URL.
pub record Url : Type 0 where
  pub scheme : Bytes
  pub host : Bytes
  pub has_user : Bool

-- strings.ContainsAny of "\\\r\n\t"
abbrev pub is_bad_in_host : ℕ → Bool
is_bad_in_host b = (b == 92) || ((b == 13) || ((b == 10) || (b == 9)))

unfoldable pub parsed_url : Bool → Option Url → Result (Unit {0})
parsed_url allow_http none = err (Error.invalid "invalid webhook URL")
parsed_url allow_http (some u) =
    if is_empty u.scheme || is_empty u.host
    then err (Error.invalid "invalid webhook URL")
    else if u.has_user
    then err (Error.invalid "webhook URL must not contain userinfo")
    else if not (bytes_eq u.scheme (bytes "https"))
        && not (allow_http && bytes_eq u.scheme (bytes "http"))
    then err (Error.invalid "webhook URL must use https")
    else if exists is_bad_in_host u.host
    then err (Error.invalid "invalid webhook host")
    else ok tt

unfoldable pub webhook_url : (Bytes → Option Url) → Bytes → Bool → Result (Unit {0})
webhook_url parse raw allow_http = parsed_url allow_http (parse raw)

-- The loop of EventTypes; `out` is the slice, whose elements are the keys of `seen`.
unfoldable pub collect : List Bytes → List Bytes → Result (List Bytes)
unfolding trim_space matches_event_type
collect out [] = ok out
collect out (raw ∷ rest) =
    let v = trim_space raw in
    let collected = collect (if exists (bytes_eq v) out then out else out ++ v ∷ []) rest in
    if matches_event_type v then collected else err (Error.invalid "invalid event type")

unfoldable pub event_types : List Bytes → Result (List Bytes)
unfolding collect
event_types [] = err (Error.invalid "at least one event type is required")
event_types (t ∷ ts) = collect [] (t ∷ ts)

unfoldable pub timeout : ℕ → Result (Unit {0})
timeout ms =
    if ltb ms 100 || ltb 120_000 ms
    then err (Error.invalid "timeout must be between 100 and 120000 ms")
    else ok tt
