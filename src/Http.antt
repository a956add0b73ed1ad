-- ===== src/Http.antt =====
-- What the handlers of the services (internal/httpapi) see of a request and what they answer. The
-- mux has chosen the handler and has cut out the values of the path; the JSON text of a response is
-- not modelled, its content is.
use hookyard.Base.{ℕ, Bytes, Option, none, some}
use hookyard.Base.Session.{Error, Result, ok, err, Session, M}

-- A header, path value or parameter of the query that is missing is the empty text.
pub record Request : Type 0 where
  pub header : Bytes → Bytes
  pub path : Bytes
  pub path_value : Bytes → Bytes
  pub parameter : Bytes → Bytes
  pub body : Bytes

-- The text of an error response: fixed, or that of an error.
pub data Message : Type 0 where
  fixed : Bytes → Message
  text_of : Error → Message

pub data Response (A : Type 0) : Type 0 where
  failed : ℕ → Message → Response A
  answered : ℕ → A → Response A
  no_content : Response A

-- A handler writes one response and has no error of its own.
abbrev pub Handler : Type 0 → Type 0 → Type 0
Handler D A = Session D → Response A × Session D

module _ {D A : Type 0} where
  abbrev pub respond : Response A → Handler D A
  respond r s = (r, s)

  -- `if err != nil { writeError(…); return }` after a parser.
  abbrev pub given : {B : Type 0} → Option B → Response A → (B → Handler D A) → Handler D A
  given none refusal rest = respond refusal
  given (some b) refusal rest = rest b

  abbrev pub reply :
      {B : Type 0}
      → (Error → Response A)
      → (B → Response A)
      → Result B × Session D
      → Response A × Session D
  reply bad good (ok b, s) = (good b, s)
  reply bad good (err e, s) = (bad e, s)

  -- A call of the service, with the responses to its error and to its result.
  abbrev pub calls : {B : Type 0} → M D B → (Error → Response A) → (B → Response A) → Handler D A
  calls m bad good s = reply bad good (m s)
