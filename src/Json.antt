-- ===== src/Json.antt =====
-- JSON values as encoding/json reads and writes them in the messages between the services. An object
-- is the list of its fields in the order in which they are written.
use hookyard.Base.{Bytes, bytes_eq, Option, none, some, if◌then◌else◌}

mutual
  pub data Json : Type 0 where
    null : Json
    text : Bytes → Json
    object : Fields → Json

  pub data Fields : Type 0 where
    end : Fields
    field : Bytes → Json → Fields → Fields

-- The value of a key; a later field of the same key wins, as in json.Unmarshal.
unfoldable pub lookup : Bytes → Fields → Option Json
lookup key end = none
lookup key (field k v rest) =
    let later = lookup key rest in
    elim later [ some w ↦ some w | none ↦ if bytes_eq k key then some v else none ]
