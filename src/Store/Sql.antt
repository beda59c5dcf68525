-- ===== src/Store/Sql.antt =====
-- What the projections share: NULL for a zero value, the decoding of a payload, and the checks of
-- the schema's references (internal/store/projection.go, internal/store/schema.go).
use proceed.Base.{
  ℕ, String, Bool, ◌||◌, Option, none, some, str_eq, is_empty, ◌==◌, if◌then◌else◌, Result,
  graph_invalid, foreign_key, require, from_option, any_where,
}
use proceed.Store.Types.{Db}

-- nullableOr and nullableInt: the zero value is stored as NULL
abbrev pub nullable_or : String → Option String
nullable_or v = if is_empty v then none else some v

abbrev pub nullable_int : ℕ → Option ℕ
nullable_int v = if v == 0 then none else some v

-- rawOr
abbrev pub raw_or : String → String → String
raw_or v def = if is_empty v then def else v

-- decodePayload: a payload that does not decode is GRAPH_INVALID
abbrev pub decode_payload {ℓ} : {A : Type ℓ} → Option A → Result A
decode_payload = from_option graph_invalid

-- A reference is checked by the statement, or left to the commit.
abbrev pub require_fk : Db → Bool → Result (Unit {0})
require_fk db found = require (db.defer_fks || found) foreign_key

abbrev pub has_run : Db → String → Bool
has_run db id = any_where (λ r. str_eq r.id id) db.runs

abbrev pub has_node : Db → String → Bool
has_node db id = any_where (λ n. str_eq n.id id) db.nodes
