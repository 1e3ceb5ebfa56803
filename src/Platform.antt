-- ===== src/Platform.antt =====
-- What the program takes from other crates: JSON values (serde_json), JSON Schema validation
-- (jsonschema), canonical digests (jcs_canonicalize) UUID texts (uuid),
-- times (chrono), and what Rust's library says of Unicode characters.
use svc_workflow_kernel.Prelude.{
  ℕ, ◌<◌, ◌≡◌, Bool, Option, none, some, String, List, [], ◌∷◌, str_eq, if◌then◌else◌,
}
use svc_workflow_kernel.Prelude.Result.{Result}

pub record Platform : Type 1 where
  pub Value : Type 0
  -- `json!(null)`, `json!("…")`, `json!(n)` for an `i32` given as its bit pattern, `json!({…})`,
  -- `json!([…])`
  pub null : Value
  pub text : String → Value
  pub number : ℕ → Value
  pub object : List (String × Value) → Value
  pub array : List Value → Value
  -- `value.get(key)`, `as_str()`, `as_i64()` cast to `i32`, `as_array()`, the keys of `as_object()`
  pub get : Value → String → Option Value
  pub as_str : Value → Option String
  pub as_i32 : Value → Option ℕ
  pub as_array : Value → Option (List Value)
  pub object_keys : Value → Option (List String)
  pub is_null : Value → Bool
  -- the length of `serde_json::to_vec(value)`, or its error's text
  pub to_vec_len : Value → Result String ℕ
  -- the error's text of `jsonschema::validator_for(schema)` and of `validate(payload)`, if any
  pub validator_for : Value → Option String
  pub validate : Value → Value → Option String
  -- `jcs_canonicalize::sha256_jcs_hex(value)`
  pub sha256_jcs_hex : Value → Result String String
  -- `Uuid::to_string` and `Uuid::parse_str(…).ok()`
  pub uuid_text : ℕ → String
  pub parse_uuid : String → Option ℕ
  -- `str::trim`, `chars().any(char::is_control)`, and whether chrono parses a text as
  -- `%Y-%m-%dT%H:%M:%SZ` and formats the time as the same text
  pub trim : String → String
  pub any_control : String → Bool
  pub is_utc_time : String → Bool

-- The field of a JSON object that is built from these pairs: of a repeated key, the last.
abbrev pub field_of {ℓ} : {V : Type ℓ} → String → List (String × V) → Option V
field_of key [] = none
field_of key ((k, v) ∷ fields) = elim (field_of key fields) [
  | some w ↦ some w
  | none ↦ if str_eq k key then some v else none
]

-- The documented behaviour that the receipts rely on: what `json!` builds, the accessors give back.
pub record ReadsBack (P : Platform) : Type 0 where
  pub get_object :
      (fields : List (String × P.Value)) (key : String)
      → P.get (P.object fields) key ≡ field_of key fields
  pub as_str_text : (s : String) → P.as_str (P.text s) ≡ some s
  pub as_str_null : P.as_str P.null ≡ none
  pub as_i32_number : (n : ℕ) → n < 4294967296 → P.as_i32 (P.number n) ≡ some n
  pub parse_uuid_text : (id : ℕ) → P.parse_uuid (P.uuid_text id) ≡ some id

-- `value[key]`: `null` where there is no such field.
abbrev pub index : (P : Platform) → P.Value → String → P.Value
index P v key = elim (P.get v key) [ none ↦ P.null | some x ↦ x ]
