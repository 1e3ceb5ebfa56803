-- ===== src/Lifecycle/Schemas.antt =====
-- The JSON Schemas of a definition: `validate_json_schema` and `check_external_refs` of
-- src/application/definition/lifecycle/validation.rs.
use text.Mathlib.Text.{starts_with}
use svc_workflow_kernel.Prelude.{
  ◌≡◌, ◌↔◌, inl, inr, refl, Option, none, some, true, not, String, str_append, str_eq, List, [],
  ◌∷◌, if◌then◌else◌, Bool-cases, subst, All,
}
use svc_workflow_kernel.Prelude.Result.{Result, ok, err_if, ◌>>◌, question-ok}

-- `serde_json::Value`, as a match sees it; a number and a Boolean are not looked into.
mutual
  pub data JsonValue : Type 0 where
    scalar : JsonValue
    string : String → JsonValue
    array : JsonItems → JsonValue
    object : JsonFields → JsonValue

  pub data JsonItems : Type 0 where
    empty_array : JsonItems
    item : JsonValue → JsonItems → JsonItems

  pub data JsonFields : Type 0 where
    empty_map : JsonFields
    field : String → JsonValue → JsonFields → JsonFields

-- `map.get(key)`; the keys of a map differ.
abbrev pub get_field : JsonFields → String → Option JsonValue
get_field empty_map _ = none
get_field (field k v rest) key =
    let later = get_field rest key in if str_eq k key then some v else later

-- `value.as_str()`
abbrev pub as_string : Option JsonValue → Option String
as_string (some (string s)) = some s
as_string _ = none

abbrev pub ref_keys : List String
ref_keys = "$ref" ∷ "$dynamicRef" ∷ "$recursiveRef" ∷ []

abbrev external : String → String → String
external key s = str_append "external " (
    str_append key (
      str_append " '"
        (str_append s "' is not allowed; only local fragment refs (#/...) are permitted")))

check_text : String → Option String → Result String (Unit {0})
check_text key none = ok tt
check_text key (some s) = err_if (not (starts_with s "#")) (external key s)

-- The loop over the three keys of an object.
unfoldable pub check_keys : JsonFields → List String → Result String (Unit {0})
unfolding check_text
check_keys fields [] = ok tt
check_keys fields (key ∷ keys) =
    check_text key (as_string (get_field fields key)) >> check_keys fields keys

unfoldable mutual
  pub check_external_refs : JsonValue → Result String (Unit {0})
  check_external_refs scalar = ok tt
  check_external_refs (string s) = ok tt
  check_external_refs (array items) = check_items items
  check_external_refs (object fields) = check_keys fields ref_keys >> check_fields fields

  pub check_items : JsonItems → Result String (Unit {0})
  check_items empty_array = ok tt
  check_items (item v rest) = check_external_refs v >> check_items rest

  pub check_fields : JsonFields → Result String (Unit {0})
  check_fields empty_map = ok tt
  check_fields (field k v rest) = check_external_refs v >> check_fields rest

-- The object with these fields occurs in a value, in one of the items, in one of the fields.
mutual
  pub data OccursIn (o : JsonFields) : JsonValue → Type 0 where
    here : OccursIn o (object o)
    in_array : {items : JsonItems} → OccursInItems o items → OccursIn o (array items)
    in_object : {fields : JsonFields} → OccursInFields o fields → OccursIn o (object fields)

  pub data OccursInItems (o : JsonFields) : JsonItems → Type 0 where
    this_item : {v : JsonValue} {rest : JsonItems} → OccursIn o v → OccursInItems o (item v rest)
    later_item :
        {v : JsonValue} {rest : JsonItems} → OccursInItems o rest → OccursInItems o (item v rest)

  pub data OccursInFields (o : JsonFields) : JsonFields → Type 0 where
    this_field :
        {k : String} {v : JsonValue} {rest : JsonFields}
        → OccursIn o v
        → OccursInFields o (field k v rest)
    later_field :
        {k : String} {v : JsonValue} {rest : JsonFields}
        → OccursInFields o rest
        → OccursInFields o (field k v rest)

-- The references of an object lead to places in the same document.
abbrev pub HasLocalRefs : JsonFields → Type 0
HasLocalRefs fields =
    All (λ key. (s : String) → as_string (get_field fields key) ≡ some s → starts_with s "#" ≡ true)
      ref_keys

check_text-local :
    (key : String) (text : Option String)
    → (check_text key text ≡ ok tt) ↔ ((s : String) → text ≡ some s → starts_with s "#" ≡ true)
unfolding check_text
check_text-local key none = (λ h s found. cc, λ all. refl)
check_text-local key (some s) = elim (Bool-cases (starts_with s "#")) [
  | inl local ↦
      rw local (λ h t found. subst (λ x. starts_with x "#" ≡ true) (cc) local, λ all. refl)
  | inr away ↦ rw away (λ h. cc, λ all. cc (all s refl))
]

check_keys-All :
    (fields : JsonFields) (keys : List String)
    → (check_keys fields keys ≡ ok tt)
      ↔ All
          (λ key.
            (s : String) → as_string (get_field fields key) ≡ some s → starts_with s "#" ≡ true)
          keys
unfolding check_keys
check_keys-All fields [] = (λ h. tt, λ h. refl)
check_keys-All fields (key ∷ keys) =
    let rest = check_keys-All fields keys in
    let first = check_text-local key (as_string (get_field fields key)) in
    (
      λ h.
          let (_, one, others) =
            question-ok (check_text key (as_string (get_field fields key))) _ h in
          (first.0 one, rest.0 others),
      λ h. rw (first.1 h.0) (rest.1 h.1),
    )

mutual
  unfolding check_external_refs

  OccursIn-HasLocalRefs :
      {o : JsonFields} {v : JsonValue}
      → OccursIn o v
      → check_external_refs v ≡ ok tt
      → HasLocalRefs o
  OccursIn-HasLocalRefs {o} here h =
      let (_, keys, _) = question-ok (check_keys o ref_keys) _ h in
      (check_keys-All o ref_keys).0 keys
  OccursIn-HasLocalRefs (in_array occurs) h = Items-HasLocalRefs occurs h
  OccursIn-HasLocalRefs (in_object {fields} occurs) h =
      let (_, _, rest) = question-ok (check_keys fields ref_keys) _ h in
      Fields-HasLocalRefs occurs rest

  Items-HasLocalRefs :
      {o : JsonFields} {items : JsonItems}
      → OccursInItems o items
      → check_items items ≡ ok tt
      → HasLocalRefs o
  Items-HasLocalRefs (this_item {v} occurs) h =
      let (_, first, _) = question-ok (check_external_refs v) _ h in
      OccursIn-HasLocalRefs occurs first
  Items-HasLocalRefs (later_item {v} occurs) h =
      let (_, _, rest) = question-ok (check_external_refs v) _ h in Items-HasLocalRefs occurs rest

  Fields-HasLocalRefs :
      {o : JsonFields} {fields : JsonFields}
      → OccursInFields o fields
      → check_fields fields ≡ ok tt
      → HasLocalRefs o
  Fields-HasLocalRefs (this_field {k} {v} occurs) h =
      let (_, first, _) = question-ok (check_external_refs v) _ h in
      OccursIn-HasLocalRefs occurs first
  Fields-HasLocalRefs (later_field {k} {v} occurs) h =
      let (_, _, rest) = question-ok (check_external_refs v) _ h in Fields-HasLocalRefs occurs rest

mutual
  unfolding check_external_refs

  HasLocalRefs-check :
      (v : JsonValue)
      → ((o : JsonFields) → OccursIn o v → HasLocalRefs o)
      → check_external_refs v ≡ ok tt
  HasLocalRefs-check scalar all = refl
  HasLocalRefs-check (string s) all = refl
  HasLocalRefs-check (array items) all =
      HasLocalRefs-items items (λ o occurs. all o (in_array occurs))
  HasLocalRefs-check (object fields) all =
      rw ((check_keys-All fields ref_keys).1 (all fields here))
        (HasLocalRefs-fields fields (λ o occurs. all o (in_object occurs)))

  HasLocalRefs-items :
      (items : JsonItems)
      → ((o : JsonFields) → OccursInItems o items → HasLocalRefs o)
      → check_items items ≡ ok tt
  HasLocalRefs-items empty_array all = refl
  HasLocalRefs-items (item v rest) all =
      rw (HasLocalRefs-check v (λ o occurs. all o (this_item occurs)))
        (HasLocalRefs-items rest (λ o occurs. all o (later_item occurs)))

  HasLocalRefs-fields :
      (fields : JsonFields)
      → ((o : JsonFields) → OccursInFields o fields → HasLocalRefs o)
      → check_fields fields ≡ ok tt
  HasLocalRefs-fields empty_map all = refl
  HasLocalRefs-fields (field k v rest) all =
      rw (HasLocalRefs-check v (λ o occurs. all o (this_field occurs)))
        (HasLocalRefs-fields rest (λ o occurs. all o (later_field occurs)))

-- The check accepts a schema exactly when every reference in every object inside it, at whatever
-- depth, begins with `#`.
pub check_external_refs-HasLocalRefs :
    (v : JsonValue)
    → (check_external_refs v ≡ ok tt) ↔ ((o : JsonFields) → OccursIn o v → HasLocalRefs o)
check_external_refs-HasLocalRefs v =
    (λ h o occurs. OccursIn-HasLocalRefs occurs h, λ all. HasLocalRefs-check v all)
