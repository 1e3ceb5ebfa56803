-- ===== src/Lifecycle/Error.antt =====
-- `DefinitionError` of src/domain/definition/error.rs and `map_db_error` of error_mapping.rs.
use svc_workflow_kernel.Prelude.{
  Option, some, Bool, String, str_nil, str_cons, List, str_eq, if◌then◌else◌, ◌||◌,
}
use text.Mathlib.Text.{starts_with}
use svc_workflow_kernel.Definition.Model.{GraphValidationError}

pub data DefinitionError : Type 0 where
  principal_not_found principal_disabled domain_not_found domain_disabled : DefinitionError
  permission_denied definition_not_found definition_version_not_found : DefinitionError
  definition_key_conflict version_not_draft invalid_lifecycle_transition : DefinitionError
  graph_validation_failed : List GraphValidationError → DefinitionError
  schema_validation_failed fixed_principal_invalid digest_failure : String → DefinitionError
  concurrent_modification storage_error : String → DefinitionError

-- `sqlx::Error`: the code and the message of an `Error::Database`, and the text of every error.
pub record SqlxError : Type 0 where
  pub database : Option (Option String × String)
  pub text : String

-- `msg.contains(part)`
abbrev pub str_contains : String → String → Bool
str_contains str_nil part = str_eq part ""
str_contains (str_cons c s) part =
    let rest = str_contains s part in starts_with (str_cons c s) part || rest

abbrev trigger_error : String → DefinitionError → DefinitionError
trigger_error message otherwise =
    if str_contains message "graph_immutable:"
    then version_not_draft
    else if str_contains message "status_transition:"
    then invalid_lifecycle_transition
    else otherwise

abbrev unique_error : String → DefinitionError → DefinitionError
unique_error message otherwise =
    if str_contains message "definition_key"
    then definition_key_conflict
    else if str_contains message "version_number"
    then concurrent_modification "duplicate version number"
    else trigger_error message otherwise

unfoldable pub map_db_error : SqlxError → DefinitionError
map_db_error e = elim (e.database) [
  | some (some code, message) ↦
      if str_eq code "23505"
      then unique_error message (storage_error e.text)
      else trigger_error message (storage_error e.text)
  | _ ↦ storage_error e.text
]
