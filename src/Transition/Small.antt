-- ===== src/Transition/Small.antt =====
-- A small database for the transition transaction: a two-step definition with its instance at the
-- first node, and JSON values whose objects are tables of their fields and where an identifier's text
-- is a mark for each unit.
use text.Mathlib.TextLemmas.{length-cons}
use svc_workflow_kernel.Prelude.{
  ℕ, zero, suc, is_some, if◌then◌else◌, ◌≡◌, refl, ap, ◌∙◌, pos, Option, none, some, Bool, true,
  false, String, str_cons, str_nil, count, List, [], ◌∷◌, map,
}
use svc_workflow_kernel.Prelude.Result.{Result, ok}
use svc_workflow_kernel.Platform.{Platform, ReadsBack, field_of}
use svc_workflow_kernel.Enums.{normal, terminal, published, workflow_creator, advance}
use svc_workflow_kernel.Store.{NodeRow, Db, Faults, commit}
use svc_workflow_kernel.Transition.Error.{ExecuteWorkflowTransitionError}
use svc_workflow_kernel.Transition.Command.{
  ExecuteWorkflowTransitionCommand, FreshIds, TransitionResult, TransitionOutcome,
}
use svc_workflow_kernel.Transition.Execute.{execute_workflow_transition_atomically}

pub data Json : Type 0 where
  null_json : Json
  text_json : String → Json
  number_json : ℕ → Json
  -- the keys, whether a field is there, and its value
  object_json : List String → (String → Bool) → (String → Json) → Json

abbrev pub json_get : Json → String → Option Json
json_get (object_json keys present value) key = if present key then some (value key) else none
json_get _ key = none

abbrev pub field_value : Option Json → Json
field_value none = null_json
field_value (some v) = v

abbrev pub json_str : Json → Option String
json_str (text_json s) = some s
json_str _ = none

abbrev pub json_number : Json → Option ℕ
json_number (number_json n) = some n
json_number _ = none

abbrev pub json_keys : Json → Option (List String)
json_keys (object_json keys present value) = some keys
json_keys _ = none

abbrev pub json_is_null : Json → Bool
json_is_null null_json = true
json_is_null _ = false

abbrev pub marks : ℕ → String
marks zero = str_nil
marks (suc n) = str_cons "x" (marks n)

count-marks : (n : ℕ) → count (marks n) ≡ n
count-marks zero = refl
count-marks (suc n) = length-cons "x" (marks n) ∙ ap suc (count-marks n)

abbrev pub small_platform : Platform
small_platform = record {
  Value = Json;
  null = null_json;
  text = text_json;
  number = number_json;
  object = λ fields.
      object_json (map (λ f. f.0) fields) (λ key. is_some (field_of key fields))
        (λ key. field_value (field_of key fields));
  array = λ vs. null_json;
  get = json_get;
  as_str = json_str;
  as_i32 = json_number;
  as_array = λ v. none;
  object_keys = json_keys;
  is_null = json_is_null;
  to_vec_len = λ v. ok 0;
  validator_for = λ schema. none;
  validate = λ schema v. none;
  sha256_jcs_hex = λ v. ok "digest";
  uuid_text = marks;
  parse_uuid = λ s. some (count s);
  trim = λ s. s;
  any_control = λ s. false;
  is_utc_time = λ s. true;
}

get-field_value : (o : Option Json) → (if is_some o then some (field_value o) else none) ≡ o
get-field_value none = refl
get-field_value (some v) = refl

pub small_platform-ReadsBack : ReadsBack small_platform
small_platform-ReadsBack = record {
  get_object = λ fields key. get-field_value (field_of key fields);
  as_str_text = λ s. refl;
  as_str_null = refl;
  as_i32_number = λ n small. refl;
  parse_uuid_text = λ id. ap some (count-marks id);
}

-- Every statement succeeds.
abbrev pub no_fault : Faults
no_fault = λ s. none

-- The commit fails.
abbrev pub lost_commit : Faults
lost_commit commit = some "connection lost"
lost_commit _ = none

abbrev pub first_node : NodeRow
first_node = record {
  node_id = 10;
  definition_version_id = 3;
  node_type = normal;
  primary_advance_transition_id = some 20;
  order_index = pos 1;
  assignee_ref_type = some workflow_creator;
  fixed_principal_id = none;
}

abbrev pub last_node : NodeRow
last_node = record first_node {
  node_id = 11;
  node_type = terminal;
  primary_advance_transition_id = none;
  order_index = pos 2;
  assignee_ref_type = none;
}

abbrev pub small_db : Db Json
small_db = record {
  principals = record { principal_id = 1; enabled = true } ∷ [];
  role_bindings = [];
  versions = record { definition_version_id = 3; version_status = published } ∷ [];
  nodes = first_node ∷ last_node ∷ [];
  transitions =
      record {
        transition_id = 20;
        transition_key = "finish";
        definition_version_id = 3;
        source_node_id = 10;
        target_node_id = 11;
        transition_effect = advance;
        submission_schema = none;
      }
      ∷ [];
  instances =
      record {
        workflow_instance_id = 5;
        domain_id = 2;
        created_by_principal_id = 1;
        definition_version_id = 3;
        current_context_revision_id = 6;
        current_node_visit_id = 7;
        workflow_state_version = 1;
      }
      ∷ [];
  visits =
      record {
        node_visit_id = 7;
        workflow_instance_id = 5;
        node_id = 10;
        visit_number = 1;
        assignee_principal_id = some 1;
        entered_by_transition_id = none;
      }
      ∷ [];
  submissions = [];
  events = [];
  receipts = [];
  audits = [];
}

abbrev pub finish : ExecuteWorkflowTransitionCommand Json
finish = record {
  principal_id = 1;
  idempotency_key = "key";
  command_schema_version = "v1";
  workflow_instance_id = 5;
  expected_workflow_state_version = 1;
  transition_definition_id = 20;
  submission_payload = none;
}

abbrev pub small_ids : FreshIds
small_ids = record {
  command_id = 30;
  new_node_visit_id = 31;
  event_id = 32;
  submission_id = 33;
  audit_id = 34;
}

abbrev pub run : Faults → Result ExecuteWorkflowTransitionError (TransitionOutcome Json) × Db Json
run fault =
    execute_workflow_transition_atomically small_platform fault small_db small_ids finish "hash"

abbrev pub finished : TransitionResult
finished = record {
  workflow_instance_id = 5;
  workflow_state_version = 2;
  current_context_revision_id = 6;
  source_node_visit_id = 7;
  current_node_visit_id = 31;
  submission_id = none;
  event_sequence = 2;
}
