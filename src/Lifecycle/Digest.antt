-- ===== src/Lifecycle/Digest.antt =====
-- `compute_digest` of src/domain/definition/digest.rs: the canonical document of a definition
-- version, its JSON value and the digest.
use Prim.Native.String.{compare}
use text.Mathlib.Text.{is_le}
use svc_workflow_kernel.Prelude.{
  ℕ, ℤ, pos, negsuc, ◌-◌, Option, none, some, Bool, String, str_append, List, [], ◌∷◌, map, get,
}
use svc_workflow_kernel.Prelude.Result.{ok, err, and_then}
use svc_workflow_kernel.Platform.{Platform}
use svc_workflow_kernel.Enums.{effect_text}
use svc_workflow_kernel.Enums.Texts.{node_type_text, assignee_text}
use svc_workflow_kernel.Definition.Model.{Uuid}
use svc_workflow_kernel.Store.{I32}
use svc_workflow_kernel.Lifecycle.Error.{digest_failure}
use svc_workflow_kernel.Lifecycle.Rows.{
  NodeDefinitionRow, TransitionDefinitionRow, LifecycleResult, sort_by, assignee_of,
}

pub record CanonicalNode (V : Type 0) : Type 0 where
  pub node_key : String
  pub display_name : String
  pub order_index : ℤ
  pub node_type : String
  pub assignee_ref_type : Option String
  pub fixed_principal_id : Option String
  pub instructions : Option String
  pub primary_advance_transition_key : Option String
  pub metadata : Option V

pub record CanonicalTransition (V : Type 0) : Type 0 where
  pub transition_key : String
  pub display_name : String
  pub source_node_key : String
  pub target_node_key : String
  pub transition_effect : String
  pub submission_schema : Option V
  pub metadata : Option V

pub record CanonicalDefinitionDocument (V : Type 0) : Type 0 where
  pub definition_key : String
  pub version_number : I32
  pub json_schema_dialect : Option String
  pub validator_version : Option String
  pub context_schema : Option V
  pub nodes : List (CanonicalNode V)
  pub transitions : List (CanonicalTransition V)

-- `option.map(f)`
abbrev pub option_map {ℓ κ} : {A : Type ℓ} {B : Type κ} → (A → B) → Option A → Option B
option_map f none = none
option_map f (some a) = some (f a)

-- `unwrap_or_default()` of an optional text
abbrev pub or_empty : Option String → String
or_empty none = ""
or_empty (some s) = s

-- `a.cmp(&b)` is not `Greater`.
abbrev pub key_le : String → String → Bool
key_le a b = is_le (compare a b)

-- The bit pattern of an `i32`.
abbrev pub i32_bits : ℤ → ℕ
i32_bits (pos n) = n
i32_bits (negsuc n) = 4294967295 - n

module _ (P : Platform) where
  open P use {Value, null, text, number, object, array, uuid_text}

  unfoldable pub canonical_node :
      List (Uuid × String) → NodeDefinitionRow Value → CanonicalNode Value
  canonical_node transition_key_by_id n =
      let assignee = assignee_of n.assignee_ref_type n.fixed_principal_id in
      record {
        node_key = n.node_key;
        display_name = n.display_name;
        order_index = n.order_index;
        node_type = node_type_text n.node_type;
        assignee_ref_type = option_map (λ reference. assignee_text (reference.ref_type)) assignee;
        fixed_principal_id =
            option_map uuid_text (and_then assignee (λ reference. reference.fixed_principal_id));
        instructions = n.instructions;
        primary_advance_transition_key =
            and_then n.primary_advance_transition_id (get transition_key_by_id);
        metadata = n.metadata;
      }

  unfoldable pub canonical_transition :
      List (Uuid × String) → TransitionDefinitionRow Value → CanonicalTransition Value
  canonical_transition node_key_by_id t = record {
    transition_key = t.transition_key;
    display_name = t.display_name;
    source_node_key = or_empty (get node_key_by_id t.source_node_id);
    target_node_key = or_empty (get node_key_by_id t.target_node_id);
    transition_effect = effect_text t.transition_effect;
    submission_schema = t.submission_schema;
    metadata = t.metadata;
  }

  abbrev opt : Option Value → Value
  opt none = null
  opt (some v) = v

  abbrev opt_text : Option String → Value
  opt_text s = opt (option_map text s)

  -- `#[derive(Serialize)]` of the three structs
  unfoldable pub node_json : CanonicalNode Value → Value
  node_json n = object (
      ("node_key", text n.node_key)
      ∷ ("display_name", text n.display_name)
      ∷ ("order_index", number (i32_bits n.order_index))
      ∷ ("node_type", text n.node_type)
      ∷ ("assignee_ref_type", opt_text n.assignee_ref_type)
      ∷ ("fixed_principal_id", opt_text n.fixed_principal_id)
      ∷ ("instructions", opt_text n.instructions)
      ∷ ("primary_advance_transition_key", opt_text n.primary_advance_transition_key)
      ∷ ("metadata", opt n.metadata)
      ∷ [])

  unfoldable pub transition_json : CanonicalTransition Value → Value
  transition_json t = object (
      ("transition_key", text t.transition_key)
      ∷ ("display_name", text t.display_name)
      ∷ ("source_node_key", text t.source_node_key)
      ∷ ("target_node_key", text t.target_node_key)
      ∷ ("transition_effect", text t.transition_effect)
      ∷ ("submission_schema", opt t.submission_schema)
      ∷ ("metadata", opt t.metadata)
      ∷ [])

  unfoldable pub document_json : CanonicalDefinitionDocument Value → Value
  document_json d = object (
      ("definition_key", text d.definition_key)
      ∷ ("version_number", number d.version_number)
      ∷ ("json_schema_dialect", opt_text d.json_schema_dialect)
      ∷ ("validator_version", opt_text d.validator_version)
      ∷ ("context_schema", opt d.context_schema)
      ∷ ("nodes", array (map node_json d.nodes))
      ∷ ("transitions", array (map transition_json d.transitions))
      ∷ [])

  unfoldable pub canonical_document :
      String
      → I32
      → Option String
      → Option String
      → Option Value
      → List (NodeDefinitionRow Value)
      → List (TransitionDefinitionRow Value)
      → List (Uuid × String)
      → List (Uuid × String)
      → CanonicalDefinitionDocument Value
  canonical_document key number dialect validator schema ns ts node_key_by_id transition_key_by_id =
      record {
        definition_key = key;
        version_number = number;
        json_schema_dialect = dialect;
        validator_version = validator;
        context_schema = schema;
        nodes =
            sort_by (λ a b. key_le a.node_key b.node_key)
              (map (canonical_node transition_key_by_id) ns);
        transitions =
            sort_by (λ a b. key_le a.transition_key b.transition_key)
              (map (canonical_transition node_key_by_id) ts);
      }

  unfoldable pub compute_digest :
      String
      → I32
      → Option String
      → Option String
      → Option Value
      → List (NodeDefinitionRow Value)
      → List (TransitionDefinitionRow Value)
      → List (Uuid × String)
      → List (Uuid × String)
      → LifecycleResult String
  compute_digest key number dialect validator schema ns ts node_key_by_id transition_key_by_id =
      let doc =
        canonical_document key number dialect validator schema ns ts node_key_by_id
          transition_key_by_id in
      elim (P.sha256_jcs_hex (document_json doc)) [
        | ok digest ↦ ok digest
        | err e ↦ err (digest_failure (str_append "JCS canonicalization failed: " e))
      ]

  -- `nodes.iter().map(|n| (n.node_id, n.node_key.clone())).collect()`
  abbrev pub node_keys : List (NodeDefinitionRow Value) → List (Uuid × String)
  node_keys = map (λ n. (n.node_id, n.node_key))

  abbrev pub transition_keys : List (TransitionDefinitionRow Value) → List (Uuid × String)
  transition_keys = map (λ t. (t.transition_id, t.transition_key))
