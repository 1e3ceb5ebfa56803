-- ===== src/Enums.antt =====
-- The enumerations of src/domain/enums.rs; the order of the constructors is the source's.
pub mod Texts
use svc_workflow_kernel.Prelude.{String, Bool, true, false}

pub data DefinitionVersionStatus : Type 0 where
  draft published deprecated revoked : DefinitionVersionStatus

pub data NodeType : Type 0 where
  draft normal terminal : NodeType

pub data AssigneeRefType : Type 0 where
  workflow_creator domain_owner fixed_principal : AssigneeRefType

pub data TransitionEffect : Type 0 where
  advance return terminate : TransitionEffect

pub data ReceiptStatus : Type 0 where
  processing completed : ReceiptStatus

pub data PrincipalType : Type 0 where
  human agent service : PrincipalType

-- `t == NodeType::DRAFT`
abbrev pub is_draft : NodeType → Bool
is_draft NodeType.draft = true
is_draft _ = false

-- `t == NodeType::TERMINAL`
abbrev pub is_terminal : NodeType → Bool
is_terminal terminal = true
is_terminal _ = false

-- `Display` of `TransitionEffect`, the text of its column.
unfoldable pub effect_text : TransitionEffect → String
effect_text advance = "ADVANCE"
effect_text return = "RETURN"
effect_text terminate = "TERMINATE"
