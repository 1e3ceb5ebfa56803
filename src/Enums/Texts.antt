-- ===== src/Enums/Texts.antt =====
-- `Display` and `FromStr` of the enumerations of src/domain/enums.rs, as the macro `make_enum` makes
-- them: one text for each variant, and a match on the texts in the order of the variants.
use svc_workflow_kernel.Prelude.{
  String, List, [], ◌∷◌, ◌≡◌, ◌↔◌, refl, subst, arith, inl, inr, some, str_eq, str_eq_iff,
  Bool-cases, sym, find?,
}
use svc_workflow_kernel.Prelude.Result.{Result, ok, ok_or}
use svc_workflow_kernel.Enums.{
  DefinitionVersionStatus, NodeType, AssigneeRefType, TransitionEffect, ReceiptStatus,
  PrincipalType, published, deprecated, revoked, normal, terminal, workflow_creator, domain_owner,
  fixed_principal, advance, return, terminate, effect_text, processing, completed, human, agent,
  service,
}

pub record UnknownEnumVariant : Type 0 where
  pub enum_name : String
  pub value : String

-- What `make_enum` is given: the name, the variants and the text of each.
pub record MakeEnum : Type 1 where
  pub Variant : Type 0
  pub name : String
  pub variants : List Variant
  pub display : Variant → String

module _ (E : MakeEnum) where
  -- `match s { $($db => Ok(Self::$variant)),+, _ => Err(…) }`
  unfoldable pub from_str : String → Result UnknownEnumVariant (E.Variant)
  from_str s =
      ok_or (find? (λ v. str_eq (E.display v) s) E.variants)
        (record { enum_name = E.name; value = s })

  find-display :
      (s : String) (variants : List E.Variant) {v : E.Variant}
      → find? (λ v. str_eq (E.display v) s) variants ≡ some v
      → E.display v ≡ s
  find-display s [] h = cc
  find-display s (w ∷ rest) {v} h = elim (Bool-cases (str_eq (E.display w) s)) [
    | inl e ↦ subst (λ x. E.display x ≡ s) (cc (rw e at h)) ((str_eq_iff (E.display w) s).0 e)
    | inr e ↦ find-display s rest (rw e at h)
  ]

  -- What is parsed displays as the text that was parsed.
  pub from_str-display : (s : String) {v : E.Variant} → from_str s ≡ ok v → E.display v ≡ s
  unfolding from_str
  from_str-display s {v} h = find-display s E.variants (ground arith)

abbrev pub status_text : DefinitionVersionStatus → String
status_text DefinitionVersionStatus.draft = "DRAFT"
status_text published = "PUBLISHED"
status_text deprecated = "DEPRECATED"
status_text revoked = "REVOKED"

abbrev pub node_type_text : NodeType → String
node_type_text NodeType.draft = "DRAFT"
node_type_text normal = "NORMAL"
node_type_text terminal = "TERMINAL"

abbrev pub assignee_text : AssigneeRefType → String
assignee_text workflow_creator = "WORKFLOW_CREATOR"
assignee_text domain_owner = "DOMAIN_OWNER"
assignee_text fixed_principal = "FIXED_PRINCIPAL"

abbrev pub receipt_text : ReceiptStatus → String
receipt_text processing = "PROCESSING"
receipt_text completed = "COMPLETED"

abbrev pub principal_text : PrincipalType → String
principal_text human = "HUMAN"
principal_text agent = "AGENT"
principal_text service = "SERVICE"

abbrev pub principal_types : MakeEnum
principal_types = record {
  Variant = PrincipalType;
  name = "PrincipalType";
  variants = human ∷ agent ∷ service ∷ [];
  display = principal_text;
}

abbrev pub version_statuses : MakeEnum
version_statuses = record {
  Variant = DefinitionVersionStatus;
  name = "DefinitionVersionStatus";
  variants = DefinitionVersionStatus.draft ∷ published ∷ deprecated ∷ revoked ∷ [];
  display = status_text;
}

abbrev pub node_types : MakeEnum
node_types = record {
  Variant = NodeType;
  name = "NodeType";
  variants = NodeType.draft ∷ normal ∷ terminal ∷ [];
  display = node_type_text;
}

abbrev pub assignee_ref_types : MakeEnum
assignee_ref_types = record {
  Variant = AssigneeRefType;
  name = "AssigneeRefType";
  variants = workflow_creator ∷ domain_owner ∷ fixed_principal ∷ [];
  display = assignee_text;
}

abbrev pub transition_effects : MakeEnum
transition_effects = record {
  Variant = TransitionEffect;
  name = "TransitionEffect";
  variants = advance ∷ return ∷ terminate ∷ [];
  display = effect_text;
}

abbrev pub receipt_statuses : MakeEnum
receipt_statuses = record {
  Variant = ReceiptStatus;
  name = "ReceiptStatus";
  variants = processing ∷ completed ∷ [];
  display = receipt_text;
}

-- Parsing and display of the enumeration are inverse to each other.
abbrev pub RoundTrip : MakeEnum → Type 0
RoundTrip E = (s : String) (v : E.Variant) → (from_str E s ≡ ok v) ↔ (s ≡ E.display v)

round_trip : (E : MakeEnum) → ((v : E.Variant) → from_str E (E.display v) ≡ ok v) → RoundTrip E
round_trip E each s v =
    (λ h. sym (from_str-display E s h), λ h. subst (λ t. from_str E t ≡ ok v) (sym h) (each v))

version_status_parses :
    (v : DefinitionVersionStatus) → from_str version_statuses (status_text v) ≡ ok v
unfolding from_str
version_status_parses DefinitionVersionStatus.draft = refl
version_status_parses published = refl
version_status_parses deprecated = refl
version_status_parses revoked = refl

node_type_parses : (v : NodeType) → from_str node_types (node_type_text v) ≡ ok v
unfolding from_str
node_type_parses NodeType.draft = refl
node_type_parses normal = refl
node_type_parses terminal = refl

assignee_parses : (v : AssigneeRefType) → from_str assignee_ref_types (assignee_text v) ≡ ok v
unfolding from_str
assignee_parses workflow_creator = refl
assignee_parses domain_owner = refl
assignee_parses fixed_principal = refl

effect_parses : (v : TransitionEffect) → from_str transition_effects (effect_text v) ≡ ok v
unfolding from_str effect_text
effect_parses advance = refl
effect_parses return = refl
effect_parses terminate = refl

receipt_parses : (v : ReceiptStatus) → from_str receipt_statuses (receipt_text v) ≡ ok v
unfolding from_str
receipt_parses processing = refl
receipt_parses completed = refl

principal_parses : (v : PrincipalType) → from_str principal_types (principal_text v) ≡ ok v
unfolding from_str
principal_parses human = refl
principal_parses agent = refl
principal_parses service = refl

-- For each of the six enumerations, a text parses to a variant exactly when it is the text that the
-- variant displays as; every other text is refused.
from_str-inverse :
    RoundTrip principal_types
    × RoundTrip version_statuses
    × RoundTrip node_types
    × RoundTrip assignee_ref_types
    × RoundTrip transition_effects
    × RoundTrip receipt_statuses
from_str-inverse = (
  round_trip principal_types principal_parses,
  round_trip version_statuses version_status_parses,
  round_trip node_types node_type_parses,
  round_trip assignee_ref_types assignee_parses,
  round_trip transition_effects effect_parses,
  round_trip receipt_statuses receipt_parses,
)
