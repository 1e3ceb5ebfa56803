-- ===== src/Replay/Fields.antt =====
-- src/store/postgres/admin_recovery_repository/event_fields.rs: the fields of an event's data.
use Prim.Native.String.{len}
use svc_workflow_kernel.Prelude.{
  Option, none, some, Bool, true, false, ◌&&◌, ◌||◌, not, String, count, str_append, str_eq, List,
  [], ◌∷◌, length, leb, ◌==◌, if◌then◌else◌,
}
use svc_workflow_kernel.Prelude.Result.{ok, err, ok_or, err_if, and_then, ◌>>=◌, ◌>>◌}
use svc_workflow_kernel.Platform.{Platform, index}
use svc_workflow_kernel.Definition.Model.{Uuid}
use svc_workflow_kernel.Replay.Facts.{EventFact, Recovered, storage_error, invalid_immutable_facts}

-- `==` of two optional texts
abbrev pub text_eq : Option String → Option String → Bool
text_eq none none = true
text_eq (some a) (some b) = str_eq a b
text_eq _ _ = false

abbrev pub has_text : List String → String → Bool
has_text [] key = false
has_text (k ∷ ks) key = str_eq k key || has_text ks key

abbrev pub all_keys : List String → List String → Bool
all_keys present [] = true
all_keys present (k ∷ ks) = has_text present k && all_keys present ks

module _ (P : Platform) where
  open P use {Value}

  unfoldable pub exact_keys : Value → List String → Bool
  exact_keys value keys = elim (P.object_keys value) [
    | none ↦ false
    | some present ↦ (length present == length keys) && all_keys present keys
  ]

  unfoldable pub string_field : Value → String → Option String
  string_field value key = and_then (P.get value key) P.as_str

  unfoldable pub uuid_field : Value → String → Option Uuid
  uuid_field value key = and_then (and_then (P.get value key) P.as_str) P.parse_uuid

  -- `Some(None)` for null, `Some(Some(text))` for a text
  unfoldable pub optional_string_field : Value → String → Option (Option String)
  optional_string_field value key = and_then (P.get value key) (λ v.
      if P.is_null v then some none else elim (P.as_str v) [ none ↦ none | some s ↦ some (some s) ])

  -- `digest::compute_json_digest(data).map_err(RecoveryError::StorageError)`
  unfoldable pub recovery_digest : Value → Recovered String
  recovery_digest body = elim (P.sha256_jcs_hex body) [
    | ok digest ↦ ok digest
    | err e ↦ err (storage_error (str_append "JCS canonicalization failed: " e))
  ]

  unfoldable pub event_data : EventFact Value → Recovered Value
  event_data event = do
    body ← ok_or event.event_data (invalid_immutable_facts "event data is missing")
    actual ← recovery_digest body
    err_if (not (text_eq event.event_data_digest (some actual)))
        (invalid_immutable_facts "event data digest mismatch")
    ok body

  reference_is_bounded : Option String → Option String → Bool
  reference_is_bounded (some resource_type) (some resource_id) =
      not (str_eq resource_type "")
      && (leb (len resource_type) 128
          && (not (str_eq resource_id "")
              && (leb (len resource_id) 256
                  && (not (P.any_control resource_type) && not (P.any_control resource_id)))))
  reference_is_bounded _ _ = false

  abbrev all_references : List Value → Bool
  all_references [] = true
  all_references (r ∷ rest) =
      (exact_keys r ("resourceType" ∷ "resourceId" ∷ [])
        && reference_is_bounded (string_field r "resourceType") (string_field r "resourceId"))
      && all_references rest

  reason_is_bounded : String → Bool
  reason_is_bounded reason =
      str_eq reason (P.trim reason)
      && (not (str_eq reason "") && (leb (count reason) 2000 && not (P.any_control reason)))

  unfoldable pub admin_payload_is_bounded : Value → Bool
  unfolding reference_is_bounded reason_is_bounded
  admin_payload_is_bounded body = elim (string_field body "reason") [
    | none ↦ false
    | some reason ↦
        reason_is_bounded reason && elim (P.as_array (index P body "relatedReferences")) [
          | none ↦ false
          | some references ↦ leb (length references) 20 && all_references references
        ]
  ]
