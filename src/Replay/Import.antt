-- ===== src/Replay/Import.antt =====
-- `validate` of src/store/postgres/admin_recovery_repository/import_event.rs: the data of an event
-- that introduces an imported instance.
use Prim.Native.Char.{code}
use Prim.Native.String.{len}
use svc_workflow_kernel.Prelude.{
  Option, none, some, Bool, true, false, ◌&&◌, ◌||◌, not, String, str_nil, str_cons, str_append,
  str_eq, List, [], ◌∷◌, leb, ◌==◌, option_eq, is_some, if◌then◌else◌,
}
use svc_workflow_kernel.Prelude.Result.{err_if, and_then}
use svc_workflow_kernel.Platform.{Platform}
use svc_workflow_kernel.Definition.Model.{Uuid}
use svc_workflow_kernel.Replay.Facts.{
  InstanceRow, ContextFact, VisitFact, EventFact, Recovered, invalid_immutable_facts,
}
use svc_workflow_kernel.Replay.Fields.{text_eq, exact_keys, string_field}

abbrev lower_hex : String → Bool
lower_hex str_nil = true
lower_hex (str_cons c s) =
    ((leb 48 (code c) && leb (code c) 57) || (leb 97 (code c) && leb (code c) 102)) && lower_hex s

-- `value.len() == 64` and only decimal digits and `a` to `f`
unfoldable pub lowercase_digest : String → Bool
lowercase_digest value = (len value == 64) && lower_hex value

-- `option.is_some_and(p)`
abbrev pub is_some_and {ℓ} : {A : Type ℓ} → (A → Bool) → Option A → Bool
is_some_and p none = false
is_some_and p (some a) = p a

module _ (P : Platform) where
  open P use {Value, parse_uuid, uuid_text}

  abbrev keep_if : Bool → Uuid → Option Uuid
  keep_if true id = some id
  keep_if false id = none

  unfoldable pub canonical_uuid : String → Option Uuid
  canonical_uuid value =
      and_then (parse_uuid value) (λ parsed. keep_if (str_eq (uuid_text parsed) value) parsed)

  unfoldable pub whole_second_utc : String → Bool
  whole_second_utc value = (len value == 20) && P.is_utc_time value

  reference_of : Option Uuid → Option String
  reference_of none = none
  reference_of (some id) = some (str_append "migration:adc:" (str_append (uuid_text id) ":v1"))

  abbrev pub import_keys : List String
  import_keys =
      "legacySystem" ∷ "legacyRecordId" ∷ "legacySnapshotDigest" ∷ "importedNodeId" ∷ "importedAt"
      ∷ "creatorResolution" ∷ []

  -- The negation of the condition under which the event is refused.
  unfoldable pub import_is_valid :
      Value → EventFact Value → InstanceRow → ContextFact Value → VisitFact → Bool
  unfolding reference_of
  import_is_valid body event instance_row context visit =
      let record_id = and_then (string_field P body "legacyRecordId") canonical_uuid in
      let imported_node = and_then (string_field P body "importedNodeId") canonical_uuid in
      exact_keys P body import_keys
      && (text_eq (string_field P body "legacySystem") (some "adc")
          && (option_eq imported_node (some visit.node_id)
              && (is_some_and lowercase_digest (string_field P body "legacySnapshotDigest")
                  && (is_some_and whole_second_utc (string_field P body "importedAt")
                      && (is_some_and
                            (λ r. str_eq r "LEGACY_CREATOR" || str_eq r "DOMAIN_OWNER_FALLBACK")
                            (string_field P body "creatorResolution")
                          && (text_eq instance_row.external_reference (reference_of record_id)
                              && (not (str_eq instance_row.created_by_principal_type "SERVICE")
                                  && (str_eq event.actor_principal_type "SERVICE"
                                      && (not (
                                            event.actor_principal_id
                                            == instance_row.created_by_principal_id)
                                          && ((context.created_by_principal_id
                                                == instance_row.created_by_principal_id)
                                              && (if str_eq visit.node_type "TERMINAL"
                                                  then not (is_some visit.assignee_principal_id)
                                                  else is_some
                                                      visit.assignee_principal_id)))))))))))

  unfoldable pub validate_import :
      Value → EventFact Value → InstanceRow → ContextFact Value → VisitFact → Recovered (Unit {0})
  validate_import body event instance_row context visit =
      err_if (not (import_is_valid body event instance_row context visit))
        (invalid_immutable_facts "import event data or identity facts are invalid")
