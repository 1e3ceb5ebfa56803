-- ===== src/Transition/Checks/Payload.antt =====
-- What the checks of a payload in transition_validation.rs let through.
use svc_workflow_kernel.Prelude.{
  ℕ, ◌≤◌, ◌≡◌, refl, sym, ap, ◌∙◌, Option, none, some, Bool, true, ◌&&◌, not, String, List, [], ◌∷◌,
  find?, is_some, ◌==◌, All, Has, find?-Has, Option-cases, inl, inr, arith,
}
use svc_workflow_kernel.Prelude.Result.{
  ok, err, ok_or, and_then, err_if, question-ok, ok_inj, ok_or-some, passes-true, Result-cases,
}
use svc_workflow_kernel.Platform.{Platform}
use svc_workflow_kernel.Enums.{return}
use svc_workflow_kernel.Definition.Model.{Uuid}
use svc_workflow_kernel.Definition.Graph.Rules.{ForSome}
use svc_workflow_kernel.Definition.Graph.Effects.{is_return}
use svc_workflow_kernel.Store.{
  VisitRow, SubmissionRow, TransitionRow, Db, Faults, attempt-eq-ok, root_visit_select,
  related_submission_select,
}
use svc_workflow_kernel.Transition.Error.{storage_error}
use svc_workflow_kernel.Transition.Command.{FreshIds}
use svc_workflow_kernel.Transition.Reads.{CheckResult, fetch}
use svc_workflow_kernel.Transition.Submission.{
  validate_submission_size, validate_submission_schema, validate_related, related_of,
  validate_return_references,
}
use svc_workflow_kernel.Transition.Checks.{validation_result, check_references, check_submission}

-- A check passes with what the read or rule under it gave.
pub validation-ok : {A : Type 0} (r : CheckResult A) {a : A} → validation_result r ≡ ok a → r ≡ ok a
validation-ok (ok a) h = ap (λ x. ok x) (ok_inj h)
validation-ok (err e) h = ground arith

found-Has {ℓ} :
    {A : Type 0} (p : A → Bool) (Q : A → Type ℓ)
    → ((x : A) → p x ≡ true → Q x)
    → (xs : List A) → is_some (find? p xs) ≡ true
    → Has Q xs
found-Has p Q holds xs h = elim (Option-cases (find? p xs)) [
  | inl e ↦ cc (rw (is_some, e) at h)
  | inr (x, e) ↦ let (k, y, at, both) = find?-Has p xs e in (k, y, at, holds y both.1)
]

module _ (P : Platform) where
  open P use {Value}

  -- The payload takes at most 1 MiB.
  abbrev pub SizeRule : Value → Type 0
  SizeRule payload = (n : ℕ) × (P.to_vec_len payload ≡ ok n) × (n ≤ 1048576)

  -- A schema that is given compiles, and the payload satisfies it.
  abbrev pub SchemaRule : Option Value → Value → Type 0
  SchemaRule schema payload =
      ForSome (λ s. (P.validator_for s ≡ none) × (P.validate s payload ≡ none)) schema

  -- The text names an identifier.
  abbrev pub NamesId : Value → Uuid → Type 0
  NamesId v id = (s : String) × (P.as_str v ≡ some s) × (P.parse_uuid s ≡ some id)

  abbrev pub RelatedRule : Db Value → Uuid → Value → Type 0
  RelatedRule db instance_id entry =
      (id : Uuid) × NamesId entry id
      × Has (λ r. (r.submission_id ≡ id) × (r.workflow_instance_id ≡ instance_id)) db.submissions

  -- A RETURN names a visit of the instance as its root cause, submissions of the instance if any are
  -- related, a reason code and a reason.
  pub record ReturnRule (db : Db Value) (instance_id : Uuid) (payload : Value) : Type 0 where
    pub root_cause : Uuid
    pub root_value : Value
    pub root_given : P.get payload "rootCauseNodeVisitId" ≡ some root_value
    pub root_named : NamesId root_value root_cause
    pub root_exists :
        Has (λ v. (v.node_visit_id ≡ root_cause) × (v.workflow_instance_id ≡ instance_id)) db.visits
    pub related :
        (v : Value) (entries : List Value)
        → P.get payload "relatedSubmissionIds" ≡ some v
        → P.as_array v ≡ some entries
        → All (RelatedRule db instance_id) entries
    pub reason_code : (v : Value) × (P.get payload "reasonCode" ≡ some v)
    pub reason : (v : Value) × (P.get payload "reason" ≡ some v)

  -- Without a payload the transition has no schema, and no submission is made; a payload is small
  -- enough, satisfies the schema and, for a RETURN, its references, and a submission is made.
  abbrev pub SubmissionRule :
      Db Value → FreshIds → Uuid → TransitionRow Value → Option Value → Option Uuid → Type 0
  SubmissionRule db ids instance_id t none made = (t.submission_schema ≡ none) × (made ≡ none)
  SubmissionRule db ids instance_id t (some payload) made =
      SizeRule payload
      × SchemaRule t.submission_schema payload
      × (t.transition_effect ≡ return → ReturnRule db instance_id payload)
      × (made ≡ some ids.submission_id)

module _ (P : Platform) (fault : Faults) where
  open P use {Value}

  size-SizeRule :
      (payload : Value) → validate_submission_size P fault payload ≡ ok tt → SizeRule P payload
  unfolding validate_submission_size
  size-SizeRule payload h = elim (Result-cases (P.to_vec_len payload)) [
    | inl (e, bad) ↦ cc (rw (validate_submission_size, bad) at h)
    | inr (n, good) ↦
        let below = rw (validate_submission_size, good) at h in (n, good, ground (arith, below))
  ]

  schema-SchemaRule :
      (schema : Option Value) (payload : Value)
      → validate_submission_schema P fault schema payload ≡ ok tt
      → SchemaRule P schema payload
  unfolding validate_submission_schema
  schema-SchemaRule none payload h = tt
  schema-SchemaRule (some schema) payload h = elim (Option-cases (P.validator_for schema)) [
    | inr (e, bad) ↦ cc (rw (validate_submission_schema, bad) at h)
    | inl compiles ↦ elim (Option-cases (P.validate schema payload)) [
      | inl valid ↦ (compiles, valid)
      | inr (e, bad) ↦ cc (rw (validate_submission_schema, compiles, bad) at h)
    ]
  ]

  named :
      (v : Option Value) {id : Uuid}
      → and_then (and_then v P.as_str) P.parse_uuid ≡ some id
      → (x : Value) × (v ≡ some x) × NamesId P x id
  named none h = cc
  named (some x) h = elim (Option-cases (P.as_str x)) [
    | inl e ↦ cc (rw e at h)
    | inr (s, e) ↦ (x, refl, (s, e, rw e at h))
  ]

  related-All :
      (db : Db Value) (instance_id : Uuid) (entries : List Value)
      → validate_related P fault db instance_id entries ≡ ok tt
      → All (RelatedRule P db instance_id) entries
  unfolding validate_related
  related-All db instance_id [] h = tt
  related-All db instance_id (entry ∷ rest) h =
      let (s, is_text, h) = question-ok (ok_or (P.as_str entry) _) _ h in
      let (id, is_id, h) = question-ok (ok_or (P.parse_uuid s) _) _ h in
      let condition = λ (r : SubmissionRow Value).
        (r.submission_id == id) && (r.workflow_instance_id == instance_id) in
      let (row, read, h) =
        question-ok (fetch fault (related_submission_select id) (find? condition db.submissions)) _
          h in
      let (_, there, h) = question-ok (err_if (not (is_some row)) _) _ h in
      let same =
        attempt-eq-ok fault storage_error (related_submission_select id)
          (find? condition db.submissions) read in
      (
        (
          id,
          (s, ok_or-some (P.as_str entry) _ is_text, ok_or-some (P.parse_uuid s) _ is_id),
          found-Has condition (λ r. (r.submission_id ≡ id) × (r.workflow_instance_id ≡ instance_id))
              (λ r found. (ground arith, ground arith)) db.submissions
              (ap is_some (sym same) ∙ passes-true (is_some row) _ there),
        ),
        related-All db instance_id rest h,
      )

  given : {v : Option Value} → is_some v ≡ true → (x : Value) × (v ≡ some x)
  given {v = none} h = cc
  given {v = some x} h = (x, refl)

  references-ReturnRule :
      (db : Db Value) (payload : Value) (instance_id : Uuid)
      → validate_return_references P fault db payload instance_id ≡ ok tt
      → ReturnRule P db instance_id payload
  unfolding validate_return_references
  references-ReturnRule db payload instance_id h =
      let named_root =
        and_then (and_then (P.get payload "rootCauseNodeVisitId") P.as_str) P.parse_uuid in
      let (root, is_root, h) = question-ok (ok_or named_root _) _ h in
      let condition =
        λ (v : VisitRow). (v.node_visit_id == root) && (v.workflow_instance_id == instance_id) in
      let (row, read, h) =
        question-ok (fetch fault root_visit_select (find? condition db.visits)) _ h in
      let (_, there, h) = question-ok (err_if (not (is_some row)) _) _ h in
      let (_, related, h) =
        question-ok
          (validate_related P fault db instance_id
            (related_of P fault (P.get payload "relatedSubmissionIds")))
          _ h in
      let (_, code, h) = question-ok (err_if (not (is_some (P.get payload "reasonCode"))) _) _ h in
      let (value, is_value, is_named) =
        named (P.get payload "rootCauseNodeVisitId") (ok_or-some named_root _ is_root) in
      let same =
        attempt-eq-ok fault storage_error root_visit_select (find? condition db.visits) read in
      record {
        root_cause = root;
        root_value = value;
        root_given = is_value;
        root_named = is_named;
        root_exists =
            found-Has condition
              (λ v. (v.node_visit_id ≡ root) × (v.workflow_instance_id ≡ instance_id))
              (λ v found. (ground arith, ground arith)) db.visits
              (ap is_some (sym same) ∙ passes-true (is_some row) _ there);
        related = λ v entries is_given is_array.
            related-All db instance_id entries (rw (related_of, is_given, is_array) at related);
        reason_code = given (passes-true (is_some (P.get payload "reasonCode")) _ code);
        reason = given (passes-true (is_some (P.get payload "reason")) _ h);
      }

  pub check_submission-SubmissionRule :
      (db : Db Value) (ids : FreshIds) (payload : Option Value) (instance_id : Uuid)
      (t : TransitionRow Value) {made : Option Uuid}
      → check_submission P fault db payload instance_id t ids.submission_id ≡ ok made
      → SubmissionRule P db ids instance_id t payload made
  unfolding check_submission
  check_submission-SubmissionRule db ids none instance_id t h = (ground arith, ground arith)
  check_submission-SubmissionRule db ids (some payload) instance_id t h =
      let (_, size, h) =
        question-ok (validation_result (validate_submission_size P fault payload)) _ h in
      let (_, schema, h) =
        question-ok
          (validation_result (validate_submission_schema P fault t.submission_schema payload)) _
          h in
      let (_, references, h) =
        question-ok (check_references P fault db payload instance_id t) _ h in
      (
        size-SizeRule payload (validation-ok (validate_submission_size P fault payload) size),
        schema-SchemaRule t.submission_schema payload
            (validation-ok (validate_submission_schema P fault t.submission_schema payload) schema),
        λ returns. references-ReturnRule db payload instance_id (
            validation-ok (validate_return_references P fault db payload instance_id)
              (rw (check_references, returns, is_return) at references)),
        sym (ok_inj h),
      )
