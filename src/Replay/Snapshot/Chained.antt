-- ===== src/Replay/Snapshot/Chained.antt =====
-- The chain of an instance's context revisions, where `validate_contexts` of snapshot.rs passes.
use svc_workflow_kernel.Prelude.{
  ℕ, zero, suc, ◌+◌, ◌≤◌, ◌≡◌, ◌↔◌, refl, subst, ap, Option, none, some, true, ◌&&◌, not, String,
  str_eq, str_eq_iff, List, [], ◌∷◌, option_eq, is_some, length, ltb, ◌==◌, arith, inl, inr, Bool,
  nth,
}
use svc_workflow_kernel.Prelude.Result.{
  ok, ok_inj, Result-cases, guard_iff, last_guard_iff, step_iff,
}
use svc_workflow_kernel.Platform.{Platform}
use svc_workflow_kernel.Definition.Model.{Uuid}
use svc_workflow_kernel.Lifecycle.Digest.{option_map}
use svc_workflow_kernel.Replay.Facts.{InstanceRow, ContextFact}
use svc_workflow_kernel.Replay.Fields.{recovery_digest}
use svc_workflow_kernel.Replay.Snapshot.{
  number_of, validate_digest, is_linked, validate_context, contexts_from, validate_contexts,
}
use svc_workflow_kernel.Replay.Snapshot.Related.{some_list_iff}

module _ (P : Platform) where
  open P use {Value}

  -- The identifier of the fact before the one at this index, where `before` stands before the list.
  abbrev pub id_before : Option Uuid → List (ContextFact Value) → ℕ → Option Uuid
  id_before before facts zero = before
  id_before before facts (suc k) = option_map (λ f. f.context_revision_id) (nth facts k)

  -- The revision belongs to the instance, has this number, follows this revision and has the digest
  -- of its payload.
  abbrev pub IsRevision : InstanceRow → ℕ → Option Uuid → ContextFact Value → Type 0
  IsRevision i index before f =
      (f.workflow_instance_id ≡ i.workflow_instance_id)
      × (f.revision_number ≡ number_of index)
      × (f.previous_revision_id ≡ before)
      × (P.sha256_jcs_hex f.payload ≡ ok f.payload_digest)

  abbrev pub IsChain : InstanceRow → ℕ → Option Uuid → List (ContextFact Value) → Type 0
  IsChain i index before facts =
      (k : ℕ) (f : ContextFact Value)
      → nth facts k ≡ some f
      → IsRevision i (index + k) (id_before before facts k) f

  pub validate_digest_iff :
      (payload : Value) (digest detail : String)
      → (validate_digest P payload digest detail ≡ ok tt) ↔ (P.sha256_jcs_hex payload ≡ ok digest)
  unfolding validate_digest recovery_digest
  validate_digest_iff payload digest detail = elim (Result-cases (P.sha256_jcs_hex payload)) [
    | inl (e, failed) ↦ rw (validate_digest, recovery_digest, failed) (λ h. cc, λ h. cc)
    | inr (actual, found) ↦
        let same = last_guard_iff (str_eq actual digest) _ in
        let text = str_eq_iff actual digest in
        rw (validate_digest, recovery_digest, found)
          (λ h. ap (λ d. ok d) (text.0 (same.0 h)), λ h. same.1 (text.1 (ok_inj h)))
  ]

  option_eq_iff : (a b : Option Uuid) → (option_eq a b ≡ true) ↔ (a ≡ b)
  option_eq_iff none none = (λ h. refl, λ h. refl)
  option_eq_iff none (some b) = (λ h. cc, λ h. cc)
  option_eq_iff (some a) none = (λ h. cc, λ h. cc)
  option_eq_iff (some a) (some b) = ground arith

  abbrev follows : ℕ → Option Uuid → Option Uuid → Bool
  follows index previous before =
      not ((index == 0) && is_some previous) && not (ltb 0 index && not (option_eq previous before))

  -- At the first index nothing stands before.
  follows_iff :
      (index : ℕ) (previous before : Option Uuid)
      → (index ≡ 0 → before ≡ none)
      → (follows index previous before ≡ true) ↔ (previous ≡ before)
  follows_iff zero none before starts = rw (starts refl) (λ h. refl, λ h. refl)
  follows_iff zero (some a) before starts = rw (starts refl) (λ h. cc, λ h. cc)
  follows_iff (suc n) previous before starts =
      let same = option_eq_iff previous before in
      (λ h. same.0 (ground arith), λ h. rw (same.1 h) (ground arith))

  is_linked_iff :
      (i : InstanceRow) (index : ℕ) (before : Option Uuid) (f : ContextFact Value)
      → (index ≡ 0 → before ≡ none)
      → (is_linked P i index before f ≡ true) ↔ (
          (f.workflow_instance_id ≡ i.workflow_instance_id)
          × (f.revision_number ≡ number_of index)
          × (f.previous_revision_id ≡ before))
  is_linked_iff i index before f starts =
      let follow = follows_iff index f.previous_revision_id before starts in
      (
        λ h. (ground arith, ground arith, follow.0 (ground arith)),
        λ h. let (one, two, three) = h in let last = follow.1 three in ground arith,
      )

  validate_context_iff :
      (i : InstanceRow) (index : ℕ) (before : Option Uuid) (f : ContextFact Value)
      → (index ≡ 0 → before ≡ none)
      → (validate_context P i index before f ≡ ok tt) ↔ IsRevision i index before f
  unfolding validate_context
  validate_context_iff i index before f starts =
      let linked = is_linked_iff i index before f starts in
      let digest = validate_digest_iff f.payload f.payload_digest _ in
      let guard = guard_iff (is_linked P i index before f) _ _ in
      (
        λ h.
            let (a, h) = guard.0 h in
            let (one, two, three) = linked.0 a in (one, two, three, digest.0 h),
        λ h. let (one, two, three, four) = h in guard.1 (linked.1 (one, two, three), digest.1 four),
      )

  id_before-cons :
      (before : Option Uuid) (x : ContextFact Value) (rest : List (ContextFact Value)) (k : ℕ)
      → id_before (some x.context_revision_id) rest k ≡ id_before before (x ∷ rest) (suc k)
  id_before-cons before x rest zero = refl
  id_before-cons before x rest (suc k) = refl

  cons-IsChain :
      (i : InstanceRow) (index : ℕ) (before : Option Uuid) (x : ContextFact Value)
      (rest : List (ContextFact Value))
      → IsChain i index before (x ∷ rest)
        ↔ (IsRevision i index before x × IsChain i (suc index) (some x.context_revision_id) rest)
  cons-IsChain i index before x rest = (there, back)
    where
      there :
          IsChain i index before (x ∷ rest)
          → IsRevision i index before x × IsChain i (suc index) (some x.context_revision_id) rest
      there h = (
        subst (λ n. IsRevision i n before x) (omega arith) (h 0 x refl),
        λ k f at.
            let same : index + suc k ≡ suc index + k = omega arith in
            rw (← same, id_before-cons before x rest k) (h (suc k) f at),
      )

      back :
          IsRevision i index before x × IsChain i (suc index) (some x.context_revision_id) rest
          → IsChain i index before (x ∷ rest)
      back h zero f at =
          subst (λ g. IsRevision i (index + 0) before g) {x = x} {y = f} (cc)
            (subst (λ n. IsRevision i n before x) (omega arith) h.0)
      back h (suc k) f at =
          let same : index + suc k ≡ suc index + k = omega arith in
          rw (same, ← id_before-cons before x rest k) (h.1 k f at)

  contexts_from-IsChain :
      (i : InstanceRow) (index : ℕ) (before : Option Uuid) (facts : List (ContextFact Value))
      → (index ≡ 0 → before ≡ none)
      → (contexts_from P i index before facts ≡ ok tt) ↔ IsChain i index before facts
  contexts_from-IsChain i index before [] starts = (λ h k f at. cc, λ h. refl)
  contexts_from-IsChain i index before (x ∷ rest) starts =
      let first = validate_context_iff i index before x starts in
      let later =
        contexts_from-IsChain i (suc index) (some x.context_revision_id) rest
          (λ zero_index. ground arith) in
      let both = step_iff (validate_context P i index before x) _ in
      let chain = cons-IsChain i index before x rest in
      (
        λ h. chain.1 (first.0 (both.0 h).0, later.0 (both.0 h).1),
        λ h. both.1 (first.1 (chain.0 h).0, later.1 (chain.0 h).1),
      )

  -- The context check accepts the facts exactly when there is one and, at every index, the fact
  -- belongs to the instance, is numbered by its index plus one as an `i32`, names the fact at the
  -- index before as its previous revision, none at the first, and has the digest of its payload.
  pub validate_contexts-IsChain :
      (i : InstanceRow) (facts : List (ContextFact Value))
      → (validate_contexts P i facts ≡ ok tt) ↔ ((1 ≤ length facts) × IsChain i 0 none facts)
  unfolding validate_contexts
  validate_contexts-IsChain i facts =
      let some_fact = some_list_iff facts _ (contexts_from P i 0 none facts) in
      let chain = contexts_from-IsChain i 0 none facts (λ h. refl) in
      (λ h. ((some_fact.0 h).0, chain.0 (some_fact.0 h).1), λ h. some_fact.1 (h.0, chain.1 h.1))
