-- ===== src/Replay/Fold/Contiguous.antt =====
-- The numbering of the events that a replay accepts.
use svc_workflow_kernel.Prelude.{
  ℕ, suc, ◌+◌, ◌≤◌, ◌≡◌, refl, sym, subst, ap, ◌∙◌, Option, some, true, false, not, ◌||◌, List, [],
  ◌∷◌, length, is_empty, ◌==◌, arith, String,
}
use svc_workflow_kernel.Prelude.Result.{
  ok, ok_or, err_if, question-ok, ok_inj, err_if-false, passes-true, ok_or-some,
}
use svc_workflow_kernel.Platform.{Platform}
use svc_workflow_kernel.Definition.Model.{Uuid}
use svc_workflow_kernel.Store.{I32}
use svc_workflow_kernel.Replay.Facts.{
  InstanceRow, ContextFact, VisitFact, SubmissionFact, TransitionFact, EventFact,
  WorkflowProjection,
}
use svc_workflow_kernel.Replay.State.{Replay, new_replay}
use svc_workflow_kernel.Replay.Fold.{
  kind_of, apply_kind, is_contiguous, apply, sequence_of, replay_from, finish, size, replay,
}
use svc_workflow_kernel.Replay.Fold.Preserved.{
  IsPreserved, introduce_context-ok, introduce_submission-ok, introduce_visit-ok, apply_kind-keeps,
}

-- The events of the instance from an index on: each leads from the state version that is its index
-- to the next one, which is its sequence number.
abbrev pub Contiguous : {V : Type 0} → Uuid → ℕ → List (EventFact V) → Type 0
Contiguous id index [] = Unit
Contiguous id index (e ∷ rest) =
    ((e.workflow_instance_id ≡ id)
      × (e.event_sequence ≡ index + 1)
      × (e.old_workflow_state_version ≡ index)
      × (e.new_workflow_state_version ≡ index + 1))
    × Contiguous id (suc index) rest

module _ (P : Platform) where
  open P use {Value}

  -- No handler changes the instance.
  same_instance-IsPreserved : (i : InstanceRow) → IsPreserved {V = Value} (λ r. r.instance_row ≡ i)
  same_instance-IsPreserved i = record {
    by_context = λ r c next h q.
        ap (λ (x : Replay Value). x.instance_row) (introduce_context-ok r c h).1 ∙ q;
    by_submission = λ r s next h q.
        ap (λ (x : Replay Value). x.instance_row) (introduce_submission-ok r s h).1 ∙ q;
    by_visit = λ r id v next found h q.
        ap (λ (x : Replay Value). x.instance_row) (introduce_visit-ok r v h).2 ∙ q;
    set_context = λ r id there q. q;
    set_visit = λ r id there q. q;
    set_version = λ r n q. q;
  }

  sequence_of-some :
      (index : ℕ) {n : I32}
      → sequence_of P index ≡ some n
      → (n ≡ index + 1) × (index + 1 ≤ 2147483647)
  sequence_of-some index h = ground arith

  is_contiguous-parts :
      (r : Replay Value) (e : EventFact Value) (n : I32)
      → is_contiguous P r e n ≡ true
      → (e.workflow_instance_id ≡ r.instance_row.workflow_instance_id)
        × (e.event_sequence ≡ n)
        × (e.old_workflow_state_version ≡ r.version)
        × (e.new_workflow_state_version ≡ n)
  unfolding is_contiguous
  is_contiguous-parts r e n h = ground arith

  apply-ok :
      (r : Replay Value) (e : EventFact Value) (n : I32) {next : Replay Value}
      → apply P r e n ≡ ok next
      → (is_contiguous P r e n ≡ true) × (next.version ≡ n) × (next.instance_row ≡ r.instance_row)
  unfolding apply
  apply-ok r e n h =
      let (_, contiguous, h) = question-ok (err_if (not (is_contiguous P r e n)) _) _ h in
      let (applied, done, h) = question-ok (apply_kind P r e (kind_of e.event_type)) _ h in
      let same =
        apply_kind-keeps P (λ x. x.instance_row ≡ r.instance_row)
          (same_instance-IsPreserved r.instance_row) r e (kind_of e.event_type) done refl in
      (
        passes-true (is_contiguous P r e n) _ contiguous,
        sym (ap (λ (x : Replay Value). x.version) (ok_inj h)),
        sym (ap (λ (x : Replay Value). x.instance_row) (ok_inj h)) ∙ same,
      )

  replay_from-Contiguous :
      (r : Replay Value) (index : ℕ) (events : List (EventFact Value)) {last : Replay Value}
      → replay_from P r index events ≡ ok last
      → r.version ≡ index
      → Contiguous r.instance_row.workflow_instance_id index events
        × (last.version ≡ index + length events)
        × (index ≤ 2147483647 → last.version ≤ 2147483647)
  unfolding replay_from
  replay_from-Contiguous r index [] {last} h at =
      let version : r.version ≡ last.version = ap (λ (x : Replay Value). x.version) (ok_inj h) in
      (tt, omega arith, λ small. omega arith)
  replay_from-Contiguous r index (e ∷ rest) {last} h at =
      let (n, numbered, h) = question-ok (ok_or (sequence_of P index) _) _ h in
      let (next, applied, h) = question-ok (apply P r e n) _ h in
      let (is_next, small) = sequence_of-some index (ok_or-some (sequence_of P index) _ numbered) in
      let (contiguous, version, same) = apply-ok r e n applied in
      let (instance_id, sequence, old, new) = is_contiguous-parts r e n contiguous in
      let (others, total, bound) = replay_from-Contiguous next (suc index) rest h (omega arith) in
      (
        (
          (instance_id, sequence ∙ is_next, old ∙ at, new ∙ is_next),
          subst (λ (i : InstanceRow). Contiguous (i.workflow_instance_id) (suc index) rest) same
              others,
        ),
        omega arith,
        λ _. bound (omega arith),
      )

  -- The events of a replay that succeeds belong to the instance and are numbered 1, 2, 3 … in their
  -- order, each leading from one state version to the next; the version that is rebuilt is their
  -- number, which is not zero and fits in an `i32`.
  pub replay-Contiguous :
      (i : InstanceRow) (digest : Option String) (contexts : List (ContextFact Value))
      (visits : List VisitFact) (submissions : List (SubmissionFact Value))
      (transitions : List TransitionFact) (events : List (EventFact Value)) {p : WorkflowProjection}
      → replay P i digest contexts visits submissions transitions events ≡ ok p
      → Contiguous i.workflow_instance_id 0 events
        × (p.workflow_state_version ≡ length events)
        × (1 ≤ p.workflow_state_version)
        × (p.workflow_state_version ≤ 2147483647)
  unfolding replay finish
  replay-Contiguous i digest contexts visits submissions transitions events {p} h =
      let start = new_replay i digest contexts visits submissions transitions in
      let (_, some_event, h) = question-ok (err_if (is_empty events) _) _ h in
      let (last, replayed, h) = question-ok (replay_from P start 0 events) _ h in
      let (_, _, h) =
        question-ok
          (err_if
            (not (length last.introduced_contexts == size P last.contexts)
              || (not (length last.introduced_visits == size P last.visits)
                  || not (length last.introduced_submissions == size P last.submissions)))
            _)
          _ h in
      let (contiguous, total, bound) = replay_from-Contiguous start 0 events replayed refl in
      let small = bound (omega arith) in
      let version : last.version ≡ p.workflow_state_version =
        ap (λ (x : WorkflowProjection). x.workflow_state_version) (ok_inj h) in
      let positive = length-positive events (err_if-false (is_empty events) _ some_event) in
      (contiguous, omega arith, omega arith, omega arith)
    where
      length-positive : {A : Type 0} (xs : List A) → is_empty xs ≡ false → 1 ≤ length xs
      length-positive [] h = cc
      length-positive (x ∷ xs) h = omega arith
