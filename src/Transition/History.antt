-- ===== src/Transition/History.antt =====
-- Sequences of transition transactions, in the order in which they commit, whichever statements
-- fail: src/store/postgres/workflow_instance_repository/transition_transaction.rs run again and again.
use svc_workflow_kernel.Prelude.{
  ◌≡◌, refl, sym, ap, ◌∙◌, subst, Option, none, some, Bool, true, false, ◌&&◌, String, List, [],
  ◌∷◌, ◌++◌, find?, is_some, ◌==◌, ◌⊎◌, inl, inr, arith, All, if◌then◌else◌,
}
use svc_workflow_kernel.Prelude.Result.{ok, err}
use svc_workflow_kernel.Platform.{Platform}
use svc_workflow_kernel.Definition.Model.{Uuid}
use svc_workflow_kernel.Store.{
  I32, InstanceRow, VisitRow, SubmissionRow, Db, Faults, definitions, tables,
}
use svc_workflow_kernel.Transition.Command.{
  ExecuteWorkflowTransitionCommand, FreshIds, TransitionResult, executed, replayed,
  replayed_failure,
}
use svc_workflow_kernel.Transition.Checks.{Plan}
use svc_workflow_kernel.Transition.Facts.{is_unmoved, move_to, update_rows, next_version}
use svc_workflow_kernel.Transition.Facts.Written.{IsWritten, HasSubmission, target_visit}
use svc_workflow_kernel.Transition.Execute.{Outcome, execute_workflow_transition_atomically}
use svc_workflow_kernel.Transition.Execute.Fresh.{claimed, execute-IsExecution}
use svc_workflow_kernel.Transition.Execute.Atomic.{is_executed, execute-tables}
pub mod Keys

-- The list grew at its head, where the newest row stands, and kept the rest.
abbrev pub Extends {ℓ} : {A : Type ℓ} → List A → List A → Type ℓ
Extends {A = A} before after = (news : List A) × (after ≡ news ++ before)

append_assoc {ℓ} : {A : Type ℓ} (xs ys zs : List A) → (xs ++ ys) ++ zs ≡ xs ++ (ys ++ zs)
append_assoc [] ys zs = refl
append_assoc (x ∷ xs) ys zs = ap (λ l. x ∷ l) (append_assoc xs ys zs)

Extends-trans {ℓ} : {A : Type ℓ} {xs ys zs : List A} → Extends xs ys → Extends ys zs → Extends xs zs
Extends-trans {xs = xs} (news, e) (more, d) =
    (more ++ news, d ∙ ap (λ l. more ++ l) e ∙ sym (append_assoc more news xs))

-- The definitions stay, and the visits, submissions and events are logs that only grow.
pub record Appends {V : Type 0} (before after : Db V) : Type 0 where
  pub definitions : definitions after ≡ definitions before
  pub visits : Extends before.visits after.visits
  pub submissions : Extends before.submissions after.submissions
  pub events : Extends before.events after.events

-- Each instance's current visit is there, and belongs to it.
abbrev pub has_visit : List VisitRow → InstanceRow → Bool
has_visit visits r = is_some (
    find?
      (λ v.
        (v.node_visit_id == r.current_node_visit_id)
        && (v.workflow_instance_id == r.workflow_instance_id))
      visits)

abbrev pub HasCurrentVisits : {V : Type 0} → Db V → Type 0
HasCurrentVisits db = All (λ r. has_visit db.visits r ≡ true) db.instances

executed-cases :
    {V : Type 0} (o : Outcome V)
    → (is_executed o ≡ false) ⊎ ((r : TransitionResult) × (o ≡ ok (executed r)))
executed-cases (ok (executed r)) = inr (r, refl)
executed-cases (ok (replayed r)) = inl refl
executed-cases (ok (replayed_failure s b)) = inl refl
executed-cases (err e) = inl refl

extend-submissions :
    (P : Platform) (ids : FreshIds) (cmd : ExecuteWorkflowTransitionCommand P.Value)
    (plan : Plan P.Value) (payload : Option P.Value) {before after : List (SubmissionRow P.Value)}
    → HasSubmission P ids cmd plan payload before after
    → Extends before after
extend-submissions P ids cmd plan none h = ([], h)
extend-submissions P ids cmd plan (some payload) h =
    let (digest, digested, added) = h in (_ ∷ [], added)

-- A new first visit hides no visit.
has_visit-cons :
    (v : VisitRow) (visits : List VisitRow) (r : InstanceRow)
    → has_visit visits r ≡ true
    → has_visit (v ∷ visits) r ≡ true
has_visit-cons v visits r h = ground arith

moved_row-has_visit :
    (v : VisitRow) (new_version : I32) (visits : List VisitRow) (r : InstanceRow) (moved : Bool)
    → (moved ≡ true → r.workflow_instance_id ≡ v.workflow_instance_id)
    → has_visit visits r ≡ true
    → has_visit (v ∷ visits) (if moved then move_to v.node_visit_id new_version r else r) ≡ true
moved_row-has_visit v new_version visits r true own h = let same = own refl in ground (arith, same)
moved_row-has_visit v new_version visits r false own h = has_visit-cons v visits r h

-- The instances that an update moves have the new visit, and the others keep theirs.
update_rows-has_visit :
    (id : Uuid) (version : I32) (visit : Uuid) (v : VisitRow) (new_version : I32)
    (visits : List VisitRow) (rows : List InstanceRow)
    → v.workflow_instance_id ≡ id
    → All (λ r. has_visit visits r ≡ true) rows
    → All
        (λ r. has_visit (v ∷ visits) r ≡ true)
        (update_rows id version visit v.node_visit_id new_version rows)
unfolding update_rows
update_rows-has_visit id version visit v new_version visits [] same all = tt
update_rows-has_visit id version visit v new_version visits (r ∷ rows) same all = (
  moved_row-has_visit v new_version visits r (is_unmoved id version visit r)
      (λ e. ground (arith, e, same)) all.0,
  update_rows-has_visit id version visit v new_version visits rows same all.1,
)

module _ (P : Platform) where
  open P use {Value}

  -- A transaction leaves the tables, or writes the facts of a plan.
  execute-cases :
      (fault : Faults) (db : Db Value) (ids : FreshIds)
      (cmd : ExecuteWorkflowTransitionCommand Value) (hash : String)
      → let after = (execute_workflow_transition_atomically P fault db ids cmd hash).1 in
        (tables after ≡ tables db)
        ⊎ ((plan : Plan Value) × (body : Value) × IsWritten P ids cmd plan body
              (claimed P fault db ids cmd hash)
              after)
  execute-cases fault db ids cmd hash =
      let run = execute_workflow_transition_atomically P fault db ids cmd hash in
      elim (executed-cases run.0) [
        | inl h ↦ inl (execute-tables P fault db ids cmd hash h)
        | inr (r, h) ↦
            let done =
              execute-IsExecution P fault db ids cmd hash r run.1 (ap (λ o. (o, run.1)) h) in
            inr (done.plan, _, done.written)
      ]

  execute-Appends :
      (fault : Faults) (db : Db Value) (ids : FreshIds)
      (cmd : ExecuteWorkflowTransitionCommand Value) (hash : String)
      → Appends db (execute_workflow_transition_atomically P fault db ids cmd hash).1
  execute-Appends fault db ids cmd hash = elim (execute-cases fault db ids cmd hash) [
    | inl same ↦ record {
      definitions = ap (λ t. t.0) same;
      visits = ([], ap (λ t. t.1.1) same);
      submissions = ([], ap (λ t. t.1.2) same);
      events = ([], ap (λ t. t.1.3) same);
    }
    | inr (plan, body, w) ↦ record {
      definitions = w.definitions;
      visits = (target_visit ids cmd plan ∷ [], w.visits);
      submissions = extend-submissions P ids cmd plan cmd.submission_payload w.submissions;
      events = let (payload_digest, digest, given, digested, added) = w.events in (_ ∷ [], added);
    }
  ]

  execute-HasCurrentVisits :
      (fault : Faults) (db : Db Value) (ids : FreshIds)
      (cmd : ExecuteWorkflowTransitionCommand Value) (hash : String)
      → HasCurrentVisits db
      → HasCurrentVisits (execute_workflow_transition_atomically P fault db ids cmd hash).1
  unfolding update_rows
  execute-HasCurrentVisits fault db ids cmd hash all = elim (execute-cases fault db ids cmd hash) [
    | inl same ↦ subst (λ t. All (λ r. has_visit t.1.1 r ≡ true) t.1.0) (sym same) all
    | inr (plan, body, w) ↦
        rw (w.instances, w.visits)
          (update_rows-has_visit cmd.workflow_instance_id plan.instance_row.workflow_state_version
            plan.instance_row.current_node_visit_id (target_visit ids cmd plan)
            (next_version plan.instance_row.workflow_state_version) db.visits db.instances refl all)
  ]

  -- Transactions one after the other, each with its command and its own failures.
  pub data Runs : Db Value → Db Value → Type 0 where
    done : (db : Db Value) → Runs db db
    next :
        (fault : Faults) (db : Db Value) (ids : FreshIds)
        (cmd : ExecuteWorkflowTransitionCommand Value) (hash : String) {after : Db Value}
        → Runs (execute_workflow_transition_atomically P fault db ids cmd hash).1 after
        → Runs db after

  -- Whatever transition transactions run, and whichever of their statements fail, the definitions
  -- stay as they are, and the visits, submissions and events only grow.
  pub Runs-Appends : {before after : Db Value} → Runs before after → Appends before after
  Runs-Appends (done db) = record {
    definitions = refl;
    visits = ([], refl);
    submissions = ([], refl);
    events = ([], refl);
  }
  Runs-Appends (next fault db ids cmd hash more) =
      let first = execute-Appends fault db ids cmd hash in
      let rest = Runs-Appends more in
      record {
        definitions = rest.definitions ∙ first.definitions;
        visits = Extends-trans first.visits rest.visits;
        submissions = Extends-trans first.submissions rest.submissions;
        events = Extends-trans first.events rest.events;
      }

  -- If the current visit of every instance is there and belongs to it, then it does after any
  -- transition transactions, whichever of their statements fail.
  pub Runs-HasCurrentVisits :
      {before after : Db Value}
      → Runs before after
      → HasCurrentVisits before
      → HasCurrentVisits after
  Runs-HasCurrentVisits (done db) all = all
  Runs-HasCurrentVisits (next fault db ids cmd hash more) all =
      Runs-HasCurrentVisits more (execute-HasCurrentVisits fault db ids cmd hash all)
