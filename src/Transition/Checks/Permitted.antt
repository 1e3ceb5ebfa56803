-- ===== src/Transition/Checks/Permitted.antt =====
-- What holds of a command that passes every check.
use svc_workflow_kernel.Prelude.{
  ◌+◌, ◌≡◌, sym, ap, ◌∙◌, subst, some, false, ◌&&◌, not, find?, option_eq, ◌==◌, arith,
}
use svc_workflow_kernel.Prelude.Result.{ok, ok_or, err_if, question-ok, ok_inj}
use svc_workflow_kernel.Platform.{Platform}
use svc_workflow_kernel.Enums.{is_terminal}
use svc_workflow_kernel.Definition.Model.{Uuid}
use svc_workflow_kernel.Store.{
  NodeRow, TransitionRow, InstanceRow, Db, Faults, domain_select, visit_number_select,
}
use svc_workflow_kernel.Transition.Error.{internal_consistency}
use svc_workflow_kernel.Transition.Command.{ExecuteWorkflowTransitionCommand, FreshIds}
use svc_workflow_kernel.Transition.Reads.{
  fetch, CurrentVisitFullRow, lock_instance, validate_principal_enabled,
  validate_definition_version_status, read_current_visit, read_source_node, read_transition,
  read_target_node, resolve_assignee,
}
use svc_workflow_kernel.Transition.Checks.{
  Plan, fail_if_some, validation_result, question, check_primary, check_target, check_caller,
  check_transition, check_submission, check_all, max_visit_number,
}
use svc_workflow_kernel.Transition.Checks.Payload.{
  SubmissionRule, validation-ok, check_submission-SubmissionRule,
}
use svc_workflow_kernel.Transition.Checks.Target.{
  AssigneeRule, NumberRule, resolve_assignee-AssigneeRule, max_visit_number-NumberRule,
}
use svc_workflow_kernel.Transition.Checks.Passed.{
  lock_instance-eq-ok, read_current_visit-eq-ok, principal-eq-ok, status-eq-ok,
  read_source_node-eq-ok, read_target_node-eq-ok, read_transition-eq-ok, effect-eq-ok, FindsVisit,
  IsEnabled, IsRunnable, EffectRule,
}

-- The caller is enabled and the assignee of the current visit of an instance that stands at the
-- version that the command expects, on a node that is not TERMINAL.
pub record IsCaller {V : Type 0} (db : Db V) (cmd : ExecuteWorkflowTransitionCommand V)
    (instance_row : InstanceRow) (current : CurrentVisitFullRow) : Type 0 where
  pub found_instance :
      find? (λ r. r.workflow_instance_id == cmd.workflow_instance_id) db.instances
      ≡ some instance_row
  pub expected_version : cmd.expected_workflow_state_version ≡ instance_row.workflow_state_version
  pub found_visit :
      FindsVisit db cmd.workflow_instance_id instance_row.current_node_visit_id current
  pub not_terminal : is_terminal current.node.node_type ≡ false
  pub enabled : IsEnabled db cmd.principal_id
  pub assignee : current.visit.assignee_principal_id ≡ some cmd.principal_id

-- The transition leaves the node of the current visit, in a version that may run, by the rule of
-- its effect.
pub record IsApplicable {V : Type 0} (db : Db V) (cmd : ExecuteWorkflowTransitionCommand V)
    (instance_row : InstanceRow) (current : CurrentVisitFullRow) (source : NodeRow)
    (t : TransitionRow V) (target : NodeRow) : Type 0 where
  pub runnable : IsRunnable db instance_row.definition_version_id
  pub found_source :
      find?
        (λ n.
          (n.node_id == current.visit.node_id)
          && (n.definition_version_id == instance_row.definition_version_id))
        db.nodes
      ≡ some source
  pub found_transition :
      find?
        (λ t.
          (t.transition_id == cmd.transition_definition_id)
          && (t.definition_version_id == instance_row.definition_version_id))
        db.transitions
      ≡ some t
  pub leaves_current : t.source_node_id ≡ current.visit.node_id
  pub found_target :
      find?
        (λ n.
          (n.node_id == t.target_node_id)
          && (n.definition_version_id == instance_row.definition_version_id))
        db.nodes
      ≡ some target
  pub effect_rule : EffectRule source t target t.transition_effect

module _ (P : Platform) (fault : Faults) where
  open P use {Value}

  check_caller-IsCaller :
      (db : Db Value) (cmd : ExecuteWorkflowTransitionCommand Value) {instance_row : InstanceRow}
      {domain : Uuid} {current : CurrentVisitFullRow}
      → check_caller P fault db cmd ≡ ok (instance_row, domain, current)
      → IsCaller db cmd instance_row current
  unfolding check_caller
  check_caller-IsCaller db cmd h =
      let (row, h1, h) =
        question-ok (validation_result (lock_instance fault db cmd.workflow_instance_id)) _ h in
      let (domain_row, _, h) =
        question-ok
          (question (
            fetch fault domain_select
              (find? (λ r. r.workflow_instance_id == cmd.workflow_instance_id) db.instances)))
          _ h in
      let (domain, _, h) =
        question-ok (question (ok_or domain_row (internal_consistency "instance has no domain"))) _
          h in
      let (_, h2, h) =
        question-ok
          (err_if (not (cmd.expected_workflow_state_version == row.workflow_state_version)) _) _
          h in
      let (current, h3, h) =
        question-ok (validation_result (read_current_visit fault db _ _)) _ h in
      let (_, h4, h) = question-ok (err_if (is_terminal current.node.node_type) _) _ h in
      let (problem, h5, h) =
        question-ok (validation_result (validate_principal_enabled fault db cmd.principal_id)) _
          h in
      let (_, h6, h) = question-ok (fail_if_some problem) _ h in
      let (_, h7, h) =
        question-ok
          (err_if (not (option_eq current.visit.assignee_principal_id (some cmd.principal_id))) _) _
          h in
      subst (λ x. IsCaller db cmd x.0 x.2) (ok_inj h)
        (record {
          found_instance = lock_instance-eq-ok fault db cmd.workflow_instance_id h1;
          expected_version = ground (arith, h2);
          found_visit = read_current_visit-eq-ok fault db _ _ h3;
          not_terminal = ground (arith, h4);
          enabled = principal-eq-ok fault db cmd.principal_id (rw h5 h6);
          assignee = ground (arith, h7);
        })

  check_transition-IsApplicable :
      (db : Db Value) (cmd : ExecuteWorkflowTransitionCommand Value) (instance_row : InstanceRow)
      (current : CurrentVisitFullRow) {source : NodeRow} {t : TransitionRow Value}
      {target : NodeRow}
      → check_transition P fault db cmd instance_row current ≡ ok (source, t, target)
      → IsApplicable db cmd instance_row current source t target
  unfolding check_transition
  check_transition-IsApplicable db cmd instance_row current h =
      let (_, h1, h) =
        question-ok (validation_result (validate_definition_version_status fault db _)) _ h in
      let (source, h2, h) = question-ok (validation_result (read_source_node fault db _ _)) _ h in
      let (t, h3, h) = question-ok (validation_result (read_transition fault db _ _)) _ h in
      let (_, h4, h) =
        question-ok (err_if (not (t.source_node_id == current.visit.node_id)) _) _ h in
      let (_, h5, h) = question-ok (check_primary source t t.transition_effect) _ h in
      let (target, h6, h) = question-ok (validation_result (read_target_node fault db _ _)) _ h in
      let (_, h7, h) = question-ok (check_target source target t.transition_effect) _ h in
      subst (λ x. IsApplicable db cmd instance_row current x.0 x.1 x.2) (ok_inj h)
        (record {
          runnable = status-eq-ok fault db _ h1;
          found_source = read_source_node-eq-ok fault db _ _ h2;
          found_transition = read_transition-eq-ok fault db _ _ h3;
          leaves_current = ground (arith, h4);
          found_target = read_target_node-eq-ok fault db _ _ h6;
          effect_rule = effect-eq-ok source target t t.transition_effect h5 h7;
        })

-- All that the checks establish of the plan that they hand on.
pub record IsPermitted (P : Platform) (db : Db P.Value) (ids : FreshIds)
    (cmd : ExecuteWorkflowTransitionCommand P.Value) (plan : Plan P.Value) : Type 0 where
  pub current : CurrentVisitFullRow
  pub caller : IsCaller db cmd plan.instance_row current
  pub applicable :
      IsApplicable db cmd plan.instance_row current plan.source_node plan.transition
        plan.target_node
  pub submission :
      SubmissionRule P db ids cmd.workflow_instance_id plan.transition cmd.submission_payload
        plan.final_submission_id
  pub assignee :
      AssigneeRule db plan.target_node plan.instance_row
        (is_terminal plan.target_node.node_type)
        plan.target_assignee_id
  pub visit_number :
      NumberRule cmd.workflow_instance_id plan.target_node.node_id db.visits
        plan.target_visit_number

module _ (P : Platform) (fault : Faults) where
  open P use {Value}

  -- The domain is that of the instance, which is read twice.
  check_caller-domain :
      (db : Db Value) (cmd : ExecuteWorkflowTransitionCommand Value) {instance_row : InstanceRow}
      {domain : Uuid} {current : CurrentVisitFullRow}
      → check_caller P fault db cmd ≡ ok (instance_row, domain, current)
      → domain ≡ instance_row.domain_id
  unfolding check_caller
  check_caller-domain db cmd {instance_row} {domain} h =
      let instances =
        find? (λ r. r.workflow_instance_id == cmd.workflow_instance_id) db.instances in
      let (row, h1, h) =
        question-ok (validation_result (lock_instance fault db cmd.workflow_instance_id)) _ h in
      let (domain_row, h2, h) = question-ok (question (fetch fault domain_select instances)) _ h in
      let (read, h3, h) =
        question-ok (question (ok_or domain_row (internal_consistency "instance has no domain"))) _
          h in
      let (_, _, h) =
        question-ok
          (err_if (not (cmd.expected_workflow_state_version == row.workflow_state_version)) _) _
          h in
      let (visited, _, h) = question-ok (validation_result (read_current_visit fault db _ _)) _ h in
      let (_, _, h) = question-ok (err_if (is_terminal visited.node.node_type) _) _ h in
      let (problem, _, h) =
        question-ok (validation_result (validate_principal_enabled fault db cmd.principal_id)) _
          h in
      let (_, _, h) = question-ok (fail_if_some problem) _ h in
      let (_, _, h) =
        question-ok
          (err_if (not (option_eq visited.visit.assignee_principal_id (some cmd.principal_id))) _) _
          h in
      let first = lock_instance-eq-ok fault db cmd.workflow_instance_id h1 in
      let second : domain_row ≡ instances = ground (arith, h2) in
      let found : domain_row ≡ some read = ground (arith, h3) in
      let both = ok_inj h in
      let same : row ≡ read = cc in
      sym (ap (λ (x : InstanceRow × Uuid × CurrentVisitFullRow). x.1) both)
      ∙ ap (λ (r : InstanceRow). r.domain_id) (sym same)
      ∙ ap (λ (x : InstanceRow × Uuid × CurrentVisitFullRow). (x.0).domain_id) both

  -- The plan of a command that passes the checks is permitted.
  pub check_all-IsPermitted :
      (db : Db Value) (ids : FreshIds) (cmd : ExecuteWorkflowTransitionCommand Value)
      {plan : Plan Value}
      → check_all P fault db ids cmd ≡ ok plan
      → IsPermitted P db ids cmd plan
  unfolding check_all
  check_all-IsPermitted db ids cmd {plan} h =
      let ((row, domain, current), h1, h) = question-ok (check_caller P fault db cmd) _ h in
      let ((source, t, target), h2, h) =
        question-ok (check_transition P fault db cmd row current) _ h in
      let (made, h3, h) =
        question-ok
          (check_submission P fault db cmd.submission_payload cmd.workflow_instance_id t
            ids.submission_id)
          _ h in
      let (assignee, h4, h) =
        question-ok (validation_result (resolve_assignee fault db target row domain)) _ h in
      let (number, h5, h) =
        question-ok
          (question (
            fetch fault visit_number_select
              (max_visit_number cmd.workflow_instance_id target.node_id db.visits + 1)))
          _ h in
      subst (IsPermitted P db ids cmd) (ok_inj h) (record {
        current = current;
        caller = check_caller-IsCaller P fault db cmd h1;
        applicable = check_transition-IsApplicable P fault db cmd row current h2;
        submission =
            check_submission-SubmissionRule P fault db ids cmd.submission_payload
              cmd.workflow_instance_id t h3;
        assignee =
            resolve_assignee-AssigneeRule fault db target row domain (check_caller-domain db cmd h1)
              (validation-ok (resolve_assignee fault db target row domain) h4);
        visit_number =
            let same : number
                ≡ max_visit_number cmd.workflow_instance_id target.node_id db.visits + 1 =
              ground (arith, h5) in
            subst (NumberRule cmd.workflow_instance_id target.node_id db.visits) (sym same)
              (max_visit_number-NumberRule cmd.workflow_instance_id target.node_id db.visits);
      })
