-- ===== src/Transition/Checks/Target.antt =====
-- The assignee and the number of the visit that a transition opens, where the reads of
-- transition_validation.rs and of step 14 succeed.
use svc_workflow_kernel.Prelude.{
  ℕ, suc, ◌+◌, ◌≤◌, ◌<◌, ◌≡◌, ◌⊎◌, refl, sym, subst, ap, ◌∙◌, Option, none, some, Bool, true, false,
  ◌&&◌, String, str_eq_iff, List, [], ◌∷◌, find?, ◌==◌, All, Has, find?-Has, Bool-cases, inl, inr,
  leb, arith,
}
use svc_workflow_kernel.Prelude.Result.{ok, ok_or, question-ok, ok_inj, ok_or-some}
use svc_workflow_kernel.Enums.{
  AssigneeRefType, workflow_creator, domain_owner, fixed_principal, is_terminal,
}
use svc_workflow_kernel.Definition.Model.{Uuid}
use svc_workflow_kernel.Store.{
  PrincipalRow, RoleBindingRow, NodeRow, InstanceRow, VisitRow, Db, Faults, attempt-eq-ok,
  owner_binding_select, owner_select, fixed_principal_select,
}
use svc_workflow_kernel.Transition.Error.{storage_error}
use svc_workflow_kernel.Transition.Reads.{
  fetch, is_enabled_owner, enabled_or, resolve_by, resolve_assignee,
}
use svc_workflow_kernel.Transition.Checks.{max_visit_number}
use svc_workflow_kernel.Transition.Checks.Passed.{IsEnabled}

-- The principal has an enabled binding as the owner of the domain.
abbrev pub OwnsDomain : {V : Type 0} → Db V → Uuid → Uuid → Type 0
OwnsDomain db domain id =
    Has
      (λ b.
        (b.principal_id ≡ id)
        × (b.domain_id ≡ domain)
        × (b.role_key ≡ "DOMAIN_OWNER")
        × (b.enabled ≡ true))
      db.role_bindings

-- The assignee that a reference names: the creator of the instance, an enabled owner of its domain,
-- or the enabled fixed principal.
abbrev pub Names :
    {V : Type 0} → Db V → NodeRow → InstanceRow → Uuid → Option AssigneeRefType → Type 0
Names db target i id none = ⊥
Names db target i id (some workflow_creator) = id ≡ i.created_by_principal_id
Names db target i id (some domain_owner) = OwnsDomain db i.domain_id id × IsEnabled db id
Names db target i id (some fixed_principal) =
    (target.fixed_principal_id ≡ some id) × IsEnabled db id

-- A TERMINAL node has no assignee, and every other node the one that it names.
abbrev pub AssigneeRule : {V : Type 0} → Db V → NodeRow → InstanceRow → Bool → Option Uuid → Type 0
AssigneeRule db target i true assignee = assignee ≡ none
AssigneeRule db target i false assignee =
    (id : Uuid) × (assignee ≡ some id) × Names db target i id target.assignee_ref_type

-- The number is one more than the greatest number of a visit of this node in the instance, or 1.
abbrev pub NumberRule : Uuid → Uuid → List VisitRow → ℕ → Type 0
NumberRule instance_id node_id visits number =
    All (λ v. v.workflow_instance_id ≡ instance_id → v.node_id ≡ node_id → v.visit_number < number)
      visits
    × ((number ≡ 1)
        ⊎ Has
            (λ v.
              (v.workflow_instance_id ≡ instance_id)
              × (v.node_id ≡ node_id)
              × (number ≡ v.visit_number + 1))
            visits)

module _ {V : Type 0} (fault : Faults) where
  enabled_or-IsEnabled :
      (missing disabled : String) (db : Db V) (id : Uuid) (row : Option PrincipalRow)
      {assignee : Option Uuid}
      → row ≡ find? (λ p. p.principal_id == id) db.principals
      → enabled_or missing disabled id row ≡ ok assignee
      → (assignee ≡ some id) × IsEnabled db id
  enabled_or-IsEnabled missing disabled db id none same h = cc
  enabled_or-IsEnabled missing disabled db id (some p) same h = elim (Bool-cases p.enabled) [
    | inl e ↦ (sym (ok_inj (rw e at h)), (p, sym same, e))
    | inr e ↦ cc (rw e at h)
  ]

  owner-OwnsDomain :
      (db : Db V) (domain : Uuid) (b : RoleBindingRow)
      → find? (is_enabled_owner domain) db.role_bindings ≡ some b
      → OwnsDomain db domain b.principal_id
  owner-OwnsDomain db domain b found =
      let (k, c, at, both) = find?-Has (is_enabled_owner domain) db.role_bindings found in
      let (is_b, owner) = both in
      let role = (str_eq_iff c.role_key "DOMAIN_OWNER").0 (ground arith) in
      (
        k,
        c,
        at,
        (ap (λ (x : RoleBindingRow). x.principal_id) is_b, ground arith, role, ground arith),
      )

  resolve_by-Names :
      (db : Db V) (target : NodeRow) (i : InstanceRow) (reference : Option AssigneeRefType)
      {assignee : Option Uuid}
      → resolve_by fault db target i i.domain_id reference ≡ ok assignee
      → (id : Uuid) × (assignee ≡ some id) × Names db target i id reference
  resolve_by-Names db target i none h = cc
  resolve_by-Names db target i (some workflow_creator) h =
      (i.created_by_principal_id, sym (ok_inj h), refl)
  resolve_by-Names db target i (some domain_owner) h =
      let bound = find? (is_enabled_owner i.domain_id) db.role_bindings in
      let (binding, read, h) = question-ok (fetch fault owner_binding_select bound) _ h in
      let (owner, found, h) = question-ok (ok_or binding _) _ h in
      let principal = find? (λ p. p.principal_id == owner.principal_id) db.principals in
      let (row, read_row, h) = question-ok (fetch fault owner_select principal) _ h in
      let same = attempt-eq-ok fault storage_error owner_select principal read_row in
      let (named, enabled) = enabled_or-IsEnabled _ _ db owner.principal_id row same h in
      let is_owner =
        sym (attempt-eq-ok fault storage_error owner_binding_select bound read)
        ∙ ok_or-some binding _ found in
      (owner.principal_id, named, (owner-OwnsDomain db i.domain_id owner is_owner, enabled))
  resolve_by-Names db target i (some fixed_principal) h =
      let (id, fixed, h) = question-ok (ok_or target.fixed_principal_id _) _ h in
      let principal = find? (λ p. p.principal_id == id) db.principals in
      let (row, read_row, h) = question-ok (fetch fault fixed_principal_select principal) _ h in
      let same = attempt-eq-ok fault storage_error fixed_principal_select principal read_row in
      let (named, enabled) = enabled_or-IsEnabled _ _ db id row same h in
      (id, named, (ok_or-some target.fixed_principal_id _ fixed, enabled))

  resolve_assignee-own_domain :
      (db : Db V) (target : NodeRow) (i : InstanceRow) {assignee : Option Uuid}
      → resolve_assignee fault db target i i.domain_id ≡ ok assignee
      → AssigneeRule db target i (is_terminal target.node_type) assignee
  unfolding resolve_assignee
  resolve_assignee-own_domain db target i {assignee} h =
      elim (Bool-cases (is_terminal target.node_type)) [
        | inl e ↦
            subst (λ b. AssigneeRule db target i b assignee) (sym e)
              (sym (ok_inj (rw (resolve_assignee, e) at h)))
        | inr e ↦
            subst (λ b. AssigneeRule db target i b assignee) (sym e)
              (resolve_by-Names db target i target.assignee_ref_type
                (rw (resolve_assignee, e) at h))
      ]

module _ {V : Type 0} (fault : Faults) where
  -- An assignee that is resolved in the domain of the instance keeps the rule.
  pub resolve_assignee-AssigneeRule :
      (db : Db V) (target : NodeRow) (i : InstanceRow) (domain : Uuid) {assignee : Option Uuid}
      → domain ≡ i.domain_id
      → resolve_assignee fault db target i domain ≡ ok assignee
      → AssigneeRule db target i (is_terminal target.node_type) assignee
  resolve_assignee-AssigneeRule db target i domain {assignee} same h =
      resolve_assignee-own_domain fault db target i
        (subst (λ d. resolve_assignee fault db target i d ≡ ok assignee) same h)

max-above :
    (instance_id node_id : Uuid) (visits : List VisitRow) (n : ℕ)
    → max_visit_number instance_id node_id visits ≤ n
    → All
        (λ v. v.workflow_instance_id ≡ instance_id → v.node_id ≡ node_id → v.visit_number < n + 1)
        visits
unfolding max_visit_number
max-above instance_id node_id [] n h = tt
max-above instance_id node_id (v ∷ vs) n h =
    (λ same_instance same_node. ground arith, max-above instance_id node_id vs n (ground arith))

max-reached :
    (instance_id node_id : Uuid) (visits : List VisitRow)
    → (max_visit_number instance_id node_id visits ≡ 0)
      ⊎ Has
          (λ v.
            (v.workflow_instance_id ≡ instance_id)
            × (v.node_id ≡ node_id)
            × (max_visit_number instance_id node_id visits ≡ v.visit_number))
          visits
unfolding max_visit_number
max-reached instance_id node_id [] = inl refl
max-reached instance_id node_id (v ∷ vs) =
    let rest = max-reached instance_id node_id vs in
    elim (Bool-cases ((v.workflow_instance_id == instance_id) && (v.node_id == node_id))) [
      | inr off ↦ elim rest [
        | inl e ↦ inl (ground arith)
        | inr h ↦
            let (k, w, at, both) = h in
            let (same_instance, same_node, number) = both in
            inr (suc k, w, at, (same_instance, same_node, ground arith))
      ]
      | inl on ↦ elim (Bool-cases (leb (max_visit_number instance_id node_id vs) v.visit_number)) [
        | inl least ↦ inr (0, v, refl, (ground arith, ground arith, ground arith))
        | inr greater ↦ elim rest [
          | inl e ↦ inl (ground arith)
          | inr h ↦
              let (k, w, at, both) = h in
              let (same_instance, same_node, number) = both in
              inr (suc k, w, at, (same_instance, same_node, ground arith))
        ]
      ]
    ]

pub max_visit_number-NumberRule :
    (instance_id node_id : Uuid) (visits : List VisitRow)
    → NumberRule instance_id node_id visits (max_visit_number instance_id node_id visits + 1)
max_visit_number-NumberRule instance_id node_id visits = (
  max-above instance_id node_id visits _ (omega arith),
  elim (max-reached instance_id node_id visits) [
    | inl e ↦ inl (omega arith)
    | inr h ↦
        let (k, v, at, both) = h in
        let (same_instance, same_node, number) = both in
        inr (k, v, at, (same_instance, same_node, omega arith))
  ],
)
