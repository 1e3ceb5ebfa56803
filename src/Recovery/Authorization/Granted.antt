-- ===== src/Recovery/Authorization/Granted.antt =====
-- What holds of the rows where an administrator is admitted and an assignee is resolved.
use svc_workflow_kernel.Prelude.{
  sym, ◌≡◌, ◌↔◌, ◌⊎◌, inl, inr, refl, subst, ap, ◌∙◌, Option, none, some, Bool, true, false, ◌&&◌,
  not, String, str_eq, str_eq_iff, List, [], ◌∷◌, find?, is_some, ◌==◌, Bool-cases, arith, any, Has,
  any-Has, find?-Has,
}
use svc_workflow_kernel.Prelude.Result.{
  ok, ok_or, err_if, ok_inj, question-ok, passes-true, err_if-false, ok_or-some, guard_iff,
  last_guard_iff, step_iff, stop_iff,
}
use svc_workflow_kernel.Definition.Model.{Uuid}
use svc_workflow_kernel.Recovery.Authorization.{
  Principal, RoleBinding, TargetNodeRow, Rows, Query, binding_select, principal_of, holds, is_bound,
  is_human_or_agent, check_principal, fetch, validate_workflow_admin, creator_reference,
  owner_reference, fixed_reference, no_reference, reference_of, candidate_of,
  resolve_non_terminal_assignee, owner_select, candidate_select, admin_select,
}

-- The principal is enabled and is no service.
abbrev pub IsAdmissible : Principal → Type 0
IsAdmissible p = (p.enabled ≡ true) × (str_eq p.principal_type "SERVICE" ≡ false)

-- The principal has an enabled binding of the role in the domain.
abbrev pub HasRole : Rows → Uuid → Uuid → String → Type 0
HasRole rows id domain role =
    Has
      (λ b.
        (b.principal_id ≡ id) × (b.domain_id ≡ domain) × (b.role_key ≡ role) × (b.enabled ≡ true))
      rows.bindings

-- The target names this principal as its assignee.
abbrev pub Names : Rows → TargetNodeRow → Uuid → Uuid → Uuid → Type 0
Names rows target creator domain id =
    ((target.assignee_ref_type ≡ some "WORKFLOW_CREATOR") × (id ≡ creator))
    ⊎ (((target.assignee_ref_type ≡ some "DOMAIN_OWNER") × HasRole rows id domain "DOMAIN_OWNER")
        ⊎ ((target.assignee_ref_type ≡ some "FIXED_PRINCIPAL")
            × (target.fixed_principal_id ≡ some id)))

find?-any {ℓ} : {A : Type ℓ} (p : A → Bool) (xs : List A) → is_some (find? p xs) ≡ any p xs
find?-any p [] = refl
find?-any p (x ∷ xs) = elim (Bool-cases (p x)) [ inl e ↦ rw e refl | inr e ↦ rw e (find?-any p xs) ]

check_principal_iff :
    (o : Option Principal)
    → (check_principal o ≡ ok tt) ↔ ((p : Principal) × (o ≡ some p) × IsAdmissible p)
check_principal_iff none = (λ h. cc, λ h. let (p, found, able) = h in cc)
check_principal_iff (some p) =
    let first = guard_iff p.enabled _ _ in
    let last = stop_iff (str_eq p.principal_type "SERVICE") _ in
    (
      λ h. (p, refl, ((first.0 h).0, last.0 (first.0 h).1)),
      λ h.
          let (q, found, admissible) = h in
          let same : q ≡ p = cc in
          let (able, kind) = subst IsAdmissible same admissible in first.1 (able, last.1 kind),
    )

holds-some :
    (p : Principal → Bool) (o : Option Principal)
    → holds p o ≡ true
    → (q : Principal) × (o ≡ some q) × (p q ≡ true)
holds-some p none h = cc
holds-some p (some q) h = (q, refl, h)

-- The condition of the query for an administrator's binding, whose principal is the one that was
-- found admissible.
admin_binding_iff :
    (rows : Rows) (id domain : Uuid) (p : Principal)
    → principal_of rows id ≡ some p
    → IsAdmissible p
    → (b : RoleBinding)
    → (((b.principal_id == id) && is_bound rows is_human_or_agent domain "WORKFLOW_ADMIN" b) ≡ true)
      ↔ ((b.principal_id ≡ id)
          × (b.domain_id ≡ domain)
          × (b.role_key ≡ "WORKFLOW_ADMIN")
          × (b.enabled ≡ true))
admin_binding_iff rows id domain p found able b = (there, back)
  where
    there :
        ((b.principal_id == id) && is_bound rows is_human_or_agent domain "WORKFLOW_ADMIN" b) ≡ true
        → (b.principal_id ≡ id)
          × (b.domain_id ≡ domain)
          × (b.role_key ≡ "WORKFLOW_ADMIN")
          × (b.enabled ≡ true)
    there h =
        let role = (str_eq_iff b.role_key "WORKFLOW_ADMIN").0 (ground arith) in
        (ground arith, ground arith, role, ground arith)

    back :
        (b.principal_id ≡ id)
          × (b.domain_id ≡ domain)
          × (b.role_key ≡ "WORKFLOW_ADMIN")
          × (b.enabled ≡ true)
        → ((b.principal_id == id) && is_bound rows is_human_or_agent domain "WORKFLOW_ADMIN" b)
          ≡ true
    back h =
        let (same, here, role, enabled) = h in
        let role = (str_eq_iff b.role_key "WORKFLOW_ADMIN").1 role in
        let bound : holds is_human_or_agent (principal_of rows b.principal_id) ≡ true =
          rw (same, found, is_human_or_agent, able.0, able.1) refl in
        ground arith

-- The three texts that are references, and all others.
reference_of-cases :
    (o : Option String)
    → ((reference_of o ≡ creator_reference) × (o ≡ some "WORKFLOW_CREATOR"))
      ⊎ (((reference_of o ≡ owner_reference) × (o ≡ some "DOMAIN_OWNER"))
          ⊎ (((reference_of o ≡ fixed_reference) × (o ≡ some "FIXED_PRINCIPAL"))
              ⊎ (reference_of o ≡ no_reference)))
reference_of-cases none = inr (inr (inr refl))
reference_of-cases (some t) = elim (Bool-cases (str_eq t "WORKFLOW_CREATOR")) [
  | inl a ↦ inl (rw a refl, ap some ((str_eq_iff t "WORKFLOW_CREATOR").0 a))
  | inr a ↦ elim (Bool-cases (str_eq t "DOMAIN_OWNER")) [
    | inl b ↦ inr (inl (rw (a, b) refl, ap some ((str_eq_iff t "DOMAIN_OWNER").0 b)))
    | inr b ↦ elim (Bool-cases (str_eq t "FIXED_PRINCIPAL")) [
      | inl c ↦ inr (inr (inl (rw (a, b, c) refl, ap some ((str_eq_iff t "FIXED_PRINCIPAL").0 c))))
      | inr c ↦ inr (inr (inr (rw (a, b, c) refl)))
    ]
  ]
]

owner-HasRole :
    (rows : Rows) (domain id : Uuid) (b : RoleBinding)
    → b.principal_id ≡ id
    → find? (is_bound rows (λ p. p.enabled) domain "DOMAIN_OWNER") rows.bindings ≡ some b
    → HasRole rows id domain "DOMAIN_OWNER"
owner-HasRole rows domain id b same found =
    let (k, c, at, both) =
      find?-Has (is_bound rows (λ p. p.enabled) domain "DOMAIN_OWNER") rows.bindings found in
    let (is_b, bound) = both in
    let role = (str_eq_iff c.role_key "DOMAIN_OWNER").0 (ground arith) in
    (
      k,
      c,
      at,
      (ap (λ (x : RoleBinding). x.principal_id) is_b ∙ same, ground arith, role, ground arith),
    )

module _ (fault : Query → Option String) where
  -- A query that succeeds returned what the rows hold.
  fetch-ok : {A : Type 0} (query : Query) (a : A) {b : A} → fetch fault query a ≡ ok b → a ≡ b
  fetch-ok query a h = ground arith

  -- When no query fails, the check of an administrator passes exactly when the principal exists, is
  -- enabled, is no service, and has an enabled binding of WORKFLOW_ADMIN in the domain.
  pub validate_workflow_admin-HasRole :
      ((query : Query) → fault query ≡ none)
      → (rows : Rows) (id domain : Uuid)
      → (validate_workflow_admin fault rows id domain ≡ ok tt) ↔ (
          ((p : Principal) × (principal_of rows id ≡ some p) × IsAdmissible p)
          × HasRole rows id domain "WORKFLOW_ADMIN")
  unfolding validate_workflow_admin
  validate_workflow_admin-HasRole answers rows id domain =
      let condition = λ (b : RoleBinding).
        (b.principal_id == id) && is_bound rows is_human_or_agent domain "WORKFLOW_ADMIN" b in
      let checked = check_principal_iff (principal_of rows id) in
      let both = step_iff (check_principal (principal_of rows id)) _ in
      let last = last_guard_iff (is_some (find? condition rows.bindings)) _ in
      let bound = λ (p : Principal) (found : principal_of rows id ≡ some p) (able : IsAdmissible p).
        any-Has condition
          (λ b.
            (b.principal_id ≡ id)
            × (b.domain_id ≡ domain)
            × (b.role_key ≡ "WORKFLOW_ADMIN")
            × (b.enabled ≡ true))
          (admin_binding_iff rows id domain p found able) rows.bindings in
      rw (validate_workflow_admin, fetch, answers admin_select, answers binding_select)
        (
          λ h.
              let (p, found, able) = checked.0 (both.0 h).0 in
              (
                (p, found, able),
                (bound p found able).0
                    (sym (find?-any condition rows.bindings) ∙ last.0 (both.0 h).1),
              ),
          λ h.
              let ((p, found, able), role) = h in
              both.1 (
                checked.1 (p, found, able),
                last.1 (find?-any condition rows.bindings ∙ (bound p found able).1 role),
              ),
        )

  candidate_of-Names :
      (rows : Rows) (target : TargetNodeRow) (creator domain : Uuid) {id : Uuid}
      → candidate_of fault rows target creator domain (reference_of target.assignee_ref_type)
        ≡ ok id
      → Names rows target creator domain id
  candidate_of-Names rows target creator domain {id} h =
      elim (reference_of-cases target.assignee_ref_type) [
        | inl a ↦ inl (a.1, sym (ok_inj (rw (a.0, candidate_of) at h)))
        | inr (inl a) ↦
            let (row, fetched, h) =
              question-ok
                (fetch fault owner_select
                  (find? (is_bound rows (λ p. p.enabled) domain "DOMAIN_OWNER") rows.bindings))
                _ (rw (a.0, candidate_of) at h) in
            let (b, is_row, h) = question-ok (ok_or row _) _ h in
            inr (
              inl (
                a.1,
                owner-HasRole rows domain id b (ok_inj h)
                    (fetch-ok owner_select _ fetched ∙ ok_or-some row _ is_row),
              ))
        | inr (inr (inl a)) ↦
            inr (inr (a.1, ok_or-some target.fixed_principal_id _ (rw (a.0, candidate_of) at h)))
        | inr (inr (inr a)) ↦ cc (rw (a, candidate_of) at h)
      ]

  -- An assignee that is resolved, whichever queries fail, is an enabled principal, for a node that is
  -- not terminal, and is whom the node names: the creator, one with an enabled binding of
  -- DOMAIN_OWNER in the domain, or its fixed principal.
  pub resolve_non_terminal_assignee-Names :
      (rows : Rows) (target : TargetNodeRow) (creator domain : Uuid) {id : Uuid}
      → resolve_non_terminal_assignee fault rows target creator domain ≡ ok id
      → (str_eq target.node_type "TERMINAL" ≡ false)
        × ((p : Principal) × (principal_of rows id ≡ some p) × (p.enabled ≡ true))
        × Names rows target creator domain id
  unfolding resolve_non_terminal_assignee
  resolve_non_terminal_assignee-Names rows target creator domain {id} h =
      let (_, open_node, h) = question-ok (err_if (str_eq target.node_type "TERMINAL") _) _ h in
      let (candidate, named, h) =
        question-ok
          (candidate_of fault rows target creator domain (reference_of target.assignee_ref_type)) _
          h in
      let (row, fetched, h) =
        question-ok (fetch fault candidate_select (principal_of rows candidate)) _ h in
      let (_, able, h) = question-ok (err_if (not (holds (λ p. p.enabled) row)) _) _ h in
      let same : candidate ≡ id = ok_inj h in
      let (p, found, enabled) =
        holds-some (λ p. p.enabled) row (passes-true (holds (λ p. p.enabled) row) _ able) in
      (
        err_if-false (str_eq target.node_type "TERMINAL") _ open_node,
        (
          p,
          ap (principal_of rows) (sym same) ∙ fetch-ok candidate_select _ fetched ∙ found,
          enabled,
        ),
        subst (Names rows target creator domain) same
            (candidate_of-Names rows target creator domain named),
      )
