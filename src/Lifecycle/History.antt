-- ===== src/Lifecycle/History.antt =====
-- Lifecycle operations one after the other, each with its own failing statements, and what stays
-- true of a version.
pub mod Bound
use svc_workflow_kernel.Prelude.{
  ℕ, zero, suc, ◌+◌, ◌≤◌, ◌<◌, ◌≡◌, ◌≢◌, refl, sym, subst, ap, ◌∙◌, ◌⊎◌, inl, inr, Option, none,
  some, Bool, true, false, String, List, [], ◌∷◌, ◌==◌, ==_iff, arith, if◌then◌else◌, Bool-cases,
  Option-cases, is_some,
}
use svc_workflow_kernel.Prelude.Result.{Result, ok, err, Result-cases}
use svc_workflow_kernel.Platform.{Platform}
use svc_workflow_kernel.Enums.{DefinitionVersionStatus, draft, published, deprecated, revoked}
use svc_workflow_kernel.Definition.Model.{Uuid}
use svc_workflow_kernel.Lifecycle.Rows.{WorkflowDefinitionVersionRow, DefinitionDb, LifecycleFaults}
use svc_workflow_kernel.Lifecycle.Repository.{has_status}
use svc_workflow_kernel.Lifecycle.Repository.Passed.{row_at}
use svc_workflow_kernel.Lifecycle.Machine.{
  Move, publish, deprecate, revoke_published, revoke_deprecated, Operation, publish_op,
  deprecate_op, revoke_op, subject, expected_by, set_by, written, perform, body_of, perform-cases,
  row_at-written, row_at-others, set_by-Move, has_status-status,
}

-- An operation with the statements that fail in it.
abbrev pub Attempt : Type 0
Attempt = Operation × LifecycleFaults

-- How far a status lies from DRAFT.
abbrev pub rank : DefinitionVersionStatus → ℕ
rank draft = 0
rank published = 1
rank deprecated = 2
rank revoked = 3

module _ (P : Platform) where
  open P use {Value}

  abbrev pub perform_all : List Attempt → DefinitionDb Value → DefinitionDb Value
  perform_all [] db = db
  perform_all ((op, fault) ∷ rest) db = perform_all rest (perform P fault op db).1

  -- What one permitted operation keeps, any sequence keeps.
  pub perform_all-keeps {ℓ} :
      (Q : DefinitionDb Value → Type ℓ)
      → ((op : Operation) (db : DefinitionDb Value) (v : WorkflowDefinitionVersionRow Value)
          → row_at db (subject op) ≡ some v
          → expected_by op v ≡ true
          → Q db
          → Q (written op db))
      → (attempts : List Attempt) (db : DefinitionDb Value) → Q db
      → Q (perform_all attempts db)
  perform_all-keeps Q keeps [] db q = q
  perform_all-keeps Q keeps ((op, fault) ∷ rest) db q =
      perform_all-keeps Q keeps rest (perform P fault op db).1 (elim (perform-cases P fault op db) [
        | inl same ↦ subst Q (sym same) q
        | inr (v, d, permitted, wrote) ↦
            subst Q (sym wrote) (keeps op db v permitted.version_found permitted.version_expected q)
      ])

  -- Both columns of a move are empty, or both are set.
  abbrev pub NotMade : Option ℕ → Option Uuid → Type 0
  NotMade at by = (at ≡ none) × (by ≡ none)

  abbrev pub IsMade : Option ℕ → Option Uuid → Type 0
  IsMade at by = (is_some at ≡ true) × (is_some by ≡ true)

  -- The columns that a status calls for: a REVOKED version may have been deprecated before.
  abbrev pub Marks : DefinitionVersionStatus → WorkflowDefinitionVersionRow Value → Type 0
  Marks draft v =
      (v.definition_digest ≡ none)
      × NotMade v.published_at v.published_by_principal_id
      × NotMade v.deprecated_at v.deprecated_by_principal_id
      × NotMade v.revoked_at v.revoked_by_principal_id
  Marks published v =
      (is_some v.definition_digest ≡ true)
      × IsMade v.published_at v.published_by_principal_id
      × NotMade v.deprecated_at v.deprecated_by_principal_id
      × NotMade v.revoked_at v.revoked_by_principal_id
  Marks deprecated v =
      (is_some v.definition_digest ≡ true)
      × IsMade v.published_at v.published_by_principal_id
      × IsMade v.deprecated_at v.deprecated_by_principal_id
      × NotMade v.revoked_at v.revoked_by_principal_id
  Marks revoked v =
      (is_some v.definition_digest ≡ true)
      × IsMade v.published_at v.published_by_principal_id
      × (NotMade v.deprecated_at v.deprecated_by_principal_id
          ⊎ IsMade v.deprecated_at v.deprecated_by_principal_id)
      × IsMade v.revoked_at v.revoked_by_principal_id

  -- Every version has the columns of its status.
  abbrev pub IsMarked : DefinitionDb Value → Type 0
  IsMarked db =
      (id : Uuid) (v : WorkflowDefinitionVersionRow Value)
      → row_at db id ≡ some v
      → Marks (v.version_status) v

  set_by-Marks :
      (op : Operation) (v : WorkflowDefinitionVersionRow Value)
      → expected_by op v ≡ true
      → Marks (v.version_status) v
      → Marks ((set_by op v).version_status) (set_by op v)
  set_by-Marks (publish_op now id actor digest) v h m =
      let was : Marks draft v = subst (λ s. Marks s v) (sym (has_status-status draft v h)) m in
      (refl, (refl, refl), was.2, was.3)
  set_by-Marks (deprecate_op now id actor) v h m =
      let was : Marks published v =
        subst (λ s. Marks s v) (sym (has_status-status published v h)) m in
      (was.0, was.1, (refl, refl), was.3)
  set_by-Marks (revoke_op now id actor) v h m = elim (Bool-cases (has_status published v)) [
    | inl e ↦
        let was : Marks published v =
          subst (λ s. Marks s v) (sym (has_status-status published v e)) m in
        (was.0, was.1, inl was.2, (refl, refl))
    | inr e ↦
        let was : Marks deprecated v =
          subst (λ s. Marks s v) (sym (has_status-status deprecated v (rw e at h))) m in
        (was.0, was.1, inr was.2, (refl, refl))
  ]

  written-IsMarked :
      (op : Operation) (db : DefinitionDb Value) (v : WorkflowDefinitionVersionRow Value)
      → row_at db (subject op) ≡ some v
      → expected_by op v ≡ true
      → IsMarked db
      → IsMarked (written op db)
  written-IsMarked op db v found h marked id w at = elim (Bool-cases (id == subject op)) [
    | inl e ↦
        let same : id ≡ subject op = (==_iff id (subject op)).0 e in
        let now : some (set_by op v) ≡ some w =
          sym (row_at-written op db found h) ∙ sym (ap (row_at (written op db)) same) ∙ at in
        let equal : set_by op v ≡ w = cc in
        subst (λ x. Marks (x.version_status) x) equal
          (set_by-Marks op v h (marked (subject op) v found))
    | inr e ↦
        marked id w
          (sym (row_at-others op db id (λ same. cc ((==_iff id (subject op)).1 same))) ∙ at)
  ]

  -- If every version has the columns that its status calls for, this still holds after any sequence
  -- of lifecycle operations, whichever statements fail. A DRAFT has no digest and no time or actor of
  -- a move; later the digest and the time and actor of the publication are there, those of the
  -- deprecation and of the revocation in that status and not before it; a REVOKED version has both
  -- or neither of the deprecation.
  pub perform_all-IsMarked :
      (attempts : List Attempt) (db : DefinitionDb Value)
      → IsMarked db
      → IsMarked (perform_all attempts db)
  perform_all-IsMarked attempts db marked =
      perform_all-keeps IsMarked written-IsMarked attempts db marked

  -- What a publication fixes in a row.
  abbrev pub Fixed :
      WorkflowDefinitionVersionRow Value → WorkflowDefinitionVersionRow Value → Type 0
  Fixed v w =
      (w.definition_digest ≡ v.definition_digest)
      × (w.published_at ≡ v.published_at)
      × (w.published_by_principal_id ≡ v.published_by_principal_id)
      × (w.workflow_definition_id ≡ v.workflow_definition_id)
      × (w.version_number ≡ v.version_number)
      × (w.json_schema_dialect ≡ v.json_schema_dialect)
      × (w.validator_version ≡ v.validator_version)
      × (w.context_schema ≡ v.context_schema)

  -- The version is out of DRAFT, with what was fixed in `v`.
  abbrev pub IsFixed : Uuid → WorkflowDefinitionVersionRow Value → DefinitionDb Value → Type 0
  IsFixed id v db =
      (w : WorkflowDefinitionVersionRow Value) × (row_at db id ≡ some w)
      × (has_status draft w ≡ false)
      × Fixed v w

  set_by-Fixed :
      (op : Operation) (v w : WorkflowDefinitionVersionRow Value)
      → expected_by op w ≡ true
      → has_status draft w ≡ false
      → Fixed v w
      → (has_status draft (set_by op w) ≡ false) × Fixed v (set_by op w)
  set_by-Fixed (publish_op now id actor digest) v w h out same = cc
  set_by-Fixed (deprecate_op now id actor) v w h out same = (refl, same)
  set_by-Fixed (revoke_op now id actor) v w h out same = (refl, same)

  written-IsFixed :
      (id : Uuid) (v : WorkflowDefinitionVersionRow Value) (op : Operation)
      (db : DefinitionDb Value) (u : WorkflowDefinitionVersionRow Value)
      → row_at db (subject op) ≡ some u
      → expected_by op u ≡ true
      → IsFixed id v db
      → IsFixed id v (written op db)
  written-IsFixed id v op db u found h (w, at, out, same) = elim (Bool-cases (id == subject op)) [
    | inl e ↦
        let there : id ≡ subject op = (==_iff id (subject op)).0 e in
        let equal : u ≡ w = cc (found, at, there) in
        let (out, kept) =
          set_by-Fixed op v w (subst (λ x. expected_by op x ≡ true) equal h) out same in
        (
          set_by op w,
          ap (row_at (written op db)) there
              ∙ row_at-written op db found h
              ∙ ap (λ x. some (set_by op x)) equal,
          out,
          kept,
        )
    | inr e ↦
        (w, row_at-others op db id (λ there. cc ((==_iff id (subject op)).1 there)) ∙ at, out, same)
  ]

  -- A version that has left DRAFT stays out of it, and its digest, its publication, its number, its
  -- schema columns and the definition it belongs to never change again, over any sequence of
  -- lifecycle operations, whichever statements fail.
  pub perform_all-IsFixed :
      (attempts : List Attempt) (db : DefinitionDb Value) (id : Uuid)
      (v : WorkflowDefinitionVersionRow Value)
      → row_at db id ≡ some v
      → has_status draft v ≡ false
      → IsFixed id v (perform_all attempts db)
  perform_all-IsFixed attempts db id v at out =
      perform_all-keeps (IsFixed id v) (written-IsFixed id v) attempts db
        (v, at, out, (refl, refl, refl, refl, refl, refl, refl, refl))
