-- ===== src/Lifecycle/Machine.antt =====
-- The abstract lifecycle of a version, the operations of lifecycle_transactions.rs as one step
-- function, and the refinement of the one by the other.
pub mod Succeeds
use svc_workflow_kernel.Prelude.{
  ℕ, ◌≤◌, ◌≡◌, ◌≢◌, refl, sym, subst, ap, ◌∙◌, ◌⊎◌, inl, inr, Option, none, some, Bool, true, false,
  ◌&&◌, ◌||◌, String, List, [], ◌∷◌, find?, ◌==◌, ==_iff, arith, if◌then◌else◌, Bool-cases,
  Option-cases,
}
use svc_workflow_kernel.Prelude.Result.{Result, ok, err, Result-cases}
use svc_workflow_kernel.Platform.{Platform}
use svc_workflow_kernel.Enums.{DefinitionVersionStatus, draft, published, deprecated, revoked}
use svc_workflow_kernel.Definition.Model.{Uuid}
use svc_workflow_kernel.Lifecycle.Error.{DefinitionError}
use svc_workflow_kernel.Lifecycle.Rows.{
  WorkflowDefinitionVersionRow, DefinitionDb, LifecycleFaults, LifecycleResult,
}
use svc_workflow_kernel.Lifecycle.Digest.{option_map}
use svc_workflow_kernel.Lifecycle.Repository.{
  has_version_id, has_status, update_where, update_versions, set_published, set_deprecated,
  set_revoked, publish_body, status_body, reread, atomic_publish_inner, atomic_deprecate_inner,
  atomic_revoke_inner,
}
use svc_workflow_kernel.Lifecycle.Repository.Passed.{
  row_at, IsPermitted, is_draft_of, publish_body-ok, status_body-ok,
}

-- The moves of the lifecycle, in which REVOKED is final.
pub data Move : DefinitionVersionStatus → DefinitionVersionStatus → Type 0 where
  publish : Move draft published
  deprecate : Move published deprecated
  revoke_published : Move published revoked
  revoke_deprecated : Move deprecated revoked

-- The abstract state: the status of each version that there is.
abbrev pub Statuses : Type 0
Statuses = Uuid → Option DefinitionVersionStatus

abbrev pub statuses_of : {V : Type 0} → DefinitionDb V → Statuses
statuses_of db id = option_map (λ v. v.version_status) (row_at db id)

-- A step of the specification moves one version and leaves the others.
pub record IsMove (before after : Statuses) (id : Uuid) : Type 0 where
  pub old : DefinitionVersionStatus
  pub new : DefinitionVersionStatus
  pub moves : Move old new
  pub is_old : before id ≡ some old
  pub is_new : after id ≡ some new
  pub others : (other : Uuid) → other ≢ id → after other ≡ before other

-- `atomic_publish_inner`, `atomic_deprecate_inner` and `atomic_revoke_inner`, with what the transaction reads of the clock.
pub data Operation : Type 0 where
  publish_op : ℕ → Uuid → Uuid → String → Operation
  deprecate_op revoke_op : ℕ → Uuid → Uuid → Operation

abbrev pub subject : Operation → Uuid
subject (publish_op now id actor digest) = id
subject (deprecate_op now id actor) = id
subject (revoke_op now id actor) = id

module _ {V : Type 0} where
  -- What an update that keeps the identifiers does to the row of a version.
  pub row_at-update :
      (p : WorkflowDefinitionVersionRow V → Bool)
      (f : WorkflowDefinitionVersionRow V → WorkflowDefinitionVersionRow V)
      → ((v : WorkflowDefinitionVersionRow V)
          → (f v).definition_version_id ≡ v.definition_version_id)
      → (rows : List (WorkflowDefinitionVersionRow V)) (id : Uuid)
      → find? (has_version_id id) (update_where p f rows)
        ≡ option_map (λ v. if p v then f v else v) (find? (has_version_id id) rows)
  row_at-update p f keeps [] id = refl
  row_at-update p f keeps (v ∷ rows) id = elim (Bool-cases (p v)) [
    | inl e ↦ ground (arith, e, keeps v, row_at-update p f keeps rows id)
    | inr e ↦ ground (arith, e, row_at-update p f keeps rows id)
  ]

  found-id :
      (rows : List (WorkflowDefinitionVersionRow V)) (id : Uuid)
      {v : WorkflowDefinitionVersionRow V}
      → find? (has_version_id id) rows ≡ some v
      → v.definition_version_id ≡ id
  found-id [] id h = cc
  found-id (w ∷ rows) id {v} h = elim (Bool-cases (w.definition_version_id == id)) [
    | inl e ↦
        let same : w ≡ v = cc (rw e at h) in
        sym (ap (λ (x : WorkflowDefinitionVersionRow V). x.definition_version_id) same)
        ∙ (==_iff w.definition_version_id id).0 e
    | inr e ↦ found-id rows id (rw e at h)
  ]

-- The statuses that an operation expects, the rows that its UPDATE selects and what it sets.
module _ {V : Type 0} where
  abbrev pub expected_by : Operation → WorkflowDefinitionVersionRow V → Bool
  expected_by (publish_op now id actor digest) v = has_status draft v
  expected_by (deprecate_op now id actor) v = has_status published v
  expected_by (revoke_op now id actor) v = has_status published v || has_status deprecated v

  abbrev pub selected_by : Operation → WorkflowDefinitionVersionRow V → Bool
  selected_by (publish_op now id actor digest) v = has_version_id id v && has_status draft v
  selected_by (deprecate_op now id actor) v = has_version_id id v
  selected_by (revoke_op now id actor) v = has_version_id id v

  abbrev pub set_by : Operation → WorkflowDefinitionVersionRow V → WorkflowDefinitionVersionRow V
  set_by (publish_op now id actor digest) v = set_published digest actor now v
  set_by (deprecate_op now id actor) v = set_deprecated actor now v
  set_by (revoke_op now id actor) v = set_revoked actor now v

abbrev pub actor_of : Operation → Uuid
actor_of (publish_op now id actor digest) = actor
actor_of (deprecate_op now id actor) = actor
actor_of (revoke_op now id actor) = actor

module _ {V : Type 0} where
  pub has_status-status :
      (s : DefinitionVersionStatus) (v : WorkflowDefinitionVersionRow V)
      → has_status s v ≡ true
      → s ≡ v.version_status
  has_status-status draft v h = ground arith
  has_status-status published v h = ground arith
  has_status-status deprecated v h = ground arith
  has_status-status revoked v h = ground arith

  -- An expected row is moved.
  pub set_by-Move :
      (op : Operation) (v : WorkflowDefinitionVersionRow V)
      → expected_by op v ≡ true
      → Move (v.version_status) ((set_by op v).version_status)
  set_by-Move (publish_op now id actor digest) v h =
      subst (λ s. Move s published) (has_status-status draft v h) publish
  set_by-Move (deprecate_op now id actor) v h =
      subst (λ s. Move s deprecated) (has_status-status published v h) deprecate
  set_by-Move (revoke_op now id actor) v h = elim (Bool-cases (has_status published v)) [
    | inl e ↦ subst (λ s. Move s revoked) (has_status-status published v e) revoke_published
    | inr e ↦
        subst (λ s. Move s revoked) (has_status-status deprecated v (rw e at h)) revoke_deprecated
  ]

  set_by-keeps :
      (op : Operation) (v : WorkflowDefinitionVersionRow V)
      → (set_by op v).definition_version_id ≡ v.definition_version_id
  set_by-keeps (publish_op now id actor digest) v = refl
  set_by-keeps (deprecate_op now id actor) v = refl
  set_by-keeps (revoke_op now id actor) v = refl

  -- An expected row is selected under its identifier, and no other row is.
  selected_by-subject :
      (op : Operation) (v : WorkflowDefinitionVersionRow V)
      → v.definition_version_id ≡ subject op
      → expected_by op v ≡ true
      → selected_by op v ≡ true
  selected_by-subject (publish_op now id actor digest) v same h =
      ground (arith, h, (==_iff v.definition_version_id id).1 same)
  selected_by-subject (deprecate_op now id actor) v same h =
      (==_iff v.definition_version_id id).1 same
  selected_by-subject (revoke_op now id actor) v same h = (==_iff v.definition_version_id id).1 same

  selected_by-other :
      (op : Operation) (v : WorkflowDefinitionVersionRow V)
      → v.definition_version_id ≢ subject op
      → selected_by op v ≡ false
  selected_by-other (publish_op now id actor digest) v other = ground arith
  selected_by-other (deprecate_op now id actor) v other = ground arith
  selected_by-other (revoke_op now id actor) v other = ground arith

  -- What an operation that commits writes.
  abbrev pub written : Operation → DefinitionDb V → DefinitionDb V
  written op = update_versions (selected_by op) (set_by op)

  -- The row of the version is set, and the rows of the others are kept.
  pub row_at-written :
      (op : Operation) (db : DefinitionDb V) {v : WorkflowDefinitionVersionRow V}
      → row_at db (subject op) ≡ some v
      → expected_by op v ≡ true
      → row_at (written op db) (subject op) ≡ some (set_by op v)
  row_at-written op db {v} found h =
      let selected = selected_by-subject op v (found-id db.versions (subject op) found) h in
      row_at-update (selected_by op) (set_by op) (set_by-keeps op) db.versions (subject op)
      ∙ rw (found, selected) refl

  pub row_at-others :
      (op : Operation) (db : DefinitionDb V) (other : Uuid)
      → other ≢ subject op
      → row_at (written op db) other ≡ row_at db other
  row_at-others op db other differ =
      row_at-update (selected_by op) (set_by op) (set_by-keeps op) db.versions other
      ∙ elim (Option-cases (row_at db other)) [
        | inl e ↦ rw e refl
        | inr (v, e) ↦
            let kept =
              selected_by-other op v (λ same. differ (sym (found-id db.versions other e) ∙ same)) in
            rw (e, kept) refl
      ]

  written-IsMove :
      (op : Operation) (db : DefinitionDb V) {v : WorkflowDefinitionVersionRow V}
      → row_at db (subject op) ≡ some v
      → expected_by op v ≡ true
      → IsMove (statuses_of db) (statuses_of (written op db)) (subject op)
  written-IsMove op db {v} found h = record {
    old = v.version_status;
    new = (set_by op v).version_status;
    moves = set_by-Move op v h;
    is_old = rw found refl;
    is_new = rw (row_at-written op db found h) refl;
    others =
        λ other differ. ap (option_map (λ v. v.version_status)) (row_at-others op db other differ);
  }

module _ (P : Platform) (fault : LifecycleFaults) where
  open P use {Value}

  -- The transaction of an operation, up to the commit, and with the row that is read again.
  abbrev pub body_of : Operation → DefinitionDb Value → LifecycleResult (DefinitionDb Value)
  body_of (publish_op now id actor digest) db = publish_body P fault db now id actor digest
  body_of (deprecate_op now id actor) db =
      status_body P fault db id actor (has_status published) (set_deprecated actor now)
  body_of (revoke_op now id actor) db =
      status_body P fault db id actor (λ v. has_status published v || has_status deprecated v)
        (set_revoked actor now)

  abbrev pub perform :
      Operation
      → DefinitionDb Value
      → LifecycleResult (WorkflowDefinitionVersionRow Value) × DefinitionDb Value
  perform (publish_op now id actor digest) db = atomic_publish_inner P fault db now id actor digest
  perform (deprecate_op now id actor) db = atomic_deprecate_inner P fault db now id actor
  perform (revoke_op now id actor) db = atomic_revoke_inner P fault db now id actor

  pub perform-reread :
      (op : Operation) (db : DefinitionDb Value)
      → perform op db ≡ reread P fault db (subject op) (body_of op db)
  unfolding atomic_publish_inner atomic_deprecate_inner atomic_revoke_inner
  perform-reread (publish_op now id actor digest) db = refl
  perform-reread (deprecate_op now id actor) db = refl
  perform-reread (revoke_op now id actor) db = refl

  -- A transaction that commits was permitted, and wrote its rows.
  pub body_of-ok :
      (op : Operation) (db : DefinitionDb Value) {new : DefinitionDb Value}
      → body_of op db ≡ ok new
      → (v : WorkflowDefinitionVersionRow Value) × (d : _) × IsPermitted db
          (subject op)
          (actor_of op)
          (expected_by op)
          v
          d
        × (new ≡ written op db)
  body_of-ok (publish_op now id actor digest) db h =
      let (v, d, permitted, _, wrote) = publish_body-ok P fault db now id actor digest h in
      (v, d, permitted, wrote)
  body_of-ok (deprecate_op now id actor) db h = status_body-ok P fault db id actor _ _ h
  body_of-ok (revoke_op now id actor) db h = status_body-ok P fault db id actor _ _ h

  -- The tables after an operation are those before, or what a permitted operation writes.
  pub perform-cases :
      (op : Operation) (db : DefinitionDb Value)
      → ((perform op db).1 ≡ db)
        ⊎ ((v : WorkflowDefinitionVersionRow Value) × (d : _) × IsPermitted db
              (subject op)
              (actor_of op)
              (expected_by op)
              v
              d
            × ((perform op db).1 ≡ written op db))
  unfolding reread
  perform-cases op db = elim (Result-cases (body_of op db)) [
    | inl (e, h) ↦ inl (rw (perform-reread op db, h) refl)
    | inr (new, h) ↦
        let (v, d, permitted, wrote) = body_of-ok op db h in
        inr (v, d, permitted, rw (perform-reread op db, h) wrote)
  ]

  -- Seen as a map from versions to statuses, every operation, with any failing statements, either
  -- changes nothing or makes one move of the lifecycle, of the version that it names.
  pub perform-IsMove :
      (op : Operation) (db : DefinitionDb Value)
      → (statuses_of (perform op db).1 ≡ statuses_of db)
        ⊎ IsMove (statuses_of db) (statuses_of (perform op db).1) (subject op)
  perform-IsMove op db = elim (perform-cases op db) [
    | inl same ↦ inl (ap statuses_of same)
    | inr (v, d, permitted, wrote) ↦ inr (
        subst (λ after. IsMove (statuses_of db) (statuses_of after) (subject op)) (sym wrote)
          (written-IsMove op db permitted.version_found permitted.version_expected))
  ]
