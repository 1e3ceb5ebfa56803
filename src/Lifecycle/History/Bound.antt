-- ===== src/Lifecycle/History/Bound.antt =====
-- A version is moved at most three times.
use svc_workflow_kernel.Prelude.{
  ℕ, ◌+◌, ◌≤◌, ◌≡◌, sym, subst, inl, inr, Option, none, some, Bool, true, false, ◌&&◌, List, [],
  ◌∷◌, ◌==◌, ==_iff, arith, Bool-cases,
}
use svc_workflow_kernel.Prelude.Result.{ok, err, Result-cases}
use svc_workflow_kernel.Platform.{Platform}
use svc_workflow_kernel.Enums.{DefinitionVersionStatus}
use svc_workflow_kernel.Definition.Model.{Uuid}
use svc_workflow_kernel.Lifecycle.Rows.{
  WorkflowDefinitionVersionRow, DefinitionDb, LifecycleFaults, LifecycleResult,
}
use svc_workflow_kernel.Lifecycle.Repository.{reread}
use svc_workflow_kernel.Lifecycle.Repository.Passed.{row_at}
use svc_workflow_kernel.Lifecycle.Machine.{
  Move, publish, deprecate, revoke_published, revoke_deprecated, Operation, subject, expected_by,
  written, perform, perform-reread, body_of, body_of-ok, row_at-written, row_at-others, set_by-Move,
}
use svc_workflow_kernel.Lifecycle.History.{Attempt, rank}

abbrev is_ok : {A : Type 0} → LifecycleResult A → Bool
is_ok (ok a) = true
is_ok (err e) = false

abbrev one_if : Bool → ℕ
one_if true = 1
one_if false = 0

-- A version that is not there can move no further.
abbrev pub rank_of : {V : Type 0} → Option (WorkflowDefinitionVersionRow V) → ℕ
rank_of none = 3
rank_of (some v) = rank v.version_status

Move-rank : {s t : DefinitionVersionStatus} → Move s t → 1 + rank s ≤ rank t
Move-rank publish = omega arith
Move-rank deprecate = omega arith
Move-rank revoke_published = omega arith
Move-rank revoke_deprecated = omega arith

and-false : (b : Bool) (r : ℕ) → one_if (b && false) + r ≤ r
and-false true r = omega arith
and-false false r = omega arith

rank_of-bound : {V : Type 0} (o : Option (WorkflowDefinitionVersionRow V)) → rank_of o ≤ 3
rank_of-bound none = omega arith
rank_of-bound (some v) = at (v.version_status)
  where
    at : (s : DefinitionVersionStatus) → rank s ≤ 3
    at DefinitionVersionStatus.draft = omega arith
    at DefinitionVersionStatus.published = omega arith
    at DefinitionVersionStatus.deprecated = omega arith
    at DefinitionVersionStatus.revoked = omega arith

module _ (P : Platform) where
  open P use {Value}

  -- Whether an operation on the version commits.
  abbrev pub commits : Uuid → Operation → LifecycleFaults → DefinitionDb Value → Bool
  commits id op fault db = (id == subject op) && is_ok (body_of P fault op db)

  abbrev pub count_commits : Uuid → List Attempt → DefinitionDb Value → ℕ
  count_commits id [] db = 0
  count_commits id ((op, fault) ∷ rest) db =
      one_if (commits id op fault db) + count_commits id rest (perform P fault op db).1

  written-rank :
      (op : Operation) (db : DefinitionDb Value) (v : WorkflowDefinitionVersionRow Value)
      → row_at db (subject op) ≡ some v
      → expected_by op v ≡ true
      → 1 + rank_of (row_at db (subject op)) ≤ rank_of (row_at (written op db) (subject op))
  written-rank op db v found h =
      rw (found, row_at-written op db found h) (Move-rank (set_by-Move op v h))

  commits-rank :
      (id : Uuid) (op : Operation) (fault : LifecycleFaults) (db : DefinitionDb Value)
      → one_if (commits id op fault db) + rank_of (row_at db id)
        ≤ rank_of (row_at (perform P fault op db).1 id)
  unfolding reread
  commits-rank id op fault db = elim (Result-cases (body_of P fault op db)) [
    | inl (e, h) ↦
        rw (perform-reread P fault op db, h) (and-false (id == subject op) (rank_of (row_at db id)))
    | inr (new, h) ↦
        let (v, d, permitted, wrote) = body_of-ok P fault op db h in
        rw (perform-reread P fault op db, h, wrote)
          (elim (Bool-cases (id == subject op)) [
            | inl e ↦ rw e (
                subst (λ i. 1 + rank_of (row_at db i) ≤ rank_of (row_at (written op db) i))
                  (sym ((==_iff id (subject op)).0 e))
                  (written-rank op db v permitted.version_found permitted.version_expected))
            | inr e ↦
                rw (e, row_at-others op db id (λ same. cc ((==_iff id (subject op)).1 same)))
                  (omega arith)
          ])
  ]

  count_commits-rank :
      (id : Uuid) (attempts : List Attempt) (db : DefinitionDb Value)
      → count_commits id attempts db + rank_of (row_at db id) ≤ 3
  count_commits-rank id [] db = let bound = rank_of-bound (row_at db id) in omega arith
  count_commits-rank id ((op, fault) ∷ rest) db =
      let step = commits-rank id op fault db in
      let tail = count_commits-rank id rest (perform P fault op db).1 in omega arith

  -- Over any sequence of lifecycle operations, with any failing statements, at most three of the
  -- operations on one version commit.
  pub count_commits-bound :
      (id : Uuid) (attempts : List Attempt) (db : DefinitionDb Value)
      → count_commits id attempts db ≤ 3
  count_commits-bound id attempts db =
      let counted = count_commits-rank id attempts db in omega arith
