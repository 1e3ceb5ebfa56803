-- ===== src/Replay/Fold/Introduced.antt =====
-- What a replay that succeeds says of the visits, contexts and submissions.
use svc_workflow_kernel.Prelude.{
  ℕ, suc, ◌≡◌, refl, sym, subst, ap, ◌∙◌, Option, none, some, Bool, true, false, not, ◌||◌, List,
  [], ◌∷◌, ◌++◌, length, is_empty, contains, get, get-append, ◌==◌, ==_iff, arith, String,
  if◌then◌else◌, Bool-cases, inl, inr, get-member, All-of,
}
use svc_workflow_kernel.Prelude.Result.{ok, err_if, question-ok, ok_inj, err_if-false, ok_or-some}
use svc_workflow_kernel.Platform.{Platform}
use svc_workflow_kernel.Definition.Model.{Uuid}
use svc_workflow_kernel.Store.{I32}
use svc_workflow_kernel.Replay.Facts.{
  InstanceRow, ContextFact, VisitFact, SubmissionFact, TransitionFact, EventFact,
  WorkflowProjection,
}
use svc_workflow_kernel.Replay.State.{Replay, new_replay, visit, visit_count, checked_next}
use svc_workflow_kernel.Replay.Fold.{replay_from, finish, projection_of, size, replay}
use svc_workflow_kernel.Replay.Fold.Preserved.{
  IsPreserved, introduce_context-ok, introduce_submission-ok, introduce_visit-ok, replay_from-keeps,
}

-- No identifier occurs twice.
abbrev pub Distinct : List Uuid → Type 0
Distinct [] = Unit
Distinct (id ∷ ids) = (contains ids id ≡ false) × Distinct ids

-- The current identifier, if there is one, is among the introduced ones.
abbrev pub IsAmong : List Uuid → Option Uuid → Type 0
IsAmong ids none = Unit
IsAmong ids (some id) = contains ids id ≡ true

-- How many of these visits are visits of a node.
abbrev pub visits_of : List (Uuid × VisitFact) → Uuid → List Uuid → ℕ
visits_of facts node [] = 0
visits_of facts node (id ∷ ids) =
    let rest = visits_of facts node ids in
    elim (get facts id) [ none ↦ rest | some v ↦ if v.node_id == node then suc rest else rest ]

-- Each visit, the newest first, has as its number the place it takes among the visits of its node.
abbrev pub Numbered : List (Uuid × VisitFact) → List Uuid → Type 0
Numbered facts [] = Unit
Numbered facts (id ∷ ids) =
    ((v : VisitFact) × (get facts id ≡ some v)
      × (v.visit_number ≡ suc (visits_of facts v.node_id ids)))
    × Numbered facts ids

-- The keys of the map are the identifiers of its visits.
abbrev pub IsKeyed : List (Uuid × VisitFact) → Type 0
IsKeyed facts = (id : Uuid) (v : VisitFact) → get facts id ≡ some v → v.node_visit_id ≡ id

-- The introduced identifiers differ, and the current one is among them.
abbrev pub IsKnown : List Uuid → Option Uuid → Type 0
IsKnown ids current = Distinct ids × IsAmong ids current

-- The counts of the visits agree with the visits that were introduced.
abbrev pub IsCounted : {V : Type 0} → Replay V → Type 0
IsCounted r = (node : Uuid) → visit_count r node ≡ visits_of r.visits node r.introduced_visits

abbrev pub IsIntroduced : {V : Type 0} → Replay V → Type 0
IsIntroduced r =
    IsKnown r.introduced_contexts r.current_context
    × IsKnown r.introduced_visits r.current_visit
    × Distinct r.introduced_submissions
    × Numbered r.visits r.introduced_visits
    × IsKeyed r.visits
    × IsCounted r

IsAmong-cons :
    (ids : List Uuid) (id : Uuid) (o : Option Uuid) → IsAmong ids o → IsAmong (id ∷ ids) o
IsAmong-cons ids id none h = tt
IsAmong-cons ids id (some a) h = ground (arith, h)

checked_next-suc : (n : I32) {m : I32} → checked_next n ≡ some m → m ≡ suc n
checked_next-suc n h = ground arith

module _ {V : Type 0} where
  visit-get :
      (r : Replay V) (id : Option Uuid) {v : VisitFact}
      → visit r id ≡ ok v
      → (key : Uuid) × (get r.visits key ≡ some v)
  visit-get r none h = cc
  visit-get r (some key) h = (key, ok_or-some (get r.visits key) _ h)

  -- The state after a visit was introduced.
  abbrev with_visit : Replay V → VisitFact → Replay V
  with_visit r v = record r {
    introduced_visits = v.node_visit_id ∷ r.introduced_visits;
    visit_counts = r.visit_counts ++ ((v.node_id, v.visit_number) ∷ []);
  }

  count-same :
      (r : Replay V) (v : VisitFact) (node : Uuid)
      → (v.node_id == node) ≡ true
      → visit_count (with_visit r v) node ≡ v.visit_number
  count-same r v node e =
      ground (arith, get-append r.visit_counts ((v.node_id, v.visit_number) ∷ []) node, e)

  count-other :
      (r : Replay V) (v : VisitFact) (node : Uuid)
      → (v.node_id == node) ≡ false
      → visit_count (with_visit r v) node ≡ visit_count r node
  count-other r v node e =
      ground (arith, get-append r.visit_counts ((v.node_id, v.visit_number) ∷ []) node, e)

  -- One more visit of its node, and none of the others.
  counted-introduced :
      (r : Replay V) (v : VisitFact) (node : Uuid)
      → get r.visits v.node_visit_id ≡ some v
      → v.visit_number ≡ suc (visit_count r v.node_id)
      → visit_count r node ≡ visits_of r.visits node r.introduced_visits
      → visit_count (with_visit r v) node
        ≡ visits_of r.visits node (v.node_visit_id ∷ r.introduced_visits)
  counted-introduced r v node found number counted = elim (Bool-cases (v.node_id == node)) [
    | inl e ↦
        let same = (==_iff v.node_id node).0 e in
        count-same r v node e
        ∙ number
        ∙ ap (λ n. suc (visit_count r n)) same
        ∙ ap suc counted
        ∙ sym (visits-same r v node found e)
    | inr e ↦ count-other r v node e ∙ counted ∙ sym (visits-other r v node found e)
  ]
    where
      visits-same :
          (r : Replay V) (v : VisitFact) (node : Uuid)
          → get r.visits v.node_visit_id ≡ some v
          → (v.node_id == node) ≡ true
          → visits_of r.visits node (v.node_visit_id ∷ r.introduced_visits)
            ≡ suc (visits_of r.visits node r.introduced_visits)
      visits-same r v node found e = ground (arith, found, e)

      visits-other :
          (r : Replay V) (v : VisitFact) (node : Uuid)
          → get r.visits v.node_visit_id ≡ some v
          → (v.node_id == node) ≡ false
          → visits_of r.visits node (v.node_visit_id ∷ r.introduced_visits)
            ≡ visits_of r.visits node r.introduced_visits
      visits-other r v node found e = ground (arith, found, e)

  IsIntroduced-IsPreserved : IsPreserved {V = V} IsIntroduced
  IsIntroduced-IsPreserved = record {
    by_context = λ r c next h (contexts, visits, submissions, numbered, keyed, counted).
        let (fresh, made) = introduce_context-ok r c h in
        subst IsIntroduced (sym made) (
          (
            (fresh, contexts.0),
            IsAmong-cons r.introduced_contexts c.context_revision_id r.current_context contexts.1,
          ),
          visits,
          submissions,
          numbered,
          keyed,
          counted,
        );
    by_submission = λ r s next h (contexts, visits, submissions, numbered, keyed, counted).
        let (fresh, made) = introduce_submission-ok r s h in
        subst IsIntroduced (sym made)
          (contexts, visits, (fresh, submissions), numbered, keyed, counted);
    by_visit = λ r id v next found h (contexts, visits, submissions, numbered, keyed, counted).
        let (fresh, checked, made) = introduce_visit-ok r v h in
        let (key, there) = visit-get r id found in
        let here = subst (λ k. get r.visits k ≡ some v) (sym (keyed key v there)) there in
        let number = checked_next-suc (visit_count r v.node_id) checked in
        subst IsIntroduced (sym made) (
          contexts,
          (
            (fresh, visits.0),
            IsAmong-cons r.introduced_visits v.node_visit_id r.current_visit visits.1,
          ),
          submissions,
          ((v, here, number ∙ ap suc (counted v.node_id)), numbered),
          keyed,
          λ node. counted-introduced r v node here number (counted node),
        );
    set_context = λ r id there (contexts, visits, submissions, numbered, keyed, counted).
        ((contexts.0, there), visits, submissions, numbered, keyed, counted);
    set_visit = λ r id there (contexts, visits, submissions, numbered, keyed, counted).
        (contexts, (visits.0, there), submissions, numbered, keyed, counted);
    set_version = λ r n q. q;
  }

-- How a replay that succeeds ends.
pub record EndsIn {V : Type 0} (last : Replay V) (p : WorkflowProjection) : Type 0 where
  pub context_is : p.current_context_revision_id ≡ last.current_context
  pub visit_is : p.current_node_visit_id ≡ last.current_visit
  pub introduced : IsIntroduced last

module _ (P : Platform) where
  open P use {Value}

  finish-ok :
      (last : Replay Value) {p : WorkflowProjection}
      → finish P last ≡ ok p
      → (p ≡ projection_of P last)
        × (length last.introduced_contexts ≡ size P last.contexts)
        × (length last.introduced_visits ≡ size P last.visits)
        × (length last.introduced_submissions ≡ size P last.submissions)
  unfolding finish
  finish-ok last h =
      let contexts = length last.introduced_contexts == size P last.contexts in
      let visits = length last.introduced_visits == size P last.visits in
      let submissions = length last.introduced_submissions == size P last.submissions in
      let (_, all_there, h) =
        question-ok (err_if (not contexts || (not visits || not submissions)) _) _ h in
      let (c, v, s) =
        three contexts visits submissions
          (err_if-false (not contexts || (not visits || not submissions)) _ all_there) in
      (
        sym (ok_inj h),
        (==_iff (length last.introduced_contexts) (size P last.contexts)).0 c,
        (==_iff (length last.introduced_visits) (size P last.visits)).0 v,
        (==_iff (length last.introduced_submissions) (size P last.submissions)).0 s,
      )
    where
      three :
          (a b c : Bool)
          → (not a || (not b || not c)) ≡ false
          → (a ≡ true) × (b ≡ true) × (c ≡ true)
      three true true true h = (refl, refl, refl)
      three true true false h = cc
      three true false c h = cc
      three false b c h = cc

  -- In a replay that succeeds, each context, visit and submission is introduced by one event only,
  -- as many of each are introduced as there are facts, the current context and the current visit
  -- are among the introduced ones, and each visit is numbered by its place among the visits of its
  -- node.
  pub replay-IsIntroduced :
      (i : InstanceRow) (digest : Option String) (contexts : List (ContextFact Value))
      (visits : List VisitFact) (submissions : List (SubmissionFact Value))
      (transitions : List TransitionFact) (events : List (EventFact Value)) {p : WorkflowProjection}
      → replay P i digest contexts visits submissions transitions events ≡ ok p
      → (last : Replay Value) × (replay_from P
            (new_replay i digest contexts visits submissions transitions)
            0
            events
          ≡ ok last)
        × EndsIn last p
        × (length last.introduced_contexts ≡ size P last.contexts)
        × (length last.introduced_visits ≡ size P last.visits)
        × (length last.introduced_submissions ≡ size P last.submissions)
  unfolding replay
  replay-IsIntroduced i digest contexts visits submissions transitions events {p} h =
      let start = new_replay i digest contexts visits submissions transitions in
      let (_, some_event, h) = question-ok (err_if (is_empty events) _) _ h in
      let (last, replayed, h) = question-ok (replay_from P start 0 events) _ h in
      let (made, c, v, s) = finish-ok last h in
      let keyed : IsKeyed start.visits = λ id v found.
        (get-member (λ (f : VisitFact). f.node_visit_id) (λ f. Unit {0}) visits id
          (All-of (λ f. Unit {0}) (λ f. tt) visits) found).1 in
      let sound =
        replay_from-keeps P IsIntroduced IsIntroduced-IsPreserved start 0 events replayed
          ((tt, tt), (tt, tt), tt, tt, keyed, λ node. refl) in
      (
        last,
        replayed,
        record {
          context_is = ap (λ (x : WorkflowProjection). x.current_context_revision_id) made;
          visit_is = ap (λ (x : WorkflowProjection). x.current_node_visit_id) made;
          introduced = sound;
        },
        c,
        v,
        s,
      )
