-- ===== src/Lib.antt =====
-- svc-workflow-kernel: workflow definitions as graphs of nodes and transitions, and the transaction
-- that moves an instance along a transition. The development models five parts of the service.
--
-- The graph validator decides whether a definition may be published. It works on a graph that is
-- read from the tables, and its errors go back to the author of the draft.
--   Definition/Model     src/domain/definition/model.rs, error.rs: nodes, transitions, errors
--   Definition/Reachable src/domain/definition/graph_helpers.rs: `compute_directed_reachable`
--   Definition/Graph     src/domain/definition/graph/mod.rs: `validate_graph`, with a module for each
--     group of rules (Nodes, Assignees, References, Trunk, Effects) named after the functions of
--     validation.rs, assignee_validation.rs and transition_validation.rs; Rules has the declarative
--     rules, Exact, Ends, TrunkWalk and CycleWalk the proofs
-- The transaction executes a transition of a published definition. It reads the definition's tables
-- and changes the runtime's, and its receipts make a command idempotent.
--   Enums, Enums/Texts   src/domain/enums.rs, and its texts
--   Platform             the third-party operations on JSON values, digests and UUID texts, as a
--     record of parameters; `ReadsBack` is what the receipts rely on
--   Store                the tables and the statements, with a schedule of the statements that fail
--   Transition/Error     `ExecuteWorkflowTransitionError` of src/domain/workflow_instance/errors.rs,
--     its stored bodies, and `replayed_failure_error` of
--     src/application/workflow_instance/execute_transition.rs
--   Transition/Command, Receipt, Reads, Submission, Checks, Facts, Execute
--     src/store/postgres/workflow_instance_repository/transition_*.rs: functions have the source's
--     names; the long body of `execute_workflow_transition_atomically` is cut into
--     `open_transaction`, `dispatch`, `check_caller`, `check_transition`, `check_submission`,
--     `write_facts` and `conclude`, in the order of its steps
--   Transition/History   such transactions one after the other, and what stays true of the tables
-- The lifecycle publishes a version once its graph is valid, and deprecates or revokes it later.
--   Lifecycle/Error, Rows, Repository
--     src/store/postgres/definition_repository: lifecycle_transactions.rs, error_mapping.rs, the
--     reads of graph_read.rs, definition_crud.rs and authorization_queries.rs, and the rows of
--     src/store/postgres/repository_rows.rs; the steps that the transactions share are
--     `lock_with_status`, `read_definition`, `check_domain_owner` and `write_versions`
--   Lifecycle/Digest     src/domain/definition/digest.rs: `compute_digest`
--   Lifecycle/Schemas    the check of references in src/application/definition/lifecycle/validation.rs
--   Lifecycle/Publish    publish.rs, status_changes.rs and the rest of validation.rs there
--   Lifecycle/Machine    the abstract lifecycle, which the transactions refine; Lifecycle/History has
--     sequences of operations
-- The replay rebuilds an instance's projection from its events, those of the transition among them.
--   Replay/Facts, Fields, Import, State, Apply, Fold
--     src/store/postgres/admin_recovery_repository: rows.rs, event_fields.rs, import_event.rs and
--     event_replay.rs; Replay/Agrees joins the event that a transition writes to its replay
--   Replay/Snapshot      snapshot.rs there: the checks of the facts before a replay, and of the digest
--     that a command expects
-- The recovery commands, which replay, store their outcome in receipts as a transition does.
--   Recovery/Error       src/domain/workflow_instance/recovery.rs and, with Recovery/Receipt,
--     src/store/postgres/admin_recovery_repository/receipt.rs, without the security audits
--   Recovery/Authorization  authorization.rs there, over rows that hold the columns it reads
--
-- Identifiers are the numbers of their 128 bits, drawn identifiers are arguments, a table is the
-- list of its rows. Transactions run one at a time: their interleaving, which the source orders by
-- row locks, is not modelled. An `i32` version is its bit pattern, with the wrap-around written
-- out. A statement that a fault refuses gives its storage error; constraints and triggers of the
-- database act as such faults. The search of Definition/Reachable gives its loop three steps more
-- than there are transitions, and the walk for cycles three more than there are nodes: both are
-- proved enough. The walk along the trunk runs on fuel that is an argument, since in the source it
-- need not end. The order in which a map yields its keys is an argument too. Between the statements
-- of `publish_version` that stand outside its transaction, other transactions may commit: each of
-- them sees tables of its own. A query with ORDER BY is a stable sort of the table's rows.
--
-- Not modelled: the other commands (creation, revision, import, the recovery transactions that use
-- the replay and its receipts), drafts and their replacement, queries, the HTTP interface and
-- authentication, the request hash (an argument), columns that the modelled code neither reads nor
-- writes, the text of the error that answers an unknown stored failure, and the messages of graph
-- errors, which are kept as their code and the key that they name.

pub mod Prelude
pub mod Enums
pub mod Definition
pub mod Platform
pub mod Store
pub mod Transition
pub mod Lifecycle
pub mod Replay
pub mod Recovery
