-- ===== src/Lib.antt =====
-- Laminaria: the owned IR with its interpreter, validator and inlining transforms, the lifecycle of
-- dependency obligations up to the publication of an artifact, and the scheduler that admits physical
-- work to a machine's resources and commits its outputs.
--
-- The library of crates/laminaria-ir/src: Ir/Types and Ir/Locals are types.rs (Expr, Stmt, FnFact,
-- Program, max_local_id_in_stmt). Ir/Interpreter is interpreter.rs (eval_function, eval_stmt,
-- eval_expr, the call trace); Ir/Validate is validate.rs (validate_program and its parts). Ir/Transform
-- has transform/mod.rs in Rename, Occurrences and Rewrite, transform/anf_insert.rs in AnfInsert and
-- transform/checked_inline.rs in CheckedInline. The proofs are in Ir/Interpreter, Ir/Validate, Ir/Safety
-- and Ir/Transform/Preserve. A list of arguments is a data type of its own beside the expressions. An
-- i32 is an integer with the wrap-around of 2^32 written out. The id of a local is a u32: the counter of
-- fresh ids wraps at 2^32 (with overflow checks the source panics there), and the proofs about the
-- inlining compare it with a counter that does not, in Ir/Transform/Preserve/Room and Walked.
--
-- The library of crates/laminaria-plan/src: Plan/Obligations has the obligations, the actions and the two
-- transitions of dependency_graph.rs; Plan/Lifecycle has obligation_lifecycle.rs: Types, Checks
-- (validate_operation, new), Reachable (reachable_obligations), History (append_transition), Resolve
-- (record_resolution), Operate (record_operation, record_runtime_operation, externalize_runtime,
-- prove_irrelevant) and Publication (publication_manifest). A method that takes &mut self returns the
-- graph it leaves behind, on an error too. Steps has the calls as one type and the graphs they lead
-- to; Keeps and Kept carry an invariant through all of them. Promise has what publication demands,
-- stated without the gate, Demanded the ids that a demand needs; Explaining, Publishable and Turns are
-- about the gate and its walk.
--
-- The library of crates/laminaria-run/src: Run has resource_scheduler.rs, on the vocabulary of
-- crates/laminaria-plan/src/physical_work.rs in Plan/PhysicalWork. Run/Resources has ResourceAmount and
-- its checked sums, Run/Commit has CommitStore, with the SHA-256 of a byte sequence as a parameter.
-- Run/Scheduler has ResourceScheduler: Types (instances, states, errors, the scheduler), State
-- (set_state, release, pending_dependencies), Admit (admit_ready), Operations (stage_outputs, commit,
-- fail, cancel, cancel_descendants), Start and Cycle (new and has_dependency_cycle) and Execute
-- (execute_physical_work_graph). A call is a step from a scheduler to a value or an error with the
-- scheduler left behind, or to a panic (a missing key under an index, a debug_assert! that fails), or
-- to the end of its fuel. Steps has the calls as one type and the schedulers they lead to from new;
-- Valid has the invariant, Change what keeps it, and Ends, Admitting, Releasing, Cancelling, Ending,
-- Committing, Starting, Beginning and New carry it through the calls to the theorems of Guarantees and
-- Refusing; Reserving is about the checks of an instance. Run/Commit has the proofs about the store in
-- Targets, Agree, Batch, Calls and Visible.
-- The cancellation of descendants is a loop on fuel: each instance is cancelled at most once, and the
-- fuel is the length of the queue, the product of the number of instances and of consumers, and one.
-- The search for a cycle takes as much fuel as there are instances, and one, since a nested visit adds
-- an instance to those being visited; so does the execution loop, each turn of which ends an instance.
-- For these two loops no theorem states that the fuel is enough. The sequence number of a transition
-- wraps at 2^64.
--
-- A BTreeMap with string keys is an association list in key order, a set that is only asked for
-- members is a list. The interpreted program may recurse without end, so eval_function takes fuel, and
-- running out of it is a result apart from the errors. The walk over the obligations takes as much fuel
-- as there are initial ids and dependency entries.
--
-- Not modelled: the frontends and the discovery of sources, the machine-code and wasm backends, the
-- resolution that builds a closure, the contract of physical work and its bridge from an execution
-- plan, the planner's process, the execution of actions, fingerprints, experiments and the command
-- line. Serialization and the texts of errors are left out.
pub mod Prelude
pub mod Ir
pub mod Plan
pub mod Run
