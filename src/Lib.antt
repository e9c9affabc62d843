-- ===== src/Lib.antt =====
-- The agent pipeline that turns a GitHub issue into worker branches, modelled from its Python code.
--
-- A planning workflow (a LangGraph graph) turns an issue into a brief, a repository map and an
-- implementation plan, and waits for a human's decision. An approved run is exported as a handoff to
-- Chief, the coordinator, which makes one ticket of each plan step, gives the tickets to workers in
-- Git worktrees, gates the results that come back, and reports when a human can integrate them.
-- Chief keeps all of it in a SQLite file.
--
-- The files, and the code each is about:
-- - Prelude: texts, lists, results and sorting, shared by all. A text is the list of its code points;
--   an exception is a value of Error.
-- - Schemas: the pydantic models of src/schemas, each a record with its fields, and each validator a
--   function of its name. A field bound that a type of ours already has (an enumeration) is not
--   written again.
-- - Workflow: State is src/agents/graph/state.py, Nodes the four nodes (issue_analyst_node,
--   repository_explorer_node, implementation_planner_node, plan_approval_node), Routing
--   src/agents/graph/routing.py, Graph the edges of build_workflow as a step relation, and Handoff
--   build_planner_handoff of src/agents/handoff.py. Coherent and Export hold the proofs. What a
--   language model or a human answers is an argument of a step, so the proofs hold for all answers.
-- - Service: RunService of src/api/service.py over the workflow. The graph's nodes of one call run on
--   fuel 3, since at most three nodes run before the graph rests.
-- - Tickets: tasks_from_handoff of src/agents/to_tickets.py.
-- - Paths: PurePosixPath and fnmatch, as far as the code relies on them: parts, printing, and the
--   match of Python 3.12, which is from the right and case sensitive. Paths/Glob cuts a pattern into
--   pieces on fuel; a piece takes at least one character, so the pattern's length is enough.
-- - Guard: WorktreeGuard of src/agents/tools/runtime_tools.py: its path rules, and Ownership for
--   verify_ownership. What Git and the file system answer is the parameter Machine; whether a path is a
--   link and where it resolves is the parameter Tree.
-- - Runtime: RuntimeToolService of the same file. Tool is what one call does: it returns or raises, and
--   the service keeps its audit events, its Skill traces and what was done to the worktree either way.
--   Approval and Patch are apply_file_patch, with Diff for the reading of patches; Check and Run are
--   run_check with its output loop; Scope and Git are the Git tools; Service is record_skill_trace,
--   Calls any sequence of calls. Guarded, Committed, Started, Captured, Finished and Traces hold the
--   proofs. What Git, the file system and a started process answer during one call is a parameter
--   (World, Repository, Launcher), and so is the decoding of bytes. The edit lock lets one patch run
--   at a time. A text has no lone surrogates, and a process that has closed its streams exits in time.
-- - Explore: the tools of src/agents/tools/repository_tools.py. Access holds their bounds and the
--   resolution of paths, Read and Search the tools; Confined, Exact and Bounded the proofs. What the
--   file system, ripgrep and Git answer is the parameter Checkout. A number below zero does what zero
--   does there.
-- - Gate: SkillTraceGate.check of src/agents/worker_protocol.py.
-- - Store: ChiefStateStore of src/agents/state_store.py. Table is the upsert of SQLite, Database the
--   tables, the file and the transaction of _connection, Operations the methods that write, Queries
--   those that read. A method runs at one time `now`; SQLite's visiting order of rows, where a
--   statement does not order them, is the parameter Engine.
-- - Chief: ChiefCoordinator of src/agents/chief.py: Report and Summary are
--   integration_report, Session the methods that take a handoff and a result, Board and Delegate those that give tickets to
--   workers, over the store, the files they write and the catalog of skills; Setting holds their
--   parameters. A method makes several calls of the store, and call `i` runs at the time `clock i`;
--   what it wrote before it raises stays written.
-- - Skills: SkillCatalog of src/agents/skill_catalog.py, and the two files that it writes for a worker.
-- - Queue: WorkerQueue of src/agents/worker_queue.py. The two queue files are the texts that are stored;
--   a read translates newlines as `read_text` does, and a write stores them as they are (on POSIX).
-- - Lifecycle: WorkerLifecycleManager of src/agents/lifecycle.py. How a process was started, how it
--   ended and what its result file holds are arguments.
-- - Worktrees: WorktreeManager of src/agents/worktrees.py. The Git commands and the file system are
--   the parameter Git.
-- - Examples: concrete runs.
--
-- Numbers are printed on fuel (Prelude/Str): a number has at most as many digits as its value plus
-- one. Apart from numbers, globs and the calls of the graph, all recursions are structural.
--
-- Not modelled: the prompts and chains of the language models, the environment a check runs in and
-- how it is killed, the worker processes themselves, the structural overview of a repository, the
-- tools that read Python syntax and GitHub, the routes of the HTTP interface and the command line.
-- JSON columns of the store hold the models themselves.
pub mod Prelude
pub mod Schemas
pub mod Tickets
pub mod Workflow
pub mod Paths
pub mod Guard
pub mod Gate
pub mod Store
pub mod Chief
pub mod Queue
pub mod Lifecycle
pub mod Worktrees
pub mod Runtime
pub mod Explore
pub mod Skills
pub mod Service
pub mod Examples
