-- ===== src/Lib.antt =====
-- STEWARD (src/local_steward): a read-mostly steward of local files. A Run has a status, and every
-- change of it is first written as an immutable Evidence file and then indexed in a database.
-- A Snapshot is a list of file system entries that was recorded as Evidence; the analyses (diff,
-- change events, relations, duplicates) are pure functions of one or two Snapshots.
--
-- Files, and the code that each one models:
--   Base: shared types, equality, orders, sorting, dicts, groupings and the lemmas on them. A text is
--     the list of its code points, a dict an association list in insertion order, `sorted` a stable
--     sort, an exception the `err` of a Result.
--   Models: the enumerations and records of src/local_steward/models.py, and of the two models.py of
--     agent_session and agent_authority.
--   StateMachine: state_machine.py. StateMachine/Paths holds the paths through the graph.
--   Evidence: evidence.py without the configuration digest. Evidence/Naming holds `filename` and the
--     pattern of the loader, Evidence/Loading `load_run_files`. Evidence/Writing is about what a write
--     does to the files, Evidence/Adding about what it adds, Evidence/Loaded, Evidence/Reported and
--     Evidence/Accounting about what the loader gives back. A file holds a document, other JSON, no
--     JSON or no UTF-8; the temporary files of a write are left out.
--   Runs: runs.py and the checkpoints of faults.py. Runs/Creating holds `create_run` and `list_runs`,
--     Runs/Invariant the soundness of a storage (Runs/Invariant/Committing what a commit adds to it,
--     Runs/Invariant/Keeping the calls), Runs/Stopping and Runs/Orphans what an interrupted call
--     leaves, Runs/Histories the sequences of calls, Runs/Numbering and Runs/Directories what the
--     loader finds of them.
--   Diff: snapshot_diff.py (`compute_snapshot_diff`). Changes: change_semantics.py.
--   Paths: paths.py (`contains`, `overlaps`, the aliases of macOS). Scopes: scopes.py, with the
--     protected paths of constants.py.
--   Relations: snapshot_relations.py (`compute_snapshot_relations`). Relations/Items holds the records
--     and their canonical form, Relations/Payload the tests on one entry, Relations/Locations the
--     relations at one location, Relations/Transitions those between two locations.
--   Duplicates: duplicate_analysis.py (`compute_snapshot_duplicate_analysis`). Duplicates/Payload holds
--     the payload key of an entry, Duplicates/Conflicts the hard links and the contradictions,
--     Duplicates/Grouping the groups and their storage units.
--   Queries: snapshot_relation_query.py and snapshot_duplicate_query.py, on a complete result.
--   Scan: filesystem.py. Scan/Host holds what the operating system answers and the entry made of an
--     answer, Scan/Selection `select_scopes` and scan_budget.py. Scan/Loops and Scan/Bounds are about
--     the loops' ends, Scan/Directories and Scan/Confinement about the places of the entries,
--     Scan/Completeness about their status.
--   Authority: agent_authority/service.py. Authority/Document is the JSON object that is written of a
--     context, Authority/Reading what the loader makes of one and Authority/ReadBack about both;
--     Authority/Grants and Authority/Granting say what a request is granted by, Authority/Loading what
--     is created and loaded.
--   Session: agent_session/service.py, the selection of Snapshots and Scopes; Session/PathInput the
--     admission of paths, with the path test of file_agent/runtime/scope_binding.py, Session/Memory the
--     class TaskObjectMemory. Session/Policies says what a selection promises, Session/Mapping where a
--     path is mapped to, Session/Lasting what a task's memory keeps.
--   Hashing: payload_hashing.py. Hashing holds the policy, Hashing/Chunks the loop over a file and
--     Hashing/Direct that over the entries, Hashing/Reuse `observe_payloads`. Hashing/Budget,
--     Hashing/Bounds, Hashing/Probing and Hashing/Spending are about the bytes that are read,
--     Hashing/Reads, Hashing/Grounds, Hashing/Observed, Hashing/Reused and Hashing/Payloads about what
--     stands behind an observation, Hashing/Powers and Hashing/Policy about the accepted policies.
--   Tests: the theorems at concrete data.
--
-- How the parts interact: Runs calls StateMachine for its guard and Evidence for its files, which
-- Evidence's loader reads; Changes reads the result of Diff; Relations has the locations of Diff in
-- common with it; Scopes uses Paths;
-- Hashing takes the entries that Scan makes; Session uses Paths and the validity of Scopes, and
-- Authority the identity of a session.
--
-- What is a parameter: `hash` stands for SHA-256 of the canonical JSON of a document, and no theorem
-- needs it to be free of collisions; one asks that its texts are ASCII. `is_space` is Python's
-- `str.isspace`, `unicode_decimal` its `str.isdecimal` beyond ASCII. The disk, the clock, fresh identities, SQLite's locks and the
-- fault injector are arguments of each call, and so is what reading a row again after a commit
-- raises. One call of the Run coordinator is one step: SQLite's BEGIN IMMEDIATE admits one writer at a
-- time. The scan takes the operating system's answers from a
-- record `Host`, by path, and its clock by the number of looks at it. The session takes the verified
-- Snapshot repository as a record `SnapshotStore` and `lstat` as a record `PathHost`. Payload
-- hashing takes the system's answers from a record `Hashing.Host`, by moment: each look at the clock
-- and each question to the reuse resolver, which may raise, is one.
--
-- Bounds: integers are unbounded, as in Python. Three loops need fuel: the decimal digits of a
-- file name, where a number has fewer digits than its successor's value; the stack of a scan,
-- where each directory on the stack is an entry: one more than the budget's `max_entries` is enough;
-- and the chunks of a file: each adds a byte to the count, which the loop compares with the largest
-- size of a file, so one more than that size is enough.
--
-- Not modelled: the Snapshot repository and its maintenance, storage growth, the document
-- pipeline, the making of an agent session, the agent servers, host observation, the command line.
-- The first two are the next to be modelled; the last ones are input and output.
pub mod Base
pub mod Models
pub mod StateMachine
pub mod Evidence
pub mod Runs
pub mod Diff
pub mod Changes
pub mod Paths
pub mod Scopes
pub mod Relations
pub mod Duplicates
pub mod Queries
pub mod Authority
pub mod Hashing
pub mod Session
pub mod Scan
mod Tests
