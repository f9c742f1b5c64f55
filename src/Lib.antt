-- ===== src/Lib.antt =====
-- Asterun runs coding agents for several tasks at once. This library models the parts of its core
-- that decide what may run and what was recorded, and states what makes them correct. Paths are
-- from the root of the repository.
--
-- The scheduler (src/asterun/scheduler.py) counts the slots of every backend and queues the rest;
-- application.py stores in each run whether it holds a slot and projects that mark on the
-- scheduler. The control store (src/asterun/control_store.py) keeps the tables behind the
-- runner-control protocol: entities, the binding of idempotency keys to operations, the event
-- streams, the outbox of deliveries, leases with fencing tokens, budgets with their reservations,
-- and blobs. The quota selection (src/asterun/quota/selection.py) scores the backends of a group by
-- what their quota windows would let expire, and chooses one of them. The context budget
-- (src/asterun/context_budget/ledger.py) reserves tokens of a task's budget in the control store before
-- a run is dispatched, and settles what the run has used when it ends. Tasks, runs, approvals, sessions and
-- operations are the records of src/asterun/contracts.py; the application keeps them in a store, in memory
-- (src/asterun/store.py) or in SQLite (src/asterun/sqlite_store.py), and commits the intent of a run there before any
-- backend is called. src/asterun/policy.py decides who may use a workspace.
--
-- Files.
--   Prelude: Boolean tests and equality (Prelude/Tests), lists (Prelude/Lists), dictionaries as
--     association lists in the order of insertion (Prelude/Dicts), integers (Prelude/Int).
--   Errors: the codes of src/asterun/errors.py and the results of methods that raise. Errors/Exec:
--     methods that also change a state, and `transaction`, the context manager of the same name.
--   Scheduler: src/asterun/scheduler.py, one function for each method (`drop_run` is `remove`).
--     Scheduler/Projection has the slot marks of src/asterun/application.py; Counts, Slots, Queue
--     and Limits hold proofs.
--   Control: src/asterun/control_store.py. Control/Db is the state, one field for each table;
--     Entities, Operations, Events, Outbox, Leases, Budget and Reservations have its methods under
--     their own names (`_budget_totals`, `_amounts`, `_delivery`, `_deliveries` and `_outbox_row`
--     without the first underscore; `put_row` is `_put`), and their child modules the proofs.
--   The files named Examples are the theorems applied to small concrete states.
--   Quota: src/asterun/quota/selection.py. Quota/Observations is what it reads of the windows,
--     Quota/Scoring is `score_candidate` and Quota/Selection is `select`, with the helpers of each
--     without the first underscore; the child modules hold proofs.
--   Budgets: src/asterun/context_budget/ledger.py, over Control: the guard of a dispatch, with
--     proofs in Budgets/Guard, Budgets/Bounds and Budgets/Once, and `settle_run` in Budgets/Settle.
--     Budgets/Frame and Budgets/GuardFrame say what an operation on one run leaves of another's reservation. What `_profile` finds and what
--     `run_processed` reads are arguments.
--   Json: JSON values, and the conversions by which src/asterun/contracts.py reads a stored document. Contracts:
--     the statuses; Contracts/Enums the other enumerations; Contracts/Tasks, Runs, Sessions, Approvals,
--     Operations and Events a record each with `to_dict` and `from_dict`, and a child module RoundTrip.
--   Stores: Stores/Memory is MemoryStore of src/asterun/store.py, Stores/Sqlite with Stores/Sqlite/Intents is
--     SqliteStore of src/asterun/sqlite_store.py, both with the names of the methods; Stores/Transition is
--     `cas` of src/asterun/context_transition.py and `state` of src/asterun/handoff.py. Stores/Mirrors and
--     Stores/Refinement relate the two stores, Stores/Atomic is about their commits.
--     Stores/Handoff is `commit` of src/asterun/handoff.py over an interface that both stores fill, and
--     Stores/Manifests what `save_payload_manifest` writes.
--     Stores/Paging is the loop `_events` of src/asterun/capsule/assemble.py.
--   Policy: src/asterun/policy.py, with its proofs in Policy/Admission.
--
-- Conventions. A method that raises leaves the state that it had reached, and `transaction` puts back
-- the state at its start, as ROLLBACK does. A table is a dictionary from its primary key, or a
-- list of rows; the constraints of the schema are tests of the operations. A document that is stored
-- as JSON is the value itself. An identifier is its text. The clock is an argument; the parsing of a
-- UTC time and SHA-256 are parameters, of which nothing is assumed. An amount that is not an `int`
-- in Python is kept apart as `other`. Only `_events` needs fuel, since it loops until a page is empty; a theorem gives
-- the fuel that is enough.
--
-- The payload of a database row is the document that json.dumps writes and json.loads reads back. A SELECT
-- without ORDER BY that reads whole rows of a table gives them in the order of their rowid, which an update
-- keeps. `list_task_ids` of SqliteStore reads an index, in an order of its own, and is left out. The stores hold
-- values: a caller's change of an object is in the store only once it is saved. What Python's `str`, `int`,
-- `dict` and `list` make of a value of another type than the one that is written, the test for blank text
-- and `==` on JSON values are the parameter `Python`; the parsing of a grant's times is one too.
--
-- Not modelled: messages and details of errors, the control documents' other fields, connections and
-- locks of SQLite, processes, files and the network, and so the backends, the command line, the
-- transports and the plugins; the handlers of control.py, and of application.py all
-- but the slot marks.
pub mod Prelude
pub mod Errors
pub mod Json
pub mod Contracts
pub mod Scheduler
pub mod Control
pub mod Quota
pub mod Budgets
pub mod Policy
pub mod Stores
