-- ===== src/Stores.antt =====
-- The stores of tasks, runs, approvals, sessions, operations and events behind the application:
-- `MemoryStore` of src/asterun/store.py and `SqliteStore` of src/asterun/sqlite_store.py.
pub mod Transition
pub mod Manifests
pub mod Memory
pub mod Sqlite
pub mod Mirrors
pub mod Atomic
pub mod Handoff
pub mod Refinement
pub mod Paging
pub mod Examples
