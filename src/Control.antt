-- ===== src/Control.antt =====
-- src/asterun/control_store.py: the tables behind runner-control/v1. A table is a dictionary from
-- its primary key, or a list of rows in the order of insertion; a statement that breaks a primary
-- key or a UNIQUE constraint raises. A stored JSON document is the value that was written, since
-- `json.loads(_json(value))` gives it back. The clock is an argument.
pub mod Db
mod EventExamples
mod TableExamples
mod BudgetExamples
pub mod Entities
pub mod Events
pub mod Leases
pub mod Outbox
pub mod Operations
pub mod Budget
pub mod Reservations
