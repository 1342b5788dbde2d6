-- ===== src/Store.antt =====
-- sentinel/store.py: the tables, the methods of `StateStore` by what they are for, and below them
-- what they guarantee. Each method is a transaction on the whole database, so processes that share
-- a file are a sequence of calls.
pub mod Rows
pub mod Intake
pub mod Reserve
pub mod Lifecycle
pub mod Calls
pub mod Guarantees
pub mod Opening
mod Tests
