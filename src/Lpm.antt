-- ===== src/Lpm.antt =====
-- lpm/lpm.c and lpm/lpm.h: the longest-prefix-match table, its data, and its parts in child modules.
pub mod Types
pub mod Tables
pub mod Lookup
pub mod Cells
pub mod Small
pub mod Alloc
pub mod Big
pub mod Prefix
pub mod Rules
pub mod Api
pub mod Table
pub mod Added
pub mod Recycle
pub mod Delete
pub mod Groups
pub mod Room
pub mod Slot
pub mod Drop
pub mod Written
pub mod Removed
pub mod Deleted
pub mod Full
pub mod Updated
pub mod Change
pub mod Kept
pub mod Best
pub mod Routing
pub mod Dropped
pub mod DeleteBig
pub mod Agree
pub mod Retract
pub mod Ended
pub mod Deletion
pub mod Match
pub mod Single
pub mod Main
pub mod Served
pub mod Workers
pub mod Serves
pub mod Finished
pub mod Create
pub mod Find
mod Tests
mod Calls
