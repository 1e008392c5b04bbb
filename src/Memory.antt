-- ===== src/Memory.antt =====
-- memory_manage: a heap of elements in one area of memory, its data, and its parts in child modules.
pub mod Types
pub mod Elem
pub mod Heap
pub mod Index
pub mod Start
pub mod Inv
pub mod Split
pub mod Join
pub mod Carve
pub mod Search
pub mod Open
pub mod Close
pub mod Alloc
pub mod Merge
pub mod Free
pub mod Create
pub mod Insert
pub mod Round
pub mod Client
pub mod Faults
pub mod Pool
mod Tests
