-- ===== src/Ring.antt =====
-- ring/ring.c and ring/ring.h: the ring of words, its data, and its parts in child modules.
pub mod Copy
pub mod Types
pub mod Ops
pub mod Window
pub mod Shape
pub mod Inv
pub mod Enqueue
pub mod Dequeue
pub mod Queue
pub mod Refine
pub mod Create
pub mod Created
pub mod Smear
pub mod Align
pub mod Exact
pub mod Unchecked
pub mod Main
pub mod Threads
mod Tests
