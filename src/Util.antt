-- ===== src/Util.antt =====
-- kernel/util: the containers and handles of the kernel.
pub mod AvlTree
pub mod Handle
pub mod Fifo
pub mod TreeHeap
pub mod Mp
pub mod IntrusivePtr
mod Tests
