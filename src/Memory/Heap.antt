-- ===== src/Memory/Heap.antt =====
-- The kernel heap of src/core/memory.cpp (`kernel_heap`).
pub mod Types
pub mod Allocate
pub mod Free
pub mod Region
pub mod Layout
pub mod Live
pub mod Taking
pub mod Freeing
pub mod Growing
pub mod Contract
mod Tests
