-- ===== src/Memory/Phys.antt =====
-- The physical page allocator of src/core/memory.cpp (`phys_allocator`).
pub mod Types
pub mod Init
pub mod Allocate
pub mod Free
pub mod Layout
pub mod Taken
pub mod Coverage
pub mod Allocation
pub mod Merging
pub mod Release
pub mod Boot
pub mod Census
mod Tests
