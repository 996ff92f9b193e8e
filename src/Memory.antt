-- ===== src/Memory.antt =====
-- src/core/memory.cpp and include/vkernel/memory.h.
pub mod Phys
pub mod Heap
pub mod Bytes
pub mod BytesTests
