-- ===== src/Sched.antt =====
-- The preemptive round-robin scheduler of src/core/scheduler.cpp and include/vkernel/scheduler.h.
pub mod Types
pub mod Pick
pub mod Preempt
pub mod Tasks
pub mod Choice
pub mod Validity
pub mod Opened
pub mod Switching
pub mod Operations
pub mod Creation
pub mod Safety
pub mod Tests
