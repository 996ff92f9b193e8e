-- ===== src/Sched/Safety.antt =====
-- Every run of the scheduler: any order of the critical sections of all CPUs, from `sched::init` on.
use vkernel.Common.{ℕ, ◌<◌, ◌≡◌, ◌≢◌, inr, refl, false, List, arith, sym, ap, ◌∙◌}
use vkernel.Sched.Types.{Sched, is_terminated, init, max_apic_ids}
use vkernel.Sched.Preempt.{preempt, mark_yield, start, start_ap}
use vkernel.Sched.Tasks.{
  create_task, terminate_task, exit_task, detach_current_task, block_current,
  replace_current_task_context,
}
use vkernel.Sched.Validity.{IsValid}
use vkernel.Sched.Switching.{preempt-IsValid}
use vkernel.Sched.Operations.{
  start-IsValid, start_ap-IsValid, mark_yield-IsValid, terminate_task-IsValid, exit_task-IsValid,
  detach_current_task-IsValid, block_current-IsValid, replace_current_task_context-IsValid,
}
use vkernel.Sched.Creation.{create_task-IsValid}

-- One critical section, on the CPU `apic` where it says so. Only a task calls `exit_task` or `sleep`,
-- and one that has ended, by itself or by another one, does not call `sleep`.
pub data Step (s : Sched) : Sched → Type 0 where
  timer : (apic regs : ℕ) → apic < max_apic_ids → Step s (preempt s apic regs).sched
  yields : (apic : ℕ) → Step s (mark_yield s apic)
  starts : s.active ≡ false → 0 < s.task_count → Step s (start s)
  starts_ap : (apic : ℕ) → Step s (start_ap s apic)
  creates : (name : List ℕ) (frame context : ℕ) → Step s (create_task s name frame context).1
  terminates : (id : ℕ) → Step s (terminate_task s id).2
  exits : (apic : ℕ) → s.per_cpu_task apic < s.task_count → Step s (exit_task s apic)
  detaches : (apic : ℕ) → Step s (detach_current_task s apic).1
  sleeps :
      (apic ticks : ℕ)
      → s.per_cpu_task apic < s.task_count
      → is_terminated (s.tasks (s.per_cpu_task apic)).state ≡ false
      → Step s (block_current s apic ticks)
  replaces :
      (apic : ℕ) (name : List ℕ) (context : ℕ)
      → Step s (replace_current_task_context s apic name context).1

pub data Reachable : Sched → Type 0 where
  initial : (apic : ℕ) (contexts : ℕ → ℕ) → Reachable (init apic contexts)
  later : {s t : Sched} → Reachable s → Step s t → Reachable t

init-IsValid : (apic : ℕ) (contexts : ℕ → ℕ) → IsValid (init apic contexts)
init-IsValid apic contexts = record {
  small = omega arith;
  known = λ c lt. inr refl;
  owner = λ c lt h. absurd (omega arith);
  placed = λ i c h. absurd (omega arith);
  quiet = λ off c lt. refl;
  unplaced = λ off i h. absurd (omega arith);
}

Step-IsValid : {s t : Sched} → Step s t → IsValid s → IsValid t
Step-IsValid {s = s} (Step.timer apic regs a) v = preempt-IsValid s apic regs a v
Step-IsValid {s = s} (Step.yields apic) v = mark_yield-IsValid s apic v
Step-IsValid {s = s} (Step.starts off n) v = start-IsValid s v off n
Step-IsValid {s = s} (Step.starts_ap apic) v = start_ap-IsValid s apic v
Step-IsValid {s = s} (Step.creates name frame context) v =
    create_task-IsValid s name frame context v
Step-IsValid {s = s} (Step.terminates id) v = terminate_task-IsValid s id v
Step-IsValid {s = s} (Step.exits apic on) v = exit_task-IsValid s apic v
Step-IsValid {s = s} (Step.detaches apic) v = detach_current_task-IsValid s apic v
Step-IsValid {s = s} (Step.sleeps apic ticks on alive) v =
    block_current-IsValid s apic ticks v alive
Step-IsValid {s = s} (Step.replaces apic name context) v =
    replace_current_task_context-IsValid s apic name context v

pub Reachable-IsValid : {s : Sched} → Reachable s → IsValid s
Reachable-IsValid (Reachable.initial apic contexts) = init-IsValid apic contexts
Reachable-IsValid (Reachable.later r step) = Step-IsValid step (Reachable-IsValid r)

-- After any run in which no task that has ended calls `sleep`, whether it ended itself or another one
-- ended it: two CPUs never have the same task, and the task that a CPU has records that CPU.
pub Reachable-exclusive :
    (s : Sched) (c d : ℕ)
    → Reachable s
    → c < max_apic_ids
    → d < max_apic_ids
    → c ≢ d
    → s.per_cpu_task c < s.task_count
    → (s.per_cpu_task c ≢ s.per_cpu_task d) × ((s.tasks (s.per_cpu_task c)).current_cpu ≡ c)
Reachable-exclusive s c d r cl dl ne h =
    let v = Reachable-IsValid r in
    let at = v.owner c cl h in
    (
      λ same.
          let there : (s.tasks (s.per_cpu_task d)).current_cpu ≡ d = v.owner d dl (omega arith) in
          ne (sym at ∙ ap (λ i. (s.tasks i).current_cpu) same ∙ there),
      at,
    )
