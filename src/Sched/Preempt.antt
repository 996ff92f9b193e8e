-- ===== src/Sched/Preempt.antt =====
-- `preempt`, `yield` and `start` of src/core/scheduler.cpp. The EOI writes, FXSAVE and the address
-- space of the next task are the hardware's; `regs` is the address of the interrupted frame.
use vkernel.Common.Arrays.{put}
use vkernel.Common.{ℕ, ◌-◌, Bool, true, false, ◌&&◌, ◌||◌, not, ◌==◌, if◌then◌else◌, ltb, leb}
use vkernel.Common.Words.{add64}
use vkernel.Sched.Types.{
  TaskState, Task, Sched, is_running, is_blocked, is_terminated, is_runnable, put_task, cpu_none,
  no_task,
}
use vkernel.Sched.Pick.{pick_next_task}

-- `wake_sleeping_tasks`
unfoldable pub wake_task : ℕ → Task → Task
wake_task now t =
    if is_blocked t.state && leb t.wake_tick now then record t { state = TaskState.ready } else t

unfoldable pub wake_sleeping_tasks : Sched → Sched
wake_sleeping_tasks s = record s {
  tasks = λ i. if ltb i s.task_count then wake_task s.tick_count (s.tasks i) else s.tasks i;
}

-- `account_task_ticks`
abbrev pub elapsed_ticks : ℕ → ℕ → ℕ
elapsed_ticks now start = if ltb start now then now - start else 0

unfoldable pub account_task_ticks : Sched → Task → ℕ → Bool → Task
account_task_ticks s t apic timer_tick =
    if t.current_cpu == cpu_none
    then t
    else (let elapsed = elapsed_ticks s.tick_count t.run_tick_start in
        let charged =
          if elapsed == 0 && (timer_tick && not (apic == s.bsp_apic_id)) then 1 else elapsed in
        record t { cpu_ticks = add64 t.cpu_ticks charged })

-- The current task is saved and taken off the CPU.
unfoldable pub save_task : Task → ℕ → Task
save_task t regs =
    let ends = is_terminated t.state && not (t.user_data == 0) in
    record t {
      rsp = regs;
      xsave_valid = true;
      user_data = if ends then 0 else t.user_data;
      state = if not ends && is_running t.state then TaskState.ready else t.state;
      current_cpu = cpu_none;
      run_tick_start = 0;
    }

-- The context that is cleaned up once the lock is free, or 0.
abbrev pub ended_context : Task → ℕ
ended_context t = if is_terminated t.state then t.user_data else 0

unfoldable pub save_current : Sched → ℕ → ℕ → Bool → ℕ → Sched
unfolding save_task account_task_ticks
save_current s apic cur timer_tick regs =
    if ltb cur s.task_count
    then put_task s cur (save_task (account_task_ticks s (s.tasks cur) apic timer_tick) regs)
    else s

-- The next task is put on this CPU.
unfoldable pub dispatch_task : Sched → Task → ℕ → Task
dispatch_task s t apic = record t {
  state = TaskState.running;
  affinity_cpu = if t.affinity_cpu == cpu_none then apic else t.affinity_cpu;
  current_cpu = apic;
  last_cpu = apic;
  run_tick_start = s.tick_count;
}

unfoldable pub dispatch : Sched → ℕ → ℕ → Sched
unfolding dispatch_task
dispatch s apic next = record s {
  tasks = put s.tasks next (dispatch_task s (s.tasks next) apic);
  per_cpu_task = put s.per_cpu_task apic next;
}

-- Where the interrupt returns to.
pub data Resume : Type 0 where
  same_frame : Resume
  idle_frame : Resume
  task_frame : ℕ → Resume

pub record Preempted : Type 0 where
  pub sched : Sched
  pub resume : Resume
  pub cleanup : ℕ

-- The tick, or the mark of a yield, at the head of `preempt`.
unfoldable pub count_tick : Sched → ℕ → Sched
count_tick s apic =
    if s.yield_in_progress apic
    then record s { yield_in_progress = put s.yield_in_progress apic false }
    else (if apic == s.bsp_apic_id then record s { tick_count = add64 s.tick_count 1 } else s)

-- The choice, behind the save.
unfoldable pub switch_task : Sched → ℕ → ℕ → ℕ → Preempted
unfolding dispatch
switch_task s apic cur cleanup =
    let next = pick_next_task s apic cur in
    if ltb next s.task_count
    then record {
      sched = dispatch s apic next;
      resume = Resume.task_frame (s.tasks next).rsp;
      cleanup = cleanup;
    }
    else (if ltb cur s.task_count && not (is_runnable (s.tasks cur))
        then record {
          sched = record s { per_cpu_task = put s.per_cpu_task apic no_task };
          resume = Resume.idle_frame;
          cleanup = cleanup;
        }
        else record { sched = s; resume = Resume.same_frame; cleanup = 0 })

unfoldable pub preempt : Sched → ℕ → ℕ → Preempted
unfolding count_tick wake_sleeping_tasks save_current switch_task
preempt s apic regs =
    let timer_tick = not (s.yield_in_progress apic) in
    let s1 = count_tick s apic in
    if not s1.active || ltb s1.task_count 2
    then record { sched = s1; resume = Resume.same_frame; cleanup = 0 }
    else (let s2 = wake_sleeping_tasks s1 in
        let cur = s2.per_cpu_task apic in
        let cleanup = if ltb cur s2.task_count then ended_context (s2.tasks cur) else 0 in
        switch_task (save_current s2 apic cur timer_tick regs) apic cur cleanup)

-- `yield` up to its interrupt, which runs `preempt`.
unfoldable pub mark_yield : Sched → ℕ → Sched
mark_yield s apic =
    if not s.active || ltb s.task_count 2
    then s
    else record s { yield_in_progress = put s.yield_in_progress apic true }

-- `start`, on the boot CPU, with at least one task. The source sets the CPU to `g_bsp_apic_id`.
unfoldable pub start : Sched → Sched
start s =
    let picked = pick_next_task s s.bsp_apic_id no_task in
    let first = if ltb picked s.task_count then picked else 0 in
    let s' = dispatch s s.bsp_apic_id first in record s' { active = true }

-- `start_ap`: the CPU has no task.
unfoldable pub start_ap : Sched → ℕ → Sched
start_ap s apic = record s { per_cpu_task = put s.per_cpu_task apic no_task }
