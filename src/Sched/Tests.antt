-- ===== src/Sched/Tests.antt =====
-- Runs of the scheduler with two tasks on two CPUs, and the theorems at concrete inputs.
use vkernel.Common.{◌≤◌, ◌<◌, ◌≡◌, ◌≢◌, ◌⊎◌, inl, refl, true, false, some, [], ◌∷◌, arith}
use vkernel.Sched.Types.{Sched, init}
use vkernel.Sched.Pick.{
  is_candidate, can_run, matches_cpu_affinity, pick_next_task, pick_loop, pick_fallback, start_slot,
}
use vkernel.Sched.Preempt.{
  preempt, start, count_tick, wake_sleeping_tasks, wake_task, save_current, save_task,
  account_task_ticks, switch_task, dispatch, dispatch_task,
}
use vkernel.Sched.Tasks.{
  create_task, terminate_task, terminate_found, end_task, find_slot, slot_or_next,
  find_available_task_slot, block_current, is_vacant,
}
use vkernel.Sched.Choice.{Chosen, distance, pick_next_task_sound, pick_next_task_nearest}
use vkernel.Sched.Safety.{Step, Reachable, Reachable-exclusive}
use vkernel.Sched.Creation.{create_task_keeps, create_task_succeeds}

abbrev booted : Sched
booted = init 0 (λ c. 0)

-- "idle" and "shell", then the start on CPU 0, then "job", which CPU 1 may run.
abbrev idle_made : Sched
idle_made = (create_task booted (105 ∷ []) 100 0).1

abbrev shell_made : Sched
shell_made = (create_task idle_made (115 ∷ []) 200 0).1

abbrev started : Sched
started = start shell_made

abbrev job_made : Sched
job_made = (create_task started (106 ∷ []) 300 0).1

abbrev both : Sched
both = (preempt job_made 1 77).sched

both_cpus :
    (both.per_cpu_task 0 ≡ 1)
    × (both.per_cpu_task 1 ≡ 2)
    × (both.task_count ≡ 3)
    × (both.active ≡ true)
unfolding find_slot slot_or_next find_available_task_slot create_task matches_cpu_affinity can_run
    pick_loop pick_fallback pick_next_task dispatch_task dispatch start count_tick wake_task
    wake_sleeping_tasks account_task_ticks save_task save_current switch_task preempt
both_cpus = (refl, refl, refl, refl)

shell_made_idle : (shell_made.active ≡ false) × (shell_made.task_count ≡ 2)
unfolding find_slot slot_or_next find_available_task_slot create_task
shell_made_idle = (refl, refl)

both-Reachable : Reachable both
both-Reachable =
    let made : Reachable shell_made =
      Reachable.later
        (Reachable.later (Reachable.initial 0 (λ c. 0)) (Step.creates (105 ∷ []) 100 0))
        (Step.creates (115 ∷ []) 200 0) in
    let on : Reachable started =
      Reachable.later made (Step.starts shell_made_idle.0 (omega (arith, shell_made_idle.1))) in
    Reachable.later (Reachable.later on (Step.creates (106 ∷ []) 300 0))
      (Step.timer 1 77 (omega arith))

Reachable-exclusive_example :
    (both.per_cpu_task 0 ≢ both.per_cpu_task 1)
    × ((both.tasks (both.per_cpu_task 0)).current_cpu ≡ 0)
Reachable-exclusive_example =
    Reachable-exclusive both 0 1 both-Reachable (omega arith) (omega arith)
      (λ e. absurd (omega arith)) (omega (arith, both_cpus))

pick_next_task_sound_example : Chosen both 0 (pick_next_task both 0 1)
pick_next_task_sound_example = pick_next_task_sound both 0 1 (omega (arith, both_cpus))

-- CPU 1, idle, looks for work.
job_waits : (job_made.task_count ≡ 3) × (is_candidate job_made 1 2 ≡ true)
unfolding find_slot slot_or_next find_available_task_slot create_task matches_cpu_affinity can_run
    pick_loop pick_fallback pick_next_task dispatch_task dispatch start count_tick wake_task
    wake_sleeping_tasks account_task_ticks save_task save_current switch_task preempt
job_waits = (refl, refl)

pick_next_task_nearest_example :
    (1 ≤ pick_next_task job_made 1 64)
    × (pick_next_task job_made 1 64 < job_made.task_count)
    × (is_candidate job_made 1 (pick_next_task job_made 1 64) ≡ true)
    × (distance job_made.task_count (start_slot job_made 64) (pick_next_task job_made 1 64)
        ≤ distance job_made.task_count (start_slot job_made 64) 2)
pick_next_task_nearest_example =
    pick_next_task_nearest job_made 1 64 2 (omega (arith, job_waits.0)) (omega arith)
      (omega (arith, job_waits.0)) job_waits.1

create_task_keeps_example :
    ((create_task both (107 ∷ []) 400 0).1.tasks 2 ≡ both.tasks 2)
    ⊎ ((2 ≡ find_available_task_slot both)
        × ((2 ≡ both.task_count) ⊎ ((2 < both.task_count) × (is_vacant (both.tasks 2) ≡ true))))
create_task_keeps_example = create_task_keeps both (107 ∷ []) 400 0 2

create_task_succeeds_example : (create_task both (107 ∷ []) 400 0).0 ≡ some both.next_task_id
create_task_succeeds_example =
    create_task_succeeds both (107 ∷ []) 400 0 3 (omega (arith, both_cpus)) refl (omega arith)
      (inl (omega (arith, both_cpus)))

-- A task that CPU 0 ends while it runs on CPU 1, and that then goes to sleep, is woken and runs on
-- both CPUs.
abbrev revived : Sched
revived = block_current (terminate_task both 3).2 1 0

abbrev twice : Sched
twice = (preempt revived 0 88).sched

twice_cpus : (twice.per_cpu_task 0 ≡ 2) × (twice.per_cpu_task 1 ≡ 2)
unfolding find_slot slot_or_next find_available_task_slot create_task matches_cpu_affinity can_run
    pick_loop pick_fallback pick_next_task dispatch_task dispatch start count_tick wake_task
    wake_sleeping_tasks account_task_ticks save_task save_current switch_task preempt
    terminate_found terminate_task end_task block_current
twice_cpus = (refl, refl)
