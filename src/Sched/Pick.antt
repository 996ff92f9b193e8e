-- ===== src/Sched/Pick.antt =====
-- `pick_next_task` of src/core/scheduler.cpp and the tests that it makes.
use vkernel.Common.{
  ℕ, zero, suc, ◌+◌, ◌-◌, ◌%◌, Bool, false, ◌&&◌, ◌||◌, not, ◌==◌, if◌then◌else◌, ltb,
}
use vkernel.Sched.Types.{Task, Sched, is_ready, cpu_none, no_task}

-- `task_matches_cpu_affinity`
unfoldable pub matches_cpu_affinity : Task → ℕ → Bool
matches_cpu_affinity t apic = t.affinity_cpu == cpu_none || t.affinity_cpu == apic

-- `cpu_allows_shared_idle`
abbrev pub allows_shared_idle : Sched → ℕ → Bool
allows_shared_idle s apic = apic == s.bsp_apic_id

-- `task_can_run_on_this_cpu`
unfoldable pub can_run : Sched → ℕ → ℕ → Bool
unfolding matches_cpu_affinity
can_run s apic i =
    if not (ltb i s.task_count)
    then false
    else (if not (matches_cpu_affinity (s.tasks i) apic)
        then false
        else (if i == 0
            then allows_shared_idle s apic
            else not (not (allows_shared_idle s apic) && not (s.tasks i).allow_secondary_cpu)))

-- A task that the scheduler may choose for this CPU.
abbrev pub is_candidate : Sched → ℕ → ℕ → Bool
is_candidate s apic i = is_ready (s.tasks i).state && can_run s apic i

-- The slot that round `i` of the loop looks at.
abbrev pub slot_of_round : ℕ → ℕ → ℕ → ℕ
slot_of_round count start i = (start + i - 1) % (count - 1) + 1

-- The loop over the real tasks, `rounds` of them left from round `i` on.
unfoldable pub pick_loop : Sched → ℕ → ℕ → ℕ → ℕ → ℕ
pick_loop s apic start zero i = no_task
pick_loop s apic start (suc rounds) i =
    let rest = pick_loop s apic start rounds (i + 1) in
    let next = slot_of_round s.task_count start i in if is_candidate s apic next then next else rest

-- Behind the loop: the current task, then the idle task.
unfoldable pub pick_fallback : Sched → ℕ → ℕ → ℕ
pick_fallback s apic cur =
    if ltb 0 cur && (ltb cur s.task_count && is_candidate s apic cur)
    then cur
    else (if is_candidate s apic 0 then 0 else no_task)

abbrev pub start_slot : Sched → ℕ → ℕ
start_slot s cur = if ltb 0 cur && ltb cur s.task_count then cur else 0

unfoldable pub pick_next_task : Sched → ℕ → ℕ → ℕ
unfolding pick_fallback
pick_next_task s apic cur =
    if s.task_count == 0
    then no_task
    else (let found =
          if ltb 1 s.task_count
          then pick_loop s apic (start_slot s cur) (s.task_count - 1) 1
          else no_task in
        if found == no_task then pick_fallback s apic cur else found)
