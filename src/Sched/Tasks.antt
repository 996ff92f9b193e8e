-- ===== src/Sched/Tasks.antt =====
-- The operations on tasks of src/core/scheduler.cpp: creation, termination, sleep, replacement of a
-- context, and the queries by id.
use vkernel.Common.Arrays.{put}
use vkernel.Common.{
  ℕ, zero, suc, ◌+◌, Bool, true, false, ◌&&◌, ◌||◌, not, Option, none, some, List, [], ◌==◌,
  if◌then◌else◌, ltb, length,
}
use vkernel.Common.Words.{add64}
use vkernel.Sched.Types.{
  TaskState, Task, Sched, is_blocked, is_terminated, put_task, cpu_none, no_task, max_tasks,
}

-- A slot by a test, from slot `i` on, `n` slots.
unfoldable pub find_slot : (ℕ → Bool) → ℕ → ℕ → Option ℕ
find_slot test zero i = none
find_slot test (suc n) i = let rest = find_slot test n (i + 1) in if test i then some i else rest

abbrev pub is_vacant : Task → Bool
is_vacant t = is_terminated t.state && t.current_cpu == cpu_none

-- `find_available_task_slot`
unfoldable pub slot_or_next : Sched → Option ℕ → ℕ
slot_or_next s (some i) = i
slot_or_next s none = if ltb s.task_count max_tasks then s.task_count else no_task

unfoldable pub find_available_task_slot : Sched → ℕ
unfolding slot_or_next
find_available_task_slot s = slot_or_next s (find_slot (λ i. is_vacant (s.tasks i)) s.task_count 0)

-- `static_string<32>::assign` accepts at most 31 characters.
abbrev pub name_capacity : ℕ
name_capacity = 32

abbrev pub name_fits : List ℕ → Bool
name_fits name = ltb (length name) name_capacity

-- A context's `task_id` is written where there is a context.
abbrev pub tag_context : (ℕ → ℕ) → ℕ → ℕ → ℕ → ℕ
tag_context ids context id = if context == 0 then ids else put ids context id

-- A fresh task; `frame` is the frame that `init_task_stack_frame` builds on its stack.
abbrev pub fresh_task : Sched → List ℕ → ℕ → ℕ → Task
fresh_task s name frame user_data = record {
  rsp = frame;
  id = s.next_task_id;
  state = TaskState.ready;
  wake_tick = 0;
  name = name;
  user_data = user_data;
  xsave_valid = false;
  allow_secondary_cpu = s.active;
  affinity_cpu = cpu_none;
  current_cpu = cpu_none;
  last_cpu = cpu_none;
  run_tick_start = 0;
  cpu_ticks = 0;
}

-- `create_task`: the id, or `none` for -1.
unfoldable pub create_task : Sched → List ℕ → ℕ → ℕ → Option ℕ × Sched
create_task s name frame user_data =
    let slot = find_available_task_slot s in
    if not (ltb slot max_tasks)
    then (none, s)
    else (if not (name_fits name)
        then (none, put_task s slot (record (s.tasks slot) { name = [] }))
        else (
          some s.next_task_id,
          record s {
            tasks = put s.tasks slot (fresh_task s name frame user_data);
            task_count = if slot == s.task_count then s.task_count + 1 else s.task_count;
            next_task_id = add64 s.next_task_id 1;
            context_task_id = tag_context s.context_task_id user_data s.next_task_id;
          },
        ))

abbrev pub find_task : Sched → ℕ → Option ℕ
find_task s id = find_slot (λ i. (s.tasks i).id == id) s.task_count 0

-- The task of `terminate_task`: off every CPU its context is handed to the cleanup.
unfoldable pub end_task : Task → Task
end_task t =
    let off = t.current_cpu == cpu_none in
    record t {
      state = TaskState.terminated;
      wake_tick = 0;
      affinity_cpu = cpu_none;
      last_cpu = if off then cpu_none else t.last_cpu;
      run_tick_start = if off then 0 else t.run_tick_start;
      user_data = if off then 0 else t.user_data;
    }

-- `terminate_task`: whether it did, the context to clean up (or 0), and the scheduler.
unfoldable pub terminate_found : Sched → Option ℕ → Bool × ℕ × Sched
unfolding end_task
terminate_found s none = (false, 0, s)
terminate_found s (some i) = if i == 0 then (false, 0, s) else (
  true,
  if (s.tasks i).current_cpu == cpu_none then (s.tasks i).user_data else 0,
  put_task s i (end_task (s.tasks i)),
)

unfoldable pub terminate_task : Sched → ℕ → Bool × ℕ × Sched
unfolding terminate_found
terminate_task s id = terminate_found s (find_task s id)

-- The task that ends itself.
abbrev pub leave_task : Task → Task
leave_task t = record t { state = TaskState.terminated; affinity_cpu = cpu_none; user_data = 0 }

abbrev pub sleep_task : Task → ℕ → Task
sleep_task t wake = record t { wake_tick = wake; state = TaskState.blocked }

-- `exit_task` up to its yields. A CPU without a task never calls it.
unfoldable pub exit_task : Sched → ℕ → Sched
exit_task s apic = let cur = s.per_cpu_task apic in put_task s cur (leave_task (s.tasks cur))

-- `detach_current_task`
unfoldable pub detach_current_task : Sched → ℕ → ℕ × Sched
detach_current_task s apic =
    let cur = s.per_cpu_task apic in
    if ltb cur s.task_count
    then ((s.tasks cur).user_data, put_task s cur (leave_task (s.tasks cur)))
    else (0, s)

-- `sleep` with a positive count, up to its yields.
unfoldable pub block_current : Sched → ℕ → ℕ → Sched
block_current s apic ticks =
    let cur = s.per_cpu_task apic in
    put_task s cur (sleep_task (s.tasks cur) (add64 s.tick_count ticks))

-- `replace_current_task_context`
unfoldable pub replace_current_task_context : Sched → ℕ → List ℕ → ℕ → Bool × Sched
replace_current_task_context s apic name user_data =
    let cur = s.per_cpu_task apic in
    if not (name_fits name)
    then (false, s)
    else (if not (ltb cur s.task_count) || is_terminated (s.tasks cur).state then (false, s) else (
      true,
      record s {
        tasks = put s.tasks cur (record (s.tasks cur) { name = name; user_data = user_data });
        context_task_id = tag_context s.context_task_id user_data (s.tasks cur).id;
      },
    ))

-- `task_user_data`, `task_blocked_off_cpu`
unfoldable pub task_user_data : Sched → ℕ → ℕ
task_user_data s id = elim (find_task s id) [ none ↦ 0 | some i ↦ (s.tasks i).user_data ]

unfoldable pub task_blocked_off_cpu : Sched → ℕ → Bool
task_blocked_off_cpu s id =
    elim (find_slot (λ i. (s.tasks i).id == id && not (is_terminated (s.tasks i).state))
      s.task_count 0) [
        | none ↦ false
        | some i ↦ is_blocked (s.tasks i).state && (s.tasks i).current_cpu == cpu_none
      ]
