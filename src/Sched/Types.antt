-- ===== src/Sched/Types.antt =====
-- The scheduler's state: `task` of include/vkernel/scheduler.h and the globals of
-- src/core/scheduler.cpp. `g_tasks` is a function from slots, of which those below `task_count` are
-- in use; the per-CPU arrays are functions from APIC ids. Every critical section under
-- `g_sched_lock` is one step. The stack and the FXSAVE area of a task are not kept: `rsp` stands
-- for the saved frame, and a null pointer is 0.
use vkernel.Common.Arrays.{put}
use vkernel.Common.{ℕ, Bool, true, false, ◌||◌, List, []}

pub data TaskState : Type 0 where
  ready running blocked terminated : TaskState

abbrev pub is_ready : TaskState → Bool
is_ready TaskState.ready = true
is_ready _ = false

abbrev pub is_running : TaskState → Bool
is_running TaskState.running = true
is_running _ = false

abbrev pub is_blocked : TaskState → Bool
is_blocked TaskState.blocked = true
is_blocked _ = false

abbrev pub is_terminated : TaskState → Bool
is_terminated TaskState.terminated = true
is_terminated _ = false

pub record Task : Type 0 where
  pub rsp : ℕ
  pub id : ℕ
  pub state : TaskState
  pub wake_tick : ℕ
  pub name : List ℕ
  pub user_data : ℕ
  pub xsave_valid : Bool
  pub allow_secondary_cpu : Bool
  pub affinity_cpu : ℕ
  pub current_cpu : ℕ
  pub last_cpu : ℕ
  pub run_tick_start : ℕ
  pub cpu_ticks : ℕ

abbrev pub max_tasks : ℕ
max_tasks = 64

abbrev pub cpu_none : ℕ
cpu_none = 0xFFFF_FFFF

abbrev pub no_task : ℕ
no_task = max_tasks

abbrev pub max_apic_ids : ℕ
max_apic_ids = 256

pub record Sched : Type 0 where
  pub tasks : ℕ → Task
  pub task_count : ℕ
  pub next_task_id : ℕ
  pub active : Bool
  pub tick_count : ℕ
  pub per_cpu_task : ℕ → ℕ
  pub yield_in_progress : ℕ → Bool
  pub bsp_apic_id : ℕ
  -- `task_id` of each process context, by the context's address
  pub context_task_id : ℕ → ℕ

abbrev pub put_task : Sched → ℕ → Task → Sched
put_task s i t = record s { tasks = put s.tasks i t }

-- `task::is_runnable`
abbrev pub is_runnable : Task → Bool
is_runnable t = is_ready t.state || is_running t.state

-- `sched::init`, on the CPU that boots. The zeroed table holds no task in use.
abbrev pub zeroed_task : Task
zeroed_task = record {
  rsp = 0;
  id = 0;
  state = TaskState.ready;
  wake_tick = 0;
  name = [];
  user_data = 0;
  xsave_valid = false;
  allow_secondary_cpu = false;
  affinity_cpu = 0;
  current_cpu = 0;
  last_cpu = 0;
  run_tick_start = 0;
  cpu_ticks = 0;
}

abbrev pub init : ℕ → (ℕ → ℕ) → Sched
init apic contexts = record {
  tasks = λ i. zeroed_task;
  task_count = 0;
  next_task_id = 1;
  active = false;
  tick_count = 0;
  per_cpu_task = λ c. no_task;
  yield_in_progress = λ c. false;
  bsp_apic_id = apic;
  context_task_id = contexts;
}
