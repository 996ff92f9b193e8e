-- ===== src/Sched/Validity.antt =====
-- The invariant on tasks and CPUs that every critical section of src/core/scheduler.cpp keeps, and
-- the changes to a task that cannot hurt it.
use vkernel.Common.Arrays.{put}
use vkernel.Common.{
  ℕ, ◌≤◌, ◌<◌, ◌≡◌, ◌⊎◌, inl, inr, refl, Bool, true, false, ◌==◌, Bool-cases, ==_iff, sym, ◌∙◌,
}
use vkernel.Sched.Types.{Task, Sched, is_terminated, cpu_none, no_task, max_tasks, max_apic_ids}

-- The CPU may run the task of slot `i`: the idle task stays on the boot CPU, and a task from the
-- time before the scheduler's start too.
abbrev pub Allowed : ℕ → Task → ℕ → ℕ → Type 0
Allowed bsp t i c = (c ≡ bsp) ⊎ ((1 ≤ i) × (t.allow_secondary_cpu ≡ true))

pub record Valid (tasks : ℕ → Task) (count : ℕ) (per_cpu : ℕ → ℕ) (active : Bool) (bsp : ℕ)
    : Type 0 where
  pub small : count ≤ max_tasks
  pub known : (c : ℕ) → c < max_apic_ids → (per_cpu c < count) ⊎ (per_cpu c ≡ no_task)
  pub owner : (c : ℕ) → c < max_apic_ids → per_cpu c < count → (tasks (per_cpu c)).current_cpu ≡ c
  -- a task on a CPU is pinned to it until it ends
  pub placed :
      (i c : ℕ)
      → i < count
      → c < max_apic_ids
      → (tasks i).current_cpu ≡ c
      → is_terminated (tasks i).state ≡ false
      → ((tasks i).affinity_cpu ≡ c) × Allowed bsp (tasks i) i c
  -- before the start no CPU has a task, and no task a CPU
  pub quiet : active ≡ false → (c : ℕ) → c < max_apic_ids → per_cpu c ≡ no_task
  pub unplaced : active ≡ false → (i : ℕ) → i < count → (tasks i).affinity_cpu ≡ cpu_none

abbrev pub IsValid : Sched → Type 0
IsValid s = Valid s.tasks s.task_count s.per_cpu_task s.active s.bsp_apic_id

-- A change to a task that leaves it where it is.
pub record Calm (t u : Task) : Type 0 where
  pub cpu : u.current_cpu ≡ t.current_cpu
  pub kept :
      is_terminated u.state ≡ false
      → (is_terminated t.state ≡ false)
        × (u.affinity_cpu ≡ t.affinity_cpu)
        × (u.allow_secondary_cpu ≡ t.allow_secondary_cpu)
  pub free : t.affinity_cpu ≡ cpu_none → u.affinity_cpu ≡ cpu_none

pub Calm-refl : (t : Task) → Calm t t
Calm-refl t = record { cpu = refl; kept = λ h. (h, refl, refl); free = λ h. h }

pub Calm-put :
    (tasks : ℕ → Task) (i : ℕ) (u : Task)
    → Calm (tasks i) u
    → (j : ℕ) → Calm (tasks j) (put tasks i u j)
Calm-put tasks i u c j = elim (Bool-cases (j == i)) [
  | inl e ↦ let q : j ≡ i = (==_iff j i).0 e in rw (e, q) c
  | inr e ↦ rw e (Calm-refl (tasks j))
]

pub Calm-Valid :
    (tasks tasks' : ℕ → Task) (count : ℕ) (per_cpu : ℕ → ℕ) (active : Bool) (bsp : ℕ)
    → Valid tasks count per_cpu active bsp
    → ((i : ℕ) → Calm (tasks i) (tasks' i))
    → Valid tasks' count per_cpu active bsp
Calm-Valid tasks tasks' count per_cpu active bsp v calm = record {
  small = v.small;
  known = v.known;
  owner = λ c lt h. (calm (per_cpu c)).cpu ∙ v.owner c lt h;
  placed = λ i c hi lt at alive.
      let k = (calm i).kept alive in
      let p = v.placed i c hi lt (sym (calm i).cpu ∙ at) k.0 in (k.1 ∙ p.0, rw k.2 p.1);
  quiet = v.quiet;
  unplaced = λ off i hi. (calm i).free (v.unplaced off i hi);
}
