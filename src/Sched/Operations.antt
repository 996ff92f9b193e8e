-- ===== src/Sched/Operations.antt =====
-- The operations on existing tasks keep the invariant, and so does `start`.
use vkernel.Common.Arrays.{put}
use vkernel.Common.{
  ℕ, ◌<◌, ◌≡◌, inl, inr, refl, true, false, ◌||◌, not, arith, ◌==◌, Bool-cases, Option, none, some,
  List, ltb, ltb→lt,
}
use vkernel.Common.Words.{add64}
use vkernel.Sched.Types.{Task, Sched, is_terminated, put_task, cpu_none, no_task}
use vkernel.Sched.Pick.{pick_next_task}
use vkernel.Sched.Preempt.{dispatch, start, start_ap, mark_yield}
use vkernel.Sched.Tasks.{
  name_fits, find_task, end_task, terminate_found, terminate_task, leave_task, sleep_task,
  exit_task, detach_current_task, block_current, replace_current_task_context,
}
use vkernel.Sched.Validity.{Valid, IsValid, Calm, Calm-put, Calm-Valid}
use vkernel.Sched.Opened.{IsValid-Open, dispatch-Valid}

-- A calm change to one task.
pub put_task-IsValid :
    (s : Sched) (i : ℕ) (t : Task) → IsValid s → Calm (s.tasks i) t → IsValid (put_task s i t)
put_task-IsValid s i t v c =
    Calm-Valid s.tasks (put s.tasks i t) s.task_count s.per_cpu_task s.active s.bsp_apic_id v
      (Calm-put s.tasks i t c)

-- The end of a task.
ended-Calm :
    (t u : Task)
    → u.current_cpu ≡ t.current_cpu
    → u.affinity_cpu ≡ cpu_none
    → is_terminated u.state ≡ true
    → Calm t u
ended-Calm t u cpu aff ended = record { cpu = cpu; kept = λ alive. absurd (cc); free = λ h. aff }

terminate_found-IsValid : (s : Sched) (o : Option ℕ) → IsValid s → IsValid (terminate_found s o).2
unfolding terminate_found end_task
terminate_found-IsValid s none v = v
terminate_found-IsValid s (some i) v = elim (Bool-cases (i == 0)) [
  | inl z ↦ rw z v
  | inr z ↦ rw z (
      put_task-IsValid s i (end_task (s.tasks i)) v
        (ended-Calm (s.tasks i) (end_task (s.tasks i)) refl refl refl))
]

pub terminate_task-IsValid : (s : Sched) (id : ℕ) → IsValid s → IsValid (terminate_task s id).2
unfolding terminate_task
terminate_task-IsValid s id v = terminate_found-IsValid s (find_task s id) v

leave_task-IsValid :
    (s : Sched) (i : ℕ) → IsValid s → IsValid (put_task s i (leave_task (s.tasks i)))
leave_task-IsValid s i v =
    put_task-IsValid s i (leave_task (s.tasks i)) v
      (ended-Calm (s.tasks i) (leave_task (s.tasks i)) refl refl refl)

pub exit_task-IsValid : (s : Sched) (apic : ℕ) → IsValid s → IsValid (exit_task s apic)
unfolding exit_task
exit_task-IsValid s apic v = leave_task-IsValid s (s.per_cpu_task apic) v

pub detach_current_task-IsValid :
    (s : Sched) (apic : ℕ) → IsValid s → IsValid (detach_current_task s apic).1
unfolding detach_current_task
detach_current_task-IsValid s apic v = elim (Bool-cases (ltb (s.per_cpu_task apic) s.task_count)) [
  | inl e ↦ rw e (leave_task-IsValid s (s.per_cpu_task apic) v)
  | inr e ↦ rw e v
]

-- A task that ended does not sleep.
pub block_current-IsValid :
    (s : Sched) (apic ticks : ℕ)
    → IsValid s
    → is_terminated (s.tasks (s.per_cpu_task apic)).state ≡ false
    → IsValid (block_current s apic ticks)
unfolding block_current
block_current-IsValid s apic ticks v alive =
    put_task-IsValid s (s.per_cpu_task apic)
      (sleep_task (s.tasks (s.per_cpu_task apic)) (add64 s.tick_count ticks)) v
      (record { cpu = refl; kept = λ h. (alive, refl, refl); free = λ h. h })

pub replace_current_task_context-IsValid :
    (s : Sched) (apic : ℕ) (name : List ℕ) (context : ℕ)
    → IsValid s
    → IsValid (replace_current_task_context s apic name context).1
unfolding replace_current_task_context
replace_current_task_context-IsValid s apic name context v =
    let cur = s.per_cpu_task apic in
    elim (Bool-cases (name_fits name)) [
      | inr e ↦ rw e v
      | inl e ↦
          elim (Bool-cases (not (ltb cur s.task_count) || is_terminated (s.tasks cur).state)) [
            | inl f ↦ rw (e, f) v
            | inr f ↦
                rw (e, f)
                  (put_task-IsValid s cur
                    (record (s.tasks cur) { name = name; user_data = context }) v
                    (record { cpu = refl; kept = λ h. (h, refl, refl); free = λ h. h }))
          ]
    ]

pub mark_yield-IsValid : (s : Sched) (apic : ℕ) → IsValid s → IsValid (mark_yield s apic)
unfolding mark_yield
mark_yield-IsValid s apic v = elim (Bool-cases (not s.active || ltb s.task_count 2)) [
  | inl e ↦ rw e v
  | inr e ↦ rw e v
]

pub start_ap-IsValid : (s : Sched) (apic : ℕ) → IsValid s → IsValid (start_ap s apic)
unfolding start_ap
start_ap-IsValid s apic v = record {
  small = v.small;
  known = λ c lt. elim (Bool-cases (c == apic)) [
    | inl e ↦ inr (rw e refl)
    | inr e ↦ rw e (v.known c lt)
  ];
  owner = λ c lt. elim (Bool-cases (c == apic)) [
    | inl e ↦ rw e (λ h. absurd (omega (arith, v.small)))
    | inr e ↦ rw e (v.owner c lt)
  ];
  placed = v.placed;
  quiet = λ off c lt. elim (Bool-cases (c == apic)) [
    | inl e ↦ rw e refl
    | inr e ↦ rw e (v.quiet off c lt)
  ];
  unplaced = v.unplaced;
}

-- Before the start no CPU has a task, so that the boot CPU may take any.
first-Valid :
    (s : Sched) (first : ℕ)
    → IsValid s
    → s.active ≡ false
    → first < s.task_count
    → Valid
        (dispatch s s.bsp_apic_id first).tasks
        s.task_count
        (dispatch s s.bsp_apic_id first).per_cpu_task
        true
        s.bsp_apic_id
first-Valid s first v off lt =
    dispatch-Valid s s.bsp_apic_id first (IsValid-Open s s.bsp_apic_id v) (record {
      in_use = lt;
      matches = inl (v.unplaced off first lt);
      allowed = inl refl;
      elsewhere = λ c cl ne same. absurd (omega (arith, v.quiet off c cl, v.small));
    })

-- `start` with a task, on a scheduler that is not active.
pub start-IsValid :
    (s : Sched) → IsValid s → s.active ≡ false → 0 < s.task_count → IsValid (start s)
unfolding start dispatch
start-IsValid s v off some_task =
    let picked = pick_next_task s s.bsp_apic_id no_task in
    elim (Bool-cases (ltb picked s.task_count)) [
      | inl e ↦ rw e (first-Valid s picked v off (ltb→lt picked s.task_count e))
      | inr e ↦ rw e (first-Valid s 0 v off some_task)
    ]
