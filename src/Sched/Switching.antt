-- ===== src/Sched/Switching.antt =====
-- `preempt` keeps the invariant: either the CPU is given the chosen task, or it goes idle, or it had no
-- task to save.
use vkernel.Common.Arrays.{put_same}
use vkernel.Common.{
  ℕ, ◌≤◌, ◌<◌, ◌≡◌, inl, inr, refl, Bool, true, false, ◌&&◌, ◌||◌, not, arith, ◌==◌, if◌then◌else◌,
  Bool-cases, ==_iff, sym, ap, ◌∙◌, ltb, leb, ltb→lt, lt→ltb,
}
use vkernel.Sched.Types.{
  Task, Sched, TaskState, is_ready, is_running, is_runnable, is_terminated, is_blocked, put_task,
  cpu_none, max_tasks, max_apic_ids,
}
use vkernel.Sched.Pick.{pick_next_task, can_run, matches_cpu_affinity, is_candidate}
use vkernel.Sched.Preempt.{
  ended_context, wake_task, wake_sleeping_tasks, account_task_ticks, save_task, save_current,
  count_tick, switch_task, preempt,
}
use vkernel.Sched.Choice.{pick_next_task_some, pick_next_task_sound}
use vkernel.Sched.Validity.{Allowed, IsValid, Calm, Calm-refl, Calm-Valid}
use vkernel.Sched.Opened.{save_current-Open, dispatch-IsValid, idle-IsValid}

wake_task-Calm : (now : ℕ) (t : Task) → Calm t (wake_task now t)
unfolding wake_task
wake_task-Calm now t = elim (Bool-cases (is_blocked t.state && leb t.wake_tick now)) [
  | inl e ↦ rw e (record { cpu = refl; kept = λ h. (ground arith, refl, refl); free = λ h. h })
  | inr e ↦ rw e (Calm-refl t)
]

wake_sleeping_tasks-IsValid : (s : Sched) → IsValid s → IsValid (wake_sleeping_tasks s)
unfolding wake_sleeping_tasks
wake_sleeping_tasks-IsValid s v =
    Calm-Valid s.tasks (wake_sleeping_tasks s).tasks s.task_count s.per_cpu_task s.active
      s.bsp_apic_id v
      (λ i. elim (Bool-cases (ltb i s.task_count)) [
        | inl e ↦ rw e (wake_task-Calm s.tick_count (s.tasks i))
        | inr e ↦ rw e (Calm-refl (s.tasks i))
      ])

count_tick-IsValid : (s : Sched) (apic : ℕ) → IsValid s → IsValid (count_tick s apic)
unfolding count_tick
count_tick-IsValid s apic v = elim (Bool-cases (s.yield_in_progress apic)) [
  | inl e ↦ rw e v
  | inr e ↦ elim (Bool-cases (apic == s.bsp_apic_id)) [ inl f ↦ rw (e, f) v | inr f ↦ rw (e, f) v ]
]

-- The save leaves the fields that the choice reads, but for the state.
account_kept :
    (s : Sched) (t : Task) (apic : ℕ) (timer_tick : Bool)
    → ((account_task_ticks s t apic timer_tick).state ≡ t.state)
      × ((account_task_ticks s t apic timer_tick).affinity_cpu ≡ t.affinity_cpu)
      × ((account_task_ticks s t apic timer_tick).allow_secondary_cpu ≡ t.allow_secondary_cpu)
unfolding account_task_ticks
account_kept s t apic timer_tick = elim (Bool-cases (t.current_cpu == cpu_none)) [
  | inl e ↦ rw e (refl, refl, refl)
  | inr e ↦ rw e (refl, refl, refl)
]

abbrev saved_state : TaskState → Bool → TaskState
saved_state st owns =
    if not (is_terminated st && owns) && is_running st then TaskState.ready else st

saved_state_ready :
    (st : TaskState) (owns : Bool)
    → is_ready (saved_state st owns) || is_running (saved_state st owns) ≡ true
    → (is_ready (saved_state st owns) ≡ true) × (is_terminated st ≡ false)
saved_state_ready TaskState.ready owns h = (refl, refl)
saved_state_ready TaskState.running owns h = (refl, refl)
saved_state_ready TaskState.blocked owns h = absurd (cc)
saved_state_ready TaskState.terminated true h = absurd (cc)
saved_state_ready TaskState.terminated false h = absurd (cc)

saved_ready :
    (t : Task) (regs : ℕ)
    → is_runnable (save_task t regs) ≡ true
    → (is_ready (save_task t regs).state ≡ true) × (is_terminated t.state ≡ false)
unfolding save_task
saved_ready t regs h = saved_state_ready t.state (not (t.user_data == 0)) h

save_current_kept :
    (s : Sched) (apic : ℕ) (timer_tick : Bool) (regs : ℕ)
    → ((save_current s apic (s.per_cpu_task apic) timer_tick regs).active ≡ s.active)
      × ((save_current s apic (s.per_cpu_task apic) timer_tick regs).task_count ≡ s.task_count)
unfolding save_current
save_current_kept s apic timer_tick regs =
    elim (Bool-cases (ltb (s.per_cpu_task apic) s.task_count)) [
      | inl e ↦ rw e (refl, refl)
      | inr e ↦ rw e (refl, refl)
    ]

-- The current task could go on here, if it is still runnable.
saved_candidate :
    (s : Sched) (apic : ℕ) (t : Task)
    → apic < max_apic_ids
    → IsValid s
    → s.per_cpu_task apic < s.task_count
    → t.affinity_cpu ≡ (s.tasks (s.per_cpu_task apic)).affinity_cpu
    → t.allow_secondary_cpu ≡ (s.tasks (s.per_cpu_task apic)).allow_secondary_cpu
    → is_terminated (s.tasks (s.per_cpu_task apic)).state ≡ false
    → is_ready t.state ≡ true
    → is_candidate (put_task s (s.per_cpu_task apic) t) apic (s.per_cpu_task apic) ≡ true
unfolding can_run matches_cpu_affinity
saved_candidate s apic t a v lt aff allow alive r =
    let cur = s.per_cpu_task apic in
    let p = v.placed cur apic lt a (v.owner apic a lt) alive in
    let aff' : (t.affinity_cpu == apic) ≡ true = (==_iff t.affinity_cpu apic).1 (aff ∙ p.0) in
    let q : Allowed s.bsp_apic_id t cur apic = rw allow p.1 in
    rw (put_same s.tasks cur cur t refl, r, aff', lt→ltb cur s.task_count lt) (ground (arith, q))

chosen_candidate :
    (s : Sched) (apic cur : ℕ)
    → s.task_count ≤ max_tasks
    → pick_next_task s apic cur < s.task_count
    → is_candidate s apic (pick_next_task s apic cur) ≡ true
chosen_candidate s apic cur fits lt = elim (pick_next_task_sound s apic cur fits) [
  | inl e ↦ absurd (omega arith)
  | inr c ↦ c.1
]

goes_on :
    (s : Sched) (apic : ℕ) (timer_tick : Bool) (regs : ℕ)
    → apic < max_apic_ids
    → IsValid s
    → s.per_cpu_task apic < s.task_count
    → is_runnable
        ((save_current s apic (s.per_cpu_task apic) timer_tick regs).tasks (s.per_cpu_task apic))
      ≡ true
    → pick_next_task
        (save_current s apic (s.per_cpu_task apic) timer_tick regs)
        apic
        (s.per_cpu_task apic)
      < s.task_count
unfolding save_current save_task
goes_on s apic timer_tick regs a v lt =
    let cur = s.per_cpu_task apic in
    let t = account_task_ticks s (s.tasks cur) apic timer_tick in
    let u = save_task t regs in
    let k = account_kept s (s.tasks cur) apic timer_tick in
    rw (lt→ltb cur s.task_count lt) (λ h.
      let r = saved_ready t regs (ap is_runnable (sym (put_same s.tasks cur cur u refl)) ∙ h) in
      pick_next_task_some (put_task s cur u) apic cur cur v.small lt
        (saved_candidate s apic u a v lt k.1 k.2 (ap is_terminated (sym k.0) ∙ r.1) r.0))

save_current_idle :
    (s : Sched) (apic : ℕ) (timer_tick : Bool) (regs : ℕ)
    → ltb (s.per_cpu_task apic) s.task_count ≡ false
    → save_current s apic (s.per_cpu_task apic) timer_tick regs ≡ s
unfolding save_current
save_current_idle s apic timer_tick regs e = rw e refl

and_not : (a b : Bool) → a ≡ true → a && not b ≡ false → b ≡ true
and_not true true h g = refl
and_not true false h g = absurd (cc)
and_not false b h g = absurd (cc)

stays-IsValid :
    (s : Sched) (apic : ℕ) (timer_tick : Bool) (regs : ℕ)
    → apic < max_apic_ids
    → IsValid s
    → (saved : Sched) → saved ≡ save_current s apic (s.per_cpu_task apic) timer_tick regs
    → saved.task_count ≡ s.task_count
    → ltb (pick_next_task saved apic (s.per_cpu_task apic)) saved.task_count ≡ false
    → ltb (s.per_cpu_task apic) saved.task_count
        && not (is_runnable (saved.tasks (s.per_cpu_task apic)))
      ≡ false
    → IsValid saved
stays-IsValid s apic timer_tick regs a v saved q n e f =
    elim (Bool-cases (ltb (s.per_cpu_task apic) s.task_count)) [
      | inr g ↦ rw (q, save_current_idle s apic timer_tick regs g) v
      | inl g ↦
          let run : is_runnable (saved.tasks (s.per_cpu_task apic)) ≡ true =
            and_not (ltb (s.per_cpu_task apic) saved.task_count)
              (is_runnable (saved.tasks (s.per_cpu_task apic))) (rw n g) f in
          let lt : pick_next_task saved apic (s.per_cpu_task apic) < s.task_count = rw q (
            goes_on s apic timer_tick regs a v (ltb→lt (s.per_cpu_task apic) s.task_count g)
              (rw (← q) run)) in
          absurd (ground (arith, lt, n, e))
    ]

-- Without a next task, a current task that could still run would have been chosen itself.
switch_task-Valid :
    (s : Sched) (apic cleanup : ℕ) (timer_tick : Bool) (regs : ℕ)
    → apic < max_apic_ids
    → IsValid s
    → s.active ≡ true
    → IsValid
        (switch_task
          (save_current s apic (s.per_cpu_task apic) timer_tick regs)
          apic
          (s.per_cpu_task apic)
          cleanup).sched
unfolding switch_task
switch_task-Valid s apic cleanup timer_tick regs a v on =
    let cur = s.per_cpu_task apic in
    let saved = save_current s apic cur timer_tick regs in
    let o = save_current-Open s apic timer_tick regs a v in
    let next = pick_next_task saved apic cur in
    let kept = save_current_kept s apic timer_tick regs in
    elim (Bool-cases (ltb next saved.task_count)) [
      | inl e ↦ rw e (
          dispatch-IsValid saved apic next o (kept.0 ∙ on) (ltb→lt next saved.task_count e)
            (chosen_candidate saved apic cur o.small (ltb→lt next saved.task_count e)))
      | inr e ↦
          elim (Bool-cases (ltb cur saved.task_count && not (is_runnable (saved.tasks cur)))) [
            | inl f ↦ rw (e, f) (idle-IsValid saved apic o (kept.0 ∙ on))
            | inr f ↦ rw (e, f) (stays-IsValid s apic timer_tick regs a v saved refl kept.1 e f)
          ]
    ]

wake_active : (s : Sched) → (wake_sleeping_tasks s).active ≡ s.active
unfolding wake_sleeping_tasks
wake_active s = refl

on_of : (b c : Bool) → not b || c ≡ false → b ≡ true
on_of true c h = refl
on_of false c h = absurd (cc)

-- Whoever the timer interrupts, and whatever the CPU ran.
pub preempt-IsValid :
    (s : Sched) (apic regs : ℕ)
    → apic < max_apic_ids
    → IsValid s
    → IsValid (preempt s apic regs).sched
unfolding preempt
preempt-IsValid s apic regs a v =
    let s1 = count_tick s apic in
    let s2 = wake_sleeping_tasks s1 in
    let v1 = count_tick-IsValid s apic v in
    elim (Bool-cases (not s1.active || ltb s1.task_count 2)) [
      | inl e ↦ rw e v1
      | inr e ↦ rw e (
          switch_task-Valid s2 apic
            (if ltb (s2.per_cpu_task apic) s2.task_count
              then ended_context (s2.tasks (s2.per_cpu_task apic))
              else 0)
            (not (s.yield_in_progress apic)) regs a (wake_sleeping_tasks-IsValid s1 v1)
            (wake_active s1 ∙ on_of s1.active (ltb s1.task_count 2) e))
    ]
