-- ===== src/Sched/Opened.antt =====
-- `preempt` and `start` open the invariant at one CPU: its current task is saved and taken off it, and
-- the CPU is then given a task that no other CPU has, or none.
use vkernel.Common.Arrays.{put, put_same, put_other}
use vkernel.Common.{
  ℕ, ◌≤◌, ◌<◌, ◌≡◌, ◌≢◌, ◌⊎◌, inl, inr, refl, Bool, true, false, arith, ◌==◌, Bool-cases, ==_iff,
  sym, ap, ◌∙◌, ltb, ltb→lt,
}
use vkernel.Sched.Types.{
  Task, Sched, TaskState, is_ready, is_terminated, put_task, cpu_none, no_task, max_tasks,
  max_apic_ids,
}
use vkernel.Sched.Pick.{can_run, matches_cpu_affinity, is_candidate}
use vkernel.Sched.Preempt.{account_task_ticks, save_task, save_current, dispatch_task, dispatch}
use vkernel.Sched.Validity.{Allowed, Valid, IsValid}

-- The invariant while one CPU switches, which says nothing of that CPU.
pub record Open (s : Sched) (apic : ℕ) : Type 0 where
  pub small : s.task_count ≤ max_tasks
  pub known :
      (c : ℕ)
      → c < max_apic_ids
      → c ≢ apic
      → (s.per_cpu_task c < s.task_count) ⊎ (s.per_cpu_task c ≡ no_task)
  pub owner :
      (c : ℕ)
      → c < max_apic_ids
      → c ≢ apic
      → s.per_cpu_task c < s.task_count
      → (s.tasks (s.per_cpu_task c)).current_cpu ≡ c
  pub placed :
      (i c : ℕ)
      → i < s.task_count
      → c < max_apic_ids
      → (s.tasks i).current_cpu ≡ c
      → is_terminated (s.tasks i).state ≡ false
      → ((s.tasks i).affinity_cpu ≡ c) × Allowed s.bsp_apic_id (s.tasks i) i c

pub IsValid-Open : (s : Sched) (apic : ℕ) → IsValid s → Open s apic
IsValid-Open s apic v = record {
  small = v.small;
  known = λ c lt ne. v.known c lt;
  owner = λ c lt ne h. v.owner c lt h;
  placed = v.placed;
}

-- What `dispatch` needs of the task.
pub record Dispatchable (s : Sched) (apic next : ℕ) : Type 0 where
  pub in_use : next < s.task_count
  pub matches : ((s.tasks next).affinity_cpu ≡ cpu_none) ⊎ ((s.tasks next).affinity_cpu ≡ apic)
  pub allowed : Allowed s.bsp_apic_id (s.tasks next) next apic
  pub elsewhere : (c : ℕ) → c < max_apic_ids → c ≢ apic → s.per_cpu_task c ≢ next

dispatch_owner :
    (s : Sched) (apic next c : ℕ)
    → Open s apic
    → Dispatchable s apic next
    → c < max_apic_ids
    → (dispatch s apic next).per_cpu_task c < s.task_count
    → ((dispatch s apic next).tasks ((dispatch s apic next).per_cpu_task c)).current_cpu ≡ c
unfolding dispatch dispatch_task
dispatch_owner s apic next c o p lt = elim (Bool-cases (c == apic)) [
  | inl e ↦ λ h.
      let q : c ≡ apic = (==_iff c apic).0 e in
      rw (e, put_same s.tasks next next (dispatch_task s (s.tasks next) apic) refl) (sym q)
  | inr e ↦
      let ne : c ≢ apic = ground arith in
      rw
        (
          e,
          put_other s.tasks next (s.per_cpu_task c) (dispatch_task s (s.tasks next) apic)
              (p.elsewhere c lt ne),
        )
        (o.owner c lt ne)
]

dispatch_placed :
    (s : Sched) (apic next i c : ℕ)
    → Open s apic
    → Dispatchable s apic next
    → i < s.task_count
    → c < max_apic_ids
    → ((dispatch s apic next).tasks i).current_cpu ≡ c
    → is_terminated ((dispatch s apic next).tasks i).state ≡ false
    → (((dispatch s apic next).tasks i).affinity_cpu ≡ c)
      × Allowed s.bsp_apic_id ((dispatch s apic next).tasks i) i c
unfolding dispatch dispatch_task
dispatch_placed s apic next i c o p hi lt = elim (Bool-cases (i == next)) [
  | inl e ↦
      rw e (λ at alive.
        let q : apic ≡ c = at in (ground arith, rw ((==_iff i next).0 e, ← q) p.allowed))
  | inr e ↦ rw e (o.placed i c hi lt)
]

-- A CPU takes a task that no other CPU has.
pub dispatch-Valid :
    (s : Sched) (apic next : ℕ)
    → Open s apic
    → Dispatchable s apic next
    → Valid
        (dispatch s apic next).tasks
        s.task_count
        (dispatch s apic next).per_cpu_task
        true
        s.bsp_apic_id
unfolding dispatch
dispatch-Valid s apic next o p = record {
  small = o.small;
  known = λ c lt. elim (Bool-cases (c == apic)) [
    | inl e ↦ inl (rw e p.in_use)
    | inr e ↦ rw e (o.known c lt (ground arith))
  ];
  owner = λ c lt. dispatch_owner s apic next c o p lt;
  placed = λ i c hi lt. dispatch_placed s apic next i c o p hi lt;
  quiet = λ h. absurd (cc);
  unplaced = λ h. absurd (cc);
}

pub ready_alive : (t : TaskState) → is_ready t ≡ true → is_terminated t ≡ false
ready_alive TaskState.ready h = refl
ready_alive TaskState.running h = refl
ready_alive TaskState.blocked h = refl
ready_alive TaskState.terminated h = absurd (cc)

-- A ready task that may run here is pinned to no other CPU, so that none has it.
candidate_elsewhere :
    (s : Sched) (apic next c : ℕ)
    → Open s apic
    → next < s.task_count
    → is_candidate s apic next ≡ true
    → c < max_apic_ids
    → c ≢ apic
    → s.per_cpu_task c ≢ next
unfolding can_run matches_cpu_affinity
candidate_elsewhere s apic next c o lt can cl ne same =
    let held : (s.tasks next).current_cpu ≡ c = rw (← same) (o.owner c cl ne (rw same lt)) in
    let alive : is_terminated (s.tasks next).state ≡ false =
      ready_alive (s.tasks next).state (ground arith) in
    let pinned = o.placed next c lt cl held alive in ground (arith, pinned.0)

candidate-Dispatchable :
    (s : Sched) (apic next : ℕ)
    → Open s apic
    → next < s.task_count
    → is_candidate s apic next ≡ true
    → Dispatchable s apic next
unfolding can_run matches_cpu_affinity
candidate-Dispatchable s apic next o lt c = record {
  in_use = lt;
  matches = ground arith;
  allowed = ground arith;
  elsewhere = λ d dl ne. candidate_elsewhere s apic next d o lt c dl ne;
}

-- The current task, off the CPU.
released-Open :
    (s : Sched) (apic : ℕ) (t : Task)
    → apic < max_apic_ids
    → IsValid s
    → s.per_cpu_task apic < s.task_count
    → t.current_cpu ≡ cpu_none
    → Open (put_task s (s.per_cpu_task apic) t) apic
released-Open s apic t a v h off = record {
  small = v.small;
  known = λ c lt ne. v.known c lt;
  owner = λ c lt ne hc.
      let apart : s.per_cpu_task c ≢ s.per_cpu_task apic = λ same.
        ne (sym (v.owner c lt hc) ∙ ap (λ i. (s.tasks i).current_cpu) same ∙ v.owner apic a h) in
      rw (put_other s.tasks (s.per_cpu_task apic) (s.per_cpu_task c) t apart) (v.owner c lt hc);
  placed = λ i c hi lt. elim (Bool-cases (i == s.per_cpu_task apic)) [
    | inl e ↦ rw e (λ at. absurd (omega arith))
    | inr e ↦ rw e (v.placed i c hi lt)
  ];
}

pub save_current-Open :
    (s : Sched) (apic : ℕ) (timer_tick : Bool) (regs : ℕ)
    → apic < max_apic_ids
    → IsValid s
    → Open (save_current s apic (s.per_cpu_task apic) timer_tick regs) apic
unfolding save_current save_task
save_current-Open s apic timer_tick regs a v =
    elim (Bool-cases (ltb (s.per_cpu_task apic) s.task_count)) [
      | inl e ↦ rw e (
          released-Open s apic
            (save_task (account_task_ticks s (s.tasks (s.per_cpu_task apic)) apic timer_tick) regs)
            a v (ltb→lt (s.per_cpu_task apic) s.task_count e) refl)
      | inr e ↦ rw e (IsValid-Open s apic v)
    ]

pub dispatch-IsValid :
    (s : Sched) (apic next : ℕ)
    → Open s apic
    → s.active ≡ true
    → next < s.task_count
    → is_candidate s apic next ≡ true
    → IsValid (dispatch s apic next)
unfolding dispatch
dispatch-IsValid s apic next o on lt can =
    rw on (dispatch-Valid s apic next o (candidate-Dispatchable s apic next o lt can))

-- A CPU goes idle.
pub idle-IsValid :
    (s : Sched) (apic : ℕ)
    → Open s apic
    → s.active ≡ true
    → IsValid (record s { per_cpu_task = put s.per_cpu_task apic no_task })
idle-IsValid s apic o on = record {
  small = o.small;
  known = λ c lt. elim (Bool-cases (c == apic)) [
    | inl e ↦ inr (rw e refl)
    | inr e ↦ rw e (o.known c lt (ground arith))
  ];
  owner = λ c lt. elim (Bool-cases (c == apic)) [
    | inl e ↦ rw e (λ h. absurd (omega (arith, o.small)))
    | inr e ↦ rw e (o.owner c lt (ground arith))
  ];
  placed = o.placed;
  quiet = λ off. absurd (cc);
  unplaced = λ off. absurd (cc);
}
