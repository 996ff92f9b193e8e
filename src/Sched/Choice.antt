-- ===== src/Sched/Choice.antt =====
-- What `pick_next_task` chooses: the nearest candidate in the cyclic order of the slots from the
-- current one on, and the idle task only if there is none.
use vkernel.Common.{
  ℕ, zero, suc, ◌+◌, ◌-◌, ◌%◌, ◌≤◌, ◌<◌, ◌≡◌, ◌≢◌, ◌⊎◌, inl, inr, refl, Bool, true, false, ◌&&◌,
  arith, ◌==◌, if◌then◌else◌, ltb, Bool-cases, ltb→lt, lt→ltb, ap, sym, ◌∙◌,
}
use native.Mathlib.Nat.{mod-lt, mod-eq_of_lt, mod-eq-sub-mod}
use vkernel.Sched.Types.{Sched, no_task, max_tasks}
use vkernel.Sched.Pick.{
  can_run, is_candidate, slot_of_round, pick_loop, pick_fallback, start_slot, pick_next_task,
}

-- The number of steps from slot `start` on to slot `j`, in the cycle of the slots 1, 2, ...
abbrev pub distance : ℕ → ℕ → ℕ → ℕ
distance count start j = if ltb start j then j - start else j + (count - 1) - start

mod_once : (x m : ℕ) → m ≤ x → x < m + m → x % m ≡ x - m
mod_once x m h lt = mod-eq-sub-mod h ∙ mod-eq_of_lt {m = m} (omega arith)

slot_bounds :
    (count start i : ℕ)
    → 2 ≤ count
    → (1 ≤ slot_of_round count start i) × (slot_of_round count start i < count)
slot_bounds count start i h =
    let p : 0 < count - 1 = omega arith in omega (arith, mod-lt (start + i - 1) p)

slot_value :
    (count start k : ℕ)
    → start < count
    → 1 ≤ k
    → k < count
    → slot_of_round count start k
      ≡ (if ltb (start + k) count then start + k else start + k - (count - 1))
slot_value count start k s lo hi = elim (Bool-cases (ltb (start + k) count)) [
  | inl e ↦
      let lt : start + k - 1 < count - 1 = ground arith in
      let m : (start + k - 1) % (count - 1) ≡ start + k - 1 = mod-eq_of_lt lt in ground (arith, m)
  | inr e ↦
      let le : count - 1 ≤ start + k - 1 = ground arith in
      let m : (start + k - 1) % (count - 1) ≡ start + k - 1 - (count - 1) =
        mod_once (start + k - 1) (count - 1) le (omega arith) in
      ground (arith, m)
]

-- A round's slot is as far as the round's number.
distance-slot :
    (count start k : ℕ)
    → start < count
    → 1 ≤ k
    → k < count
    → distance count start (slot_of_round count start k) ≡ k
distance-slot count start k s lo hi = ground (arith, slot_value count start k s lo hi)

distance_bounds :
    (count start j : ℕ)
    → start < count
    → 1 ≤ j
    → j < count
    → (1 ≤ distance count start j) × (distance count start j < count)
distance_bounds count start j s lo hi = ground arith

-- The round that looks at a slot.
slot-distance :
    (count start j : ℕ)
    → start < count
    → 1 ≤ j
    → j < count
    → slot_of_round count start (distance count start j) ≡ j
slot-distance count start j s lo hi =
    let b = distance_bounds count start j s lo hi in
    ground (arith, slot_value count start (distance count start j) s b.0 b.1)

not-false : true ≡ false → ⊥
not-false h = cc

-- The loop's result, with a candidate in one of the rounds left.
pick_loop_finds :
    (s : Sched) (apic start rounds i k : ℕ)
    → i ≤ k
    → k < i + rounds
    → is_candidate s apic (slot_of_round s.task_count start k) ≡ true
    → (r : ℕ) × (i ≤ r)
      × (r ≤ k)
      × (pick_loop s apic start rounds i ≡ slot_of_round s.task_count start r)
      × (is_candidate s apic (slot_of_round s.task_count start r) ≡ true)
unfolding pick_loop
pick_loop_finds s apic start zero i k lo hi c = absurd (omega arith)
pick_loop_finds s apic start (suc rounds) i k lo hi c =
    elim (Bool-cases (is_candidate s apic (slot_of_round s.task_count start i))) [
      | inl e ↦ (i, omega arith, lo, rw e refl, e)
      | inr e ↦
          let ne : i ≢ k = λ q. not-false (
            sym c
            ∙ ap (λ t. is_candidate s apic (slot_of_round s.task_count start t)) (sym q)
            ∙ e) in
          let f = pick_loop_finds s apic start rounds (i + 1) k (omega arith) (omega arith) c in
          (f.0, omega (arith, f.1), f.2, rw e f.3, f.4)
    ]

pick_loop_sound :
    (s : Sched) (apic start rounds i : ℕ)
    → 2 ≤ s.task_count
    → (pick_loop s apic start rounds i ≡ no_task)
      ⊎ ((1 ≤ pick_loop s apic start rounds i)
          × (pick_loop s apic start rounds i < s.task_count)
          × (is_candidate s apic (pick_loop s apic start rounds i) ≡ true))
unfolding pick_loop
pick_loop_sound s apic start zero i h = inl refl
pick_loop_sound s apic start (suc rounds) i h =
    ground
      (arith, slot_bounds s.task_count start i h, pick_loop_sound s apic start rounds (i + 1) h)

-- The choice is no task at all, or a slot in use whose task is ready and may run on this CPU.
abbrev pub Chosen : Sched → ℕ → ℕ → Type 0
Chosen s apic x = (x ≡ no_task) ⊎ ((x < s.task_count) × (is_candidate s apic x ≡ true))

candidate-in_use : (s : Sched) (apic i : ℕ) → is_candidate s apic i ≡ true → i < s.task_count
unfolding can_run
candidate-in_use s apic i h = ground arith

choose-Chosen :
    (s : Sched) (apic x y : ℕ) (b : Bool)
    → (b ≡ true → (x < s.task_count) × (is_candidate s apic x ≡ true))
    → Chosen s apic y
    → Chosen s apic (if b then x else y)
choose-Chosen s apic x y true h c = inr (h refl)
choose-Chosen s apic x y false h c = c

pick_fallback-Chosen : (s : Sched) (apic cur : ℕ) → Chosen s apic (pick_fallback s apic cur)
unfolding pick_fallback
pick_fallback-Chosen s apic cur =
    choose-Chosen s apic cur (if is_candidate s apic 0 then 0 else no_task)
      (ltb 0 cur && (ltb cur s.task_count && is_candidate s apic cur)) (λ h. ground arith)
      (choose-Chosen s apic 0 no_task (is_candidate s apic 0)
        (λ h. (candidate-in_use s apic 0 h, h)) (inl refl))

pick_next_task_found :
    (s : Sched) (apic cur : ℕ)
    → 1 < s.task_count
    → s.task_count ≤ max_tasks
    → pick_loop s apic (start_slot s cur) (s.task_count - 1) 1 < s.task_count
    → pick_next_task s apic cur ≡ pick_loop s apic (start_slot s cur) (s.task_count - 1) 1
unfolding pick_next_task
pick_next_task_found s apic cur lo hi h =
    let found = pick_loop s apic (start_slot s cur) (s.task_count - 1) 1 in
    let a : (s.task_count == 0) ≡ false = ground arith in
    let b : ltb 1 s.task_count ≡ true = lt→ltb 1 s.task_count lo in
    let c : (found == no_task) ≡ false = ground arith in rw (a, b, c) refl

-- Whatever slot a CPU leaves, with at most 64 slots in use: the choice is no task at all, or a slot
-- in use whose task is ready and may run on this CPU.
pub pick_next_task_sound :
    (s : Sched) (apic cur : ℕ)
    → s.task_count ≤ max_tasks
    → Chosen s apic (pick_next_task s apic cur)
unfolding pick_next_task
pick_next_task_sound s apic cur fits = elim (Bool-cases (s.task_count == 0)) [
  | inl e ↦ rw e (inl refl)
  | inr e ↦
      let back = pick_fallback-Chosen s apic cur in
      elim (Bool-cases (ltb 1 s.task_count)) [
        | inr f ↦ rw (e, f) back
        | inl f ↦
            elim (pick_loop_sound s apic (start_slot s cur) (s.task_count - 1) 1
              (ltb→lt 1 s.task_count f)) [
                | inl g ↦ rw (e, f, g) back
                | inr g ↦
                    rw (pick_next_task_found s apic cur (ltb→lt 1 s.task_count f) fits g.1)
                      (inr (g.1, g.2))
              ]
      ]
]

-- If a task other than the idle task may be chosen, then such a task is chosen, and none that may
-- be chosen comes before it on the way round from the current slot.
pub pick_next_task_nearest :
    (s : Sched) (apic cur j : ℕ)
    → s.task_count ≤ max_tasks
    → 1 ≤ j
    → j < s.task_count
    → is_candidate s apic j ≡ true
    → (1 ≤ pick_next_task s apic cur)
      × (pick_next_task s apic cur < s.task_count)
      × (is_candidate s apic (pick_next_task s apic cur) ≡ true)
      × (distance s.task_count (start_slot s cur) (pick_next_task s apic cur)
          ≤ distance s.task_count (start_slot s cur) j)
unfolding pick_next_task
pick_next_task_nearest s apic cur j fits lo hi c =
    let start = start_slot s cur in
    let in_use : start < s.task_count = ground arith in
    let b = distance_bounds s.task_count start j in_use lo hi in
    let f =
      pick_loop_finds s apic start (s.task_count - 1) 1 (distance s.task_count start j) b.0
        (omega (arith, b.1)) (rw (slot-distance s.task_count start j in_use lo hi) c) in
    let v = slot_bounds s.task_count start f.0 (omega arith) in
    let pick : pick_next_task s apic cur ≡ slot_of_round s.task_count start f.0 =
      pick_next_task_found s apic cur (omega arith) fits (rw f.3 v.1) ∙ f.3 in
    rw pick (
      v.0,
      v.1,
      f.4,
      omega (arith, f.2, distance-slot s.task_count start f.0 in_use f.1 (omega (arith, b.1, f.2))),
    )

-- A candidate in use is enough for a choice.
pub pick_next_task_some :
    (s : Sched) (apic cur j : ℕ)
    → s.task_count ≤ max_tasks
    → j < s.task_count
    → is_candidate s apic j ≡ true
    → pick_next_task s apic cur < s.task_count
unfolding pick_next_task pick_fallback
pick_next_task_some s apic cur zero fits hi c = elim (pick_next_task_sound s apic cur fits) [
  | inr g ↦ g.0
  | inl g ↦ ground (arith, g)
]
pick_next_task_some s apic cur (suc j) fits hi c =
    (pick_next_task_nearest s apic cur (suc j) fits (omega arith) hi c).1
