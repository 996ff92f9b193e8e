-- ===== src/Sched/Creation.antt =====
-- `create_task` keeps the invariant: it takes a slot whose task ended and left its CPU, or the next
-- slot of the table.
use vkernel.Common.Arrays.{put, put_other}
use vkernel.Common.{
  ℕ, zero, suc, ◌+◌, ◌≤◌, ◌<◌, ◌≡◌, ◌≢◌, ◌⊎◌, inl, inr, refl, Bool, true, false, not, arith, ◌==◌,
  if◌then◌else◌, Bool-cases, Option, none, some, List, [], ==_iff, ==_cases, sym, ap, ◌∙◌, ltb,
  ltb→lt, lt→ltb,
}
use vkernel.Sched.Types.{Task, Sched, cpu_none, max_tasks, max_apic_ids}
use vkernel.Sched.Tasks.{
  find_slot, slot_or_next, is_vacant, find_available_task_slot, name_fits, fresh_task, create_task,
}
use vkernel.Sched.Validity.{Valid, IsValid}
use vkernel.Sched.Operations.{put_task-IsValid}

-- The slot for a new task is at most the next one, and no CPU has a task there.
record IsVacant (s : Sched) (slot : ℕ) : Type 0 where
  near : slot ≤ s.task_count
  vacant : slot < s.task_count → is_vacant (s.tasks slot) ≡ true

find_slot_finds :
    (test : ℕ → Bool) (n i j : ℕ) → find_slot test n i ≡ some j → (j < i + n) × (test j ≡ true)
unfolding find_slot
find_slot_finds test zero i j = λ e. absurd (cc)
find_slot_finds test (suc n) i j = elim (Bool-cases (test i)) [
  | inl t ↦ rw t (λ e. let q : i ≡ j = cc in (omega arith, ap test (sym q) ∙ t))
  | inr t ↦ rw t (λ e. let r = find_slot_finds test n (i + 1) j e in (omega (arith, r.0), r.1))
]

slot_or_next-IsVacant :
    (s : Sched) (o : Option ℕ)
    → ((i : ℕ) → o ≡ some i → IsVacant s i)
    → slot_or_next s o < max_tasks
    → IsVacant s (slot_or_next s o)
unfolding slot_or_next
slot_or_next-IsVacant s (some i) found = λ h. found i refl
slot_or_next-IsVacant s none found = elim (Bool-cases (ltb s.task_count max_tasks)) [
  | inl e ↦ rw e (λ h. record { near = omega arith; vacant = λ lt. absurd (omega arith) })
  | inr e ↦ rw e (λ h. absurd (omega arith))
]

vacant_place :
    (s : Sched) (slot : ℕ)
    → IsVacant s slot
    → (slot ≡ s.task_count) ⊎ ((slot < s.task_count) × (is_vacant (s.tasks slot) ≡ true))
vacant_place s slot p = elim (==_cases slot s.task_count) [
  | inl e ↦ inl e
  | inr ne ↦
      let near = p.near in let lt : slot < s.task_count = omega arith in inr (lt, p.vacant lt)
]

vacant_off : (t : Task) → is_vacant t ≡ true → t.current_cpu ≡ cpu_none
vacant_off t h = ground arith

find_available_task_slot-IsVacant :
    (s : Sched) → find_available_task_slot s < max_tasks → IsVacant s (find_available_task_slot s)
unfolding find_available_task_slot
find_available_task_slot-IsVacant s =
    slot_or_next-IsVacant s (find_slot (λ i. is_vacant (s.tasks i)) s.task_count 0) (λ i e.
      let f = find_slot_finds (λ i. is_vacant (s.tasks i)) s.task_count 0 i e in
      record { near = omega (arith, f.0); vacant = λ lt. f.1 })

-- A new task in a vacant slot.
placed_new-Valid :
    (s : Sched) (slot : ℕ) (t : Task)
    → IsValid s
    → IsVacant s slot
    → slot < max_tasks
    → t.current_cpu ≡ cpu_none
    → t.affinity_cpu ≡ cpu_none
    → (count : ℕ) → s.task_count ≤ count
    → count ≤ max_tasks
    → ((i : ℕ) → i < count → i ≢ slot → i < s.task_count)
    → Valid (put s.tasks slot t) count s.per_cpu_task s.active s.bsp_apic_id
placed_new-Valid s slot t v p h off aff count le fits inside =
    let busy : (c : ℕ)
        → c < max_apic_ids
        → s.per_cpu_task c < count
        → (s.per_cpu_task c < s.task_count) × (s.per_cpu_task c ≢ slot) =
      λ c lt hc.
        let i : s.per_cpu_task c < s.task_count = ground (arith, v.known c lt) in
        (
          i,
          λ same.
              let o : (s.tasks slot).current_cpu ≡ c = rw (← same) (v.owner c lt i) in
              let n : (s.tasks slot).current_cpu ≡ cpu_none =
                vacant_off (s.tasks slot) (p.vacant (rw (← same) i)) in
              absurd (omega arith),
        ) in
    record {
      small = fits;
      known = λ c lt. elim (v.known c lt) [ inl k ↦ inl (omega arith) | inr k ↦ inr k ];
      owner = λ c lt hc.
          let b = busy c lt hc in
          rw (put_other s.tasks slot (s.per_cpu_task c) t b.1) (v.owner c lt b.0);
      placed = λ i c hi lt. elim (Bool-cases (i == slot)) [
        | inl e ↦ rw e (λ at. absurd (omega arith))
        | inr e ↦ rw e (v.placed i c (inside i hi (ground arith)) lt)
      ];
      quiet = v.quiet;
      unplaced = λ silent i hi. elim (Bool-cases (i == slot)) [
        | inl e ↦ rw e aff
        | inr e ↦ rw e (v.unplaced silent i (inside i hi (ground arith)))
      ];
    }

count_after :
    (slot count : ℕ)
    → slot ≤ count
    → slot < max_tasks
    → count ≤ max_tasks
    → (count ≤ (if slot == count then count + 1 else count))
      × ((if slot == count then count + 1 else count) ≤ max_tasks)
      × ((i : ℕ) → i < (if slot == count then count + 1 else count) → i ≢ slot → i < count)
count_after slot count le lt fits = elim (Bool-cases (slot == count)) [
  | inl e ↦ rw e (omega arith, ground arith, λ i hi ne. ground arith)
  | inr e ↦ rw e (omega arith, fits, λ i hi ne. hi)
]

pub create_task-IsValid :
    (s : Sched) (name : List ℕ) (frame context : ℕ)
    → IsValid s
    → IsValid (create_task s name frame context).1
unfolding create_task
create_task-IsValid s name frame context v =
    let slot = find_available_task_slot s in
    elim (Bool-cases (not (ltb slot max_tasks))) [
      | inl e ↦ rw e v
      | inr e ↦ elim (Bool-cases (not (name_fits name))) [
        | inl f ↦
            rw (e, f)
              (put_task-IsValid s slot (record (s.tasks slot) { name = [] }) v
                (record { cpu = refl; kept = λ h. (h, refl, refl); free = λ h. h }))
        | inr f ↦
            rw (e, f)
              (let p = find_available_task_slot-IsVacant s (ltb→lt slot max_tasks (ground arith)) in
                let c =
                  count_after slot s.task_count p.near (ltb→lt slot max_tasks (ground arith))
                    v.small in
                placed_new-Valid s slot (fresh_task s name frame context) v p
                  (ltb→lt slot max_tasks (ground arith)) refl refl
                  (if slot == s.task_count then s.task_count + 1 else s.task_count) c.0 c.1 c.2)
      ]
    ]

not-both : true ≡ false → ⊥
not-both h = cc

find_slot_misses :
    (test : ℕ → Bool) (n i j : ℕ) → find_slot test n i ≡ none → i ≤ j → j < i + n → test j ≡ false
unfolding find_slot
find_slot_misses test zero i j = λ e lo hi. absurd (omega arith)
find_slot_misses test (suc n) i j = elim (Bool-cases (test i)) [
  | inl t ↦ rw t (λ e. absurd (cc))
  | inr t ↦ rw t (λ e lo hi. elim (Bool-cases (j == i)) [
    | inl q ↦ ap test ((==_iff j i).0 q) ∙ t
    | inr q ↦ find_slot_misses test n (i + 1) j e (ground arith) (omega arith)
  ])
]

-- A creation changes at most one entry of the table, whether it succeeds or not: the entry that
-- `find_available_task_slot` gives, which is the next one of the table or one whose task ended and
-- left its CPU. Every other entry, vacant ones included, is as it was.
pub create_task_keeps :
    (s : Sched) (name : List ℕ) (frame context i : ℕ)
    → ((create_task s name frame context).1.tasks i ≡ s.tasks i)
      ⊎ ((i ≡ find_available_task_slot s)
          × ((i ≡ s.task_count) ⊎ ((i < s.task_count) × (is_vacant (s.tasks i) ≡ true))))
unfolding create_task
create_task_keeps s name frame context i =
    let slot = find_available_task_slot s in
    elim (Bool-cases (not (ltb slot max_tasks))) [
      | inl e ↦ inl (rw e refl)
      | inr e ↦ elim (==_cases i slot) [
        | inl same ↦
            let p = find_available_task_slot-IsVacant s (ltb→lt slot max_tasks (ground arith)) in
            inr (same, rw same (vacant_place s slot p))
        | inr apart ↦ elim (Bool-cases (not (name_fits name))) [
          | inl f ↦
              inl (rw (e, f) (put_other s.tasks slot i (record (s.tasks slot) { name = [] }) apart))
          | inr f ↦
              inl (rw (e, f) (put_other s.tasks slot i (fresh_task s name frame context) apart))
        ]
      ]
    ]

slot_or_next_bounded :
    (s : Sched) (o : Option ℕ)
    → ((i : ℕ) → o ≡ some i → i < max_tasks)
    → (o ≡ none → s.task_count < max_tasks)
    → slot_or_next s o < max_tasks
unfolding slot_or_next
slot_or_next_bounded s (some i) found missed = found i refl
slot_or_next_bounded s none found missed =
    rw (lt→ltb s.task_count max_tasks (missed refl)) (missed refl)

-- With a name of at most 31 characters and a slot that is free, at the end of the table or behind a
-- task that ended and left its CPU, a creation succeeds and returns the next id.
pub create_task_succeeds :
    (s : Sched) (name : List ℕ) (frame context j : ℕ)
    → s.task_count ≤ max_tasks
    → name_fits name ≡ true
    → j < max_tasks
    → ((j ≡ s.task_count) ⊎ ((j < s.task_count) × (is_vacant (s.tasks j) ≡ true)))
    → (create_task s name frame context).0 ≡ some s.next_task_id
unfolding create_task find_available_task_slot
create_task_succeeds s name frame context j fits short lt free =
    let test : ℕ → Bool = λ i. is_vacant (s.tasks i) in
    let slot : find_available_task_slot s < max_tasks =
      slot_or_next_bounded s (find_slot test s.task_count 0)
        (λ i e. omega (arith, (find_slot_finds test s.task_count 0 i e).0))
        (λ e. elim free [
          | inl q ↦ omega arith
          | inr v ↦ absurd (
              not-both (
                sym v.1
                ∙ find_slot_misses test s.task_count 0 j e (omega arith) (omega (arith, v.0))))
        ]) in
    rw (lt→ltb (find_available_task_slot s) max_tasks slot, short) refl
