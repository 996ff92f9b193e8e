-- ===== src/Memory/Bytes.antt =====
-- `memory::set`, `copy` and `move` of src/core/memory.cpp, on a memory of bytes.
use vkernel.Common.{
  ℕ, zero, suc, ◌+◌, ◌%◌, ◌≤◌, ◌<◌, ◌≡◌, ◌⊎◌, inl, inr, refl, arith, ◌==◌, if◌then◌else◌, ltb,
  Bool-cases, ltb→lt, ◌∙◌, ==_iff,
}
use vkernel.Common.Arrays.{put, put_same, put_other}

abbrev pub Memory : Type 0
Memory = ℕ → ℕ

unfoldable pub set_loop : Memory → ℕ → ℕ → ℕ → ℕ → Memory
set_loop m dest c zero i = m
set_loop m dest c (suc k) i = set_loop (put m (dest + i) (c % 256)) dest c k (i + 1)

unfoldable pub set : Memory → ℕ → ℕ → ℕ → Memory
set m dest c n = set_loop m dest c n 0

unfoldable pub copy_loop : Memory → ℕ → ℕ → ℕ → ℕ → Memory
copy_loop m dest src zero i = m
copy_loop m dest src (suc k) i = copy_loop (put m (dest + i) (m (src + i))) dest src k (i + 1)

unfoldable pub copy : Memory → ℕ → ℕ → ℕ → Memory
copy m dest src n = copy_loop m dest src n 0

-- From the last byte down.
unfoldable pub copy_backward : Memory → ℕ → ℕ → ℕ → Memory
copy_backward m dest src zero = m
copy_backward m dest src (suc i) = copy_backward (put m (dest + i) (m (src + i))) dest src i

unfoldable pub move : Memory → ℕ → ℕ → ℕ → Memory
move m dest src n =
    if ltb dest src
    then copy m dest src n
    else (if ltb src dest then copy_backward m dest src n else m)

-- What a copy of `n` bytes must do to a memory, whatever overlaps.
pub record Copied (m : Memory) (dest src n : ℕ) (m' : Memory) : Type 0 where
  pub inside : (j : ℕ) → j < n → m' (dest + j) ≡ m (src + j)
  pub outside : (a : ℕ) → (a < dest) ⊎ (dest + n ≤ a) → m' a ≡ m a

record Stretch (m : Memory) (dest src k i : ℕ) (m' : Memory) : Type 0 where
  inside : (j : ℕ) → i ≤ j → j < i + k → m' (dest + j) ≡ m (src + j)
  outside : (a : ℕ) → (a < dest + i) ⊎ (dest + (i + k) ≤ a) → m' a ≡ m a

copy_loop-Stretch :
    (m : Memory) (dest src k i : ℕ)
    → (dest ≤ src) ⊎ (src + (i + k) ≤ dest)
    → Stretch m dest src k i (copy_loop m dest src k i)
unfolding copy_loop
copy_loop-Stretch m dest src zero i safe = record {
  inside = λ j lo hi. absurd (omega arith);
  outside = λ a h. refl;
}
copy_loop-Stretch m dest src (suc k) i safe =
    let v = m (src + i) in
    let s : (dest ≤ src) ⊎ (src + ((i + 1) + k) ≤ dest) = elim safe [
      | inl h ↦ inl h
      | inr h ↦ inr (omega arith)
    ] in
    let r = copy_loop-Stretch (put m (dest + i) v) dest src k (i + 1) s in
    record {
      inside = λ j lo hi. elim (Bool-cases (j == i)) [
        | inl e ↦
            let q : j ≡ i = (==_iff j i).0 e in
            rw q
              (r.outside (dest + i) (inl (omega arith)) ∙ put_same m (dest + i) (dest + i) v refl)
        | inr e ↦
            let later : i + 1 ≤ j = ground arith in
            r.inside j later (omega arith)
            ∙ put_other m (dest + i) (src + j) v
                (λ q. elim safe [ inl h ↦ absurd (omega arith) | inr h ↦ absurd (omega arith) ])
      ];
      outside = λ a h.
          r.outside a (elim h [ inl l ↦ inl (omega arith) | inr l ↦ inr (omega arith) ])
          ∙ put_other m (dest + i) a v
              (λ q. elim h [ inl l ↦ absurd (omega arith) | inr l ↦ absurd (omega arith) ]);
    }

copy_backward-Copied :
    (m : Memory) (dest src n : ℕ) → src < dest → Copied m dest src n (copy_backward m dest src n)
unfolding copy_backward
copy_backward-Copied m dest src zero lt = record {
  inside = λ j hi. absurd (omega arith);
  outside = λ a h. refl;
}
copy_backward-Copied m dest src (suc i) lt =
    let v = m (src + i) in
    let r = copy_backward-Copied (put m (dest + i) v) dest src i lt in
    record {
      inside = λ j hi. elim (Bool-cases (j == i)) [
        | inl e ↦
            let q : j ≡ i = (==_iff j i).0 e in
            rw q
              (r.outside (dest + i) (inr (omega arith)) ∙ put_same m (dest + i) (dest + i) v refl)
        | inr e ↦
            let before : j < i = ground arith in
            r.inside j before ∙ put_other m (dest + i) (src + j) v (λ q. omega arith)
      ];
      outside = λ a h.
          r.outside a (elim h [ inl l ↦ inl (omega arith) | inr l ↦ inr (omega arith) ])
          ∙ put_other m (dest + i) a v
              (λ q. elim h [ inl l ↦ absurd (omega arith) | inr l ↦ absurd (omega arith) ]);
    }

-- `copy` is right where the destination does not lie behind the source's first byte and in front of
-- its end.
pub copy-Copied :
    (m : Memory) (dest src n : ℕ)
    → (dest ≤ src) ⊎ (src + n ≤ dest)
    → Copied m dest src n (copy m dest src n)
unfolding copy
copy-Copied m dest src n safe =
    let s : (dest ≤ src) ⊎ (src + (0 + n) ≤ dest) = elim safe [
      | inl h ↦ inl h
      | inr h ↦ inr (omega arith)
    ] in
    let r = copy_loop-Stretch m dest src n 0 s in
    record {
      inside = λ j hi. r.inside j (omega arith) (omega arith);
      outside =
          λ a h. r.outside a (elim h [ inl l ↦ inl (omega arith) | inr l ↦ inr (omega arith) ]);
    }

-- `move` copies right for every destination and source, however they overlap: each of the `n` bytes
-- is the source's byte from before the move, and no other byte changes.
pub move-Copied : (m : Memory) (dest src n : ℕ) → Copied m dest src n (move m dest src n)
unfolding move
move-Copied m dest src n = elim (Bool-cases (ltb dest src)) [
  | inl e ↦ rw e (copy-Copied m dest src n (inl (ground arith)))
  | inr e ↦ elim (Bool-cases (ltb src dest)) [
    | inl f ↦ rw (e, f) (copy_backward-Copied m dest src n (ltb→lt src dest f))
    | inr f ↦
        let q : dest ≡ src = ground arith in
        rw (e, f, q) (record { inside = λ j hi. refl; outside = λ a h. refl })
  ]
]

-- What a fill of `n` bytes must do to a memory.
pub record Filled (m : Memory) (dest c n : ℕ) (m' : Memory) : Type 0 where
  pub inside : (j : ℕ) → j < n → m' (dest + j) ≡ c % 256
  pub outside : (a : ℕ) → (a < dest) ⊎ (dest + n ≤ a) → m' a ≡ m a

record FilledFrom (m : Memory) (dest c k i : ℕ) (m' : Memory) : Type 0 where
  inside : (j : ℕ) → i ≤ j → j < i + k → m' (dest + j) ≡ c % 256
  outside : (a : ℕ) → (a < dest + i) ⊎ (dest + (i + k) ≤ a) → m' a ≡ m a

set_loop-FilledFrom :
    (m : Memory) (dest c k i : ℕ) → FilledFrom m dest c k i (set_loop m dest c k i)
unfolding set_loop
set_loop-FilledFrom m dest c zero i = record {
  inside = λ j lo hi. absurd (omega arith);
  outside = λ a h. refl;
}
set_loop-FilledFrom m dest c (suc k) i =
    let v = c % 256 in
    let r = set_loop-FilledFrom (put m (dest + i) v) dest c k (i + 1) in
    record {
      inside = λ j lo hi. elim (Bool-cases (j == i)) [
        | inl e ↦
            let q : j ≡ i = (==_iff j i).0 e in
            rw q
              (r.outside (dest + i) (inl (omega arith)) ∙ put_same m (dest + i) (dest + i) v refl)
        | inr e ↦ let later : i + 1 ≤ j = ground arith in r.inside j later (omega arith)
      ];
      outside = λ a h.
          r.outside a (elim h [ inl l ↦ inl (omega arith) | inr l ↦ inr (omega arith) ])
          ∙ put_other m (dest + i) a v
              (λ q. elim h [ inl l ↦ absurd (omega arith) | inr l ↦ absurd (omega arith) ]);
    }

-- `set` writes the low byte of `c` to each of the `n` bytes and to no other.
pub set-Filled : (m : Memory) (dest c n : ℕ) → Filled m dest c n (set m dest c n)
unfolding set
set-Filled m dest c n =
    let r = set_loop-FilledFrom m dest c n 0 in
    record {
      inside = λ j hi. r.inside j (omega arith) (omega arith);
      outside =
          λ a h. r.outside a (elim h [ inl l ↦ inl (omega arith) | inr l ↦ inr (omega arith) ]);
    }
