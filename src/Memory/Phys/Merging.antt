-- ===== src/Memory/Phys/Merging.antt =====
-- The walk of `free_pages`: it releases one region, and merging changes the state of no address.
use vkernel.Common.{
  ℕ, ◌+◌, ◌≤◌, ◌<◌, ◌≡◌, ◌↔◌, inl, inr, refl, subst, ◌∙◌, true, false, not, ◌&&◌, ◌||◌, Option,
  none, some, List, [], ◌∷◌, arith, length, Bool-cases, Option-cases, ◌==◌, if◌then◌else◌,
}
use vkernel.Common.Words.{add64}
use vkernel.Memory.Phys.Types.{MemoryRegion}
use vkernel.Memory.Phys.Free.{
  merge_next, merge_prev, is_allocated_at, free_after, free_loop, grow, region_end,
}
use vkernel.Memory.Phys.Layout.{Placed, Layout}
use vkernel.Memory.Phys.Coverage.{used_at, free_at, holds, nothing_below}

-- The region that a release at `addr` finds: the first used one that starts there.
unfoldable pub allocated_at : ℕ → List MemoryRegion → Option MemoryRegion
allocated_at addr [] = none
allocated_at addr (r ∷ rs) = if r.start == addr && r.used then some r else allocated_at addr rs

-- Two lists say the same of an address.
record SameAt (xs ys : List MemoryRegion) (x : ℕ) : Type 0 where
  used : used_at xs x ≡ used_at ys x
  free : free_at xs x ≡ free_at ys x

abbrev released : MemoryRegion → MemoryRegion
released r = record r { used = false }

-- What merging makes of a list and a node count.
pub record Merges (lo pool : ℕ) (before after : List MemoryRegion) (pool' : ℕ) : Type 0 where
  pub layout : Layout lo after
  pub nodes : pool' + length before ≡ pool + length after
  pub fewer : pool' ≤ pool

merge_next-SameAt :
    (pool lo x : ℕ) (r : MemoryRegion) (rs : List MemoryRegion)
    → r.used ≡ false
    → Layout lo (r ∷ rs)
    → SameAt (merge_next pool r rs).0 (r ∷ rs) x
unfolding merge_next
merge_next-SameAt pool lo x r [] f l = record { used = refl; free = refl }
merge_next-SameAt pool lo x r (n ∷ rs) f l = ground arith

-- Growing a region over its neighbour.
grow-Layout :
    (lo : ℕ) (r n : MemoryRegion) (rs : List MemoryRegion)
    → region_end r ≡ n.start
    → Layout lo (r ∷ n ∷ rs)
    → Layout lo (grow r n ∷ rs)
grow-Layout lo r n rs e l =
    let fin : r.start + add64 r.size n.size ≡ n.start + n.size = omega arith in
    ((l.0.0, omega arith, omega arith), rw fin l.1.1)

merge_next-Merges :
    (pool lo : ℕ) (r : MemoryRegion) (rs : List MemoryRegion)
    → length rs < pool
    → Layout lo (r ∷ rs)
    → Merges lo pool (r ∷ rs) (merge_next pool r rs).0 (merge_next pool r rs).1
unfolding merge_next
merge_next-Merges pool lo r [] p l = record { layout = l; nodes = refl; fewer = omega arith }
merge_next-Merges pool lo r (n ∷ rs) p l =
    elim (Bool-cases (not n.used && region_end r == n.start)) [
      | inl merged ↦
          rw (merged, merge_next)
            (record {
              layout = grow-Layout lo r n rs (ground arith) l;
              nodes = ground arith;
              fewer = ground arith;
            })
      | inr apart ↦
          rw (apart, merge_next) (record { layout = l; nodes = refl; fewer = omega arith })
    ]

-- `merge_prev` with a list whose head is free.
module _ (prev r : MemoryRegion) (rs : List MemoryRegion) (pool lo : ℕ)
    (l : Layout lo (prev ∷ r ∷ rs)) where
  merge_prev-SameAt :
      (x : ℕ) → r.used ≡ false → SameAt (merge_prev prev (r ∷ rs, pool)).0 (prev ∷ r ∷ rs) x
  unfolding merge_prev
  merge_prev-SameAt x f = ground arith

  merge_prev-Merges :
      length rs < pool
      → Merges lo pool
          (prev ∷ r ∷ rs)
          (merge_prev prev (r ∷ rs, pool)).0
          (merge_prev prev (r ∷ rs, pool)).1
  unfolding merge_prev
  merge_prev-Merges p = elim (Bool-cases (not prev.used && region_end prev == r.start)) [
    | inl merged ↦
        rw (merged, merge_prev)
          (record {
            layout = grow-Layout lo prev r rs (ground arith) l;
            nodes = ground arith;
            fewer = ground arith;
          })
    | inr apart ↦ rw (apart, merge_prev) (record { layout = l; nodes = refl; fewer = omega arith })
  ]

-- What a release does to the list and the node count, at an address `x`.
pub record Frees (lo pool : ℕ) (r : MemoryRegion) (before after : List MemoryRegion) (pool' x : ℕ)
    : Type 0 where
  pub merges : Merges lo pool before after pool'
  pub used : used_at after x ≡ (used_at before x && not (holds r x))
  pub free : free_at after x ≡ (free_at before x || holds r x)

-- The released region alone, before any merge.
release-Frees :
    (lo : ℕ) (r : MemoryRegion) (rs : List MemoryRegion) (x : ℕ)
    → r.used ≡ true
    → Layout lo (r ∷ rs)
    → (used_at (released r ∷ rs) x ≡ (used_at (r ∷ rs) x && not (holds r x)))
      × (free_at (released r ∷ rs) x ≡ (free_at (r ∷ rs) x || holds r x))
release-Frees lo r rs x u l = ground (arith, nothing_below (r.start + r.size) rs x l.1)

merge_next-Frees :
    (pool lo x : ℕ) (r : MemoryRegion) (rs : List MemoryRegion)
    → r.used ≡ true
    → length rs < pool
    → Layout lo (r ∷ rs)
    → Frees lo pool r
        (r ∷ rs)
        (merge_next pool (released r) rs).0
        (merge_next pool (released r) rs).1
        x
merge_next-Frees pool lo x r rs u p l =
    let m = merge_next-Merges pool lo (released r) rs p l in
    let s = merge_next-SameAt pool lo x (released r) rs refl l in
    let f = release-Frees lo r rs x u l in
    record {
      merges = record { layout = m.layout; nodes = m.nodes; fewer = m.fewer };
      used = s.used ∙ f.0;
      free = s.free ∙ f.1;
    }

abbrev HeadIsFree : List MemoryRegion → Type 0
HeadIsFree [] = Unit {0}
HeadIsFree (r ∷ rs) = r.used ≡ false

merge_next-HeadIsFree :
    (pool : ℕ) (r : MemoryRegion) (rs : List MemoryRegion)
    → r.used ≡ false
    → HeadIsFree (merge_next pool r rs).0
unfolding merge_next
merge_next-HeadIsFree pool r [] f = f
merge_next-HeadIsFree pool r (n ∷ rs) f =
    elim (Bool-cases (not n.used && region_end r == n.start)) [
      | inl merged ↦ rw (merged, merge_next) f
      | inr apart ↦ rw (apart, merge_next) f
    ]

-- The step back over `prev`, which ends before the region that was released.
module _ (lo pool pool' x : ℕ) (prev r : MemoryRegion) (rs : List MemoryRegion) where
  merge_prev-Frees :
      (ys : List MemoryRegion)
      → Placed lo prev
      → prev.start + prev.size ≤ r.start
      → HeadIsFree ys
      → length rs + 1 < pool
      → Frees (prev.start + prev.size) pool r (r ∷ rs) ys pool' x
      → let (zs, pool'') = merge_prev prev (ys, pool') in
        Frees lo pool r (prev ∷ r ∷ rs) zs pool'' x
  unfolding merge_prev
  merge_prev-Frees [] p h f n g = record {
    merges = record {
      layout = (p, tt);
      nodes = omega (arith, g.merges.nodes);
      fewer = g.merges.fewer;
    };
    used = ground (arith, g.used);
    free = ground (arith, g.free);
  }
  merge_prev-Frees (y ∷ ys) p h f n g =
      let c = g.merges.nodes in
      let l : Layout lo (prev ∷ y ∷ ys) = (p, g.merges.layout) in
      let m = merge_prev-Merges prev y ys pool' lo l (omega arith) in
      let s = merge_prev-SameAt prev y ys pool' lo l x f in
      record {
        merges = record {
          layout = m.layout;
          nodes = omega (arith, m.nodes);
          fewer = omega (arith, m.fewer, g.merges.fewer);
        };
        used = s.used ∙ ground (arith, g.used);
        free = s.free ∙ ground (arith, g.free);
      }

allocated_at-above :
    (addr lo : ℕ) (rs : List MemoryRegion) (r : MemoryRegion)
    → Layout lo rs
    → allocated_at addr rs ≡ some r
    → lo ≤ r.start
unfolding allocated_at
allocated_at-above addr lo [] r l e = absurd (cc)
allocated_at-above addr lo (s ∷ rs) r l e =
    ground (arith, allocated_at-above addr (s.start + s.size) rs r l.1)

-- A region before the released one stays as it is.
Frees-cons :
    (lo pool x : ℕ) (prev r : MemoryRegion) (rs ys : List MemoryRegion) (pool' : ℕ)
    → Placed lo prev
    → prev.start + prev.size ≤ r.start
    → Frees (prev.start + prev.size) pool r rs ys pool' x
    → Frees lo pool r (prev ∷ rs) (prev ∷ ys) pool' x
Frees-cons lo pool x prev r rs ys pool' p h g = record {
  merges = record {
    layout = (p, g.merges.layout);
    nodes = omega (arith, g.merges.nodes);
    fewer = g.merges.fewer;
  };
  used = ground (arith, g.used);
  free = ground (arith, g.free);
}

-- The walk of `free_pages` releases the region that it looks for, and only that.
free_after-Frees :
    (lo pool addr x : ℕ) (prev : MemoryRegion) (rs ys : List MemoryRegion) (pool' : ℕ)
    → Layout lo (prev ∷ rs)
    → length rs < pool
    → free_after pool addr prev rs ≡ some (ys, pool')
    → (r : MemoryRegion) × (allocated_at addr rs ≡ some r) × Frees lo pool r (prev ∷ rs) ys pool' x
unfolding free_after allocated_at is_allocated_at
free_after-Frees lo pool addr x prev [] ys pool' l n e = absurd (cc)
free_after-Frees lo pool addr x prev (r ∷ rs) ys pool' l n e =
    elim (Bool-cases (r.start == addr && r.used)) [
      | inl hit ↦
          let p = merge_next pool (released r) rs in
          let g =
            merge_next-Frees pool (prev.start + prev.size) x r rs (ground arith) (omega arith)
              l.1 in
          let z : merge_prev prev p ≡ (ys, pool') = ground arith in
          let w =
            merge_prev-Frees lo pool p.1 x prev r rs p.0 l.0 l.1.0.0
              (merge_next-HeadIsFree pool (released r) rs refl) (omega arith) g in
          (r, rw hit, subst (λ o. Frees lo pool r (prev ∷ r ∷ rs) o.0 o.1 x) z w)
      | inr miss ↦ elim (Option-cases (free_after pool addr r rs)) [
        | inl nothing ↦ absurd (ground arith)
        | inr ((us, pool''), found) ↦
            let e' : free_after pool addr r rs ≡ some (us, pool') = ground arith in
            let s : ys ≡ prev ∷ us = ground arith in
            let (found, at, g) =
              free_after-Frees (prev.start + prev.size) pool addr x r rs us pool' l.1 (omega arith)
                e' in
            (
              found,
              rw miss at,
              rw s (
                  Frees-cons lo pool x prev found (r ∷ rs) us pool' l.0
                    (omega (arith, allocated_at-above addr (r.start + r.size) rs found l.1.1 at))
                    g),
            )
      ]
    ]

pub free_loop-Frees :
    (lo pool addr x : ℕ) (rs ys : List MemoryRegion) (pool' : ℕ)
    → Layout lo rs
    → length rs ≤ pool
    → free_loop pool addr rs ≡ some (ys, pool')
    → (r : MemoryRegion) × (allocated_at addr rs ≡ some r) × Frees lo pool r rs ys pool' x
unfolding free_loop allocated_at is_allocated_at
free_loop-Frees lo pool addr x [] ys pool' l n e = absurd (cc)
free_loop-Frees lo pool addr x (r ∷ rs) ys pool' l n e =
    elim (Bool-cases (r.start == addr && r.used)) [
      | inl hit ↦
          let g = merge_next-Frees pool lo x r rs (ground arith) (omega arith) l in
          let z : merge_next pool (released r) rs ≡ (ys, pool') = ground arith in
          (r, rw hit, subst (λ o. Frees lo pool r (r ∷ rs) o.0 o.1 x) z g)
      | inr miss ↦
          let e' : free_after pool addr r rs ≡ some (ys, pool') = ground arith in
          let (found, at, g) = free_after-Frees lo pool addr x r rs ys pool' l (omega arith) e' in
          (found, rw miss at, g)
    ]

-- A release that finds nothing had no such region to find.
free_after-none :
    (pool addr : ℕ) (prev : MemoryRegion) (rs : List MemoryRegion)
    → (free_after pool addr prev rs ≡ none) ↔ (allocated_at addr rs ≡ none)
unfolding free_after allocated_at is_allocated_at
free_after-none pool addr prev [] = ground arith
free_after-none pool addr prev (r ∷ rs) = ground (arith, free_after-none pool addr r rs)

pub free_loop-none :
    (pool addr : ℕ) (rs : List MemoryRegion)
    → (free_loop pool addr rs ≡ none) ↔ (allocated_at addr rs ≡ none)
unfolding free_loop allocated_at is_allocated_at
free_loop-none pool addr [] = ground arith
free_loop-none pool addr (r ∷ rs) = ground (arith, free_after-none pool addr r rs)
