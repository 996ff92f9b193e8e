-- ===== src/Memory/Heap/Freeing.antt =====
-- What `kernel_heap::free` does: one pointer goes out of use, and merging changes no other.
use vkernel.Common.{
  ℕ, ◌+◌, ◌≤◌, ◌≡◌, ◌≢◌, false, not, ◌&&◌, none, some, List, [], ◌∷◌, arith, refl, ◌∙◌, ◌==◌,
  if◌then◌else◌, Bool-cases, Option-cases, inl, inr,
}
use vkernel.Common.Words.{sub64}
use vkernel.Memory.Heap.Types.{HeapBlock, header_size, coalesce_next, coalesce_prev, end_of}
use vkernel.Memory.Heap.Free.{release_block, free_behind, free_block}
use vkernel.Memory.Heap.Layout.{
  Layout, Placed, Placed-flag, block_end, Merged, coalesce_next-Merged, coalesce_prev-Merged,
}
use vkernel.Memory.Heap.Live.{
  live_at, none_below, HeadIsFree, live_at-coalesce_next, live_at-coalesce_prev,
}

-- The effect of a release at the header `a` on the blocks, seen at a pointer.
pub record Drops (lo a ptr : ℕ) (bs bs' : List HeapBlock) : Type 0 where
  pub merged : Merged lo bs bs'
  pub live : live_at ptr bs' ≡ (if ptr == a + header_size then none else live_at ptr bs)

coalesce_next-HeadIsFree :
    (b : HeapBlock) (bs : List HeapBlock) → b.used ≡ false → HeadIsFree (coalesce_next b bs)
unfolding coalesce_next
coalesce_next-HeadIsFree b [] f = f
coalesce_next-HeadIsFree b (n ∷ bs) f = elim (Bool-cases (not n.used && end_of b == n.address)) [
  | inl join ↦ rw (join, coalesce_next) f
  | inr apart ↦ rw (apart, coalesce_next) f
]

release-Drops :
    (lo a ptr : ℕ) (b : HeapBlock) (bs : List HeapBlock)
    → b.address ≡ a
    → Layout lo (b ∷ bs)
    → Drops lo a ptr (b ∷ bs) (coalesce_next (release_block b) bs)
release-Drops lo a ptr b bs e l =
    let m = coalesce_next-Merged lo (release_block b) bs (Placed-flag lo b false l.0, l.1) in
    record {
      merged = record { layout = m.layout; bytes = m.bytes };
      live =
          live_at-coalesce_next ptr (release_block b) bs refl
          ∙ ground (arith, none_below (block_end b) ptr bs l.1);
    }

prev-Drops :
    (lo a ptr : ℕ) (prev : HeapBlock) (bs bs' : List HeapBlock)
    → Placed lo prev
    → block_end prev ≤ a
    → HeadIsFree bs'
    → Drops (block_end prev) a ptr bs bs'
    → Drops lo a ptr (prev ∷ bs) (coalesce_prev prev bs')
prev-Drops lo a ptr prev bs bs' p le h d =
    let m = coalesce_prev-Merged lo prev bs' (p, d.merged.layout) in
    record {
      merged = record { layout = m.layout; bytes = omega (arith, m.bytes, d.merged.bytes) };
      live = live_at-coalesce_prev ptr prev bs' h ∙ ground (arith, d.live);
    }

keep-Drops :
    (lo a ptr : ℕ) (prev : HeapBlock) (bs bs' : List HeapBlock)
    → Placed lo prev
    → block_end prev ≤ a
    → Drops (block_end prev) a ptr bs bs'
    → Drops lo a ptr (prev ∷ bs) (prev ∷ bs')
keep-Drops lo a ptr prev bs bs' p le d = record {
  merged = record { layout = (p, d.merged.layout); bytes = omega (arith, d.merged.bytes) };
  live = ground (arith, d.live);
}

-- A block of the list lies above the list's lower end.
found_above :
    (lo a : ℕ) (prev : HeapBlock) (bs bs' : List HeapBlock)
    → Layout lo bs
    → free_behind a prev bs ≡ some bs'
    → lo ≤ a
unfolding free_behind
found_above lo a prev [] bs' l e = absurd (cc)
found_above lo a prev (b ∷ bs) bs' l e = elim (Bool-cases (b.address == a)) [
  | inl hit ↦ ground (arith, l.0.above)
  | inr miss ↦ elim (Option-cases (free_behind a b bs)) [
    | inl nothing ↦ absurd (ground arith)
    | inr (us, found) ↦ omega (arith, l.0.above, found_above (block_end b) a b bs us l.1 found)
  ]
]

free_behind-Drops :
    (lo a ptr : ℕ) (prev : HeapBlock) (bs bs' : List HeapBlock)
    → Layout lo (prev ∷ bs)
    → free_behind a prev bs ≡ some bs'
    → Drops lo a ptr (prev ∷ bs) bs'
unfolding free_behind
free_behind-Drops lo a ptr prev [] bs' l e = absurd (cc)
free_behind-Drops lo a ptr prev (b ∷ bs) bs' l e = elim (Bool-cases (b.address == a)) [
  | inl hit ↦
      let at : b.address ≡ a = ground arith in
      let g : bs' ≡ coalesce_prev prev (coalesce_next (release_block b) bs) = ground arith in
      rw g (
        prev-Drops lo a ptr prev (b ∷ bs) (coalesce_next (release_block b) bs) l.0
          (omega (arith, at, l.1.0.above)) (coalesce_next-HeadIsFree (release_block b) bs refl)
          (release-Drops (block_end prev) a ptr b bs at l.1))
  | inr miss ↦ elim (Option-cases (free_behind a b bs)) [
    | inl nothing ↦ absurd (ground arith)
    | inr (us, found) ↦
        let g : bs' ≡ prev ∷ us = ground arith in
        let above = found_above (block_end b) a b bs us l.1.1 found in
        rw g (
          keep-Drops lo a ptr prev (b ∷ bs) us l.0 (omega (arith, above, l.1.0.above))
            (free_behind-Drops (block_end prev) a ptr b bs us l.1 found))
  ]
]

pub free_block-Drops :
    (lo a ptr : ℕ) (bs bs' : List HeapBlock)
    → Layout lo bs
    → free_block a bs ≡ some bs'
    → Drops lo a ptr bs bs'
unfolding free_block
free_block-Drops lo a ptr [] bs' l e = absurd (cc)
free_block-Drops lo a ptr (b ∷ bs) bs' l e = elim (Bool-cases (b.address == a)) [
  | inl hit ↦
      let g : bs' ≡ coalesce_next (release_block b) bs = ground arith in
      rw g (release-Drops lo a ptr b bs (ground arith) l)
  | inr miss ↦ free_behind-Drops lo a ptr b bs bs' l (ground arith)
]

-- A pointer in use is found.
free_behind-live :
    (lo ptr s : ℕ) (prev : HeapBlock) (bs : List HeapBlock)
    → Layout lo bs
    → live_at ptr bs ≡ some s
    → free_behind (sub64 ptr header_size) prev bs ≢ none
unfolding free_behind
free_behind-live lo ptr s prev [] l e = cc
free_behind-live lo ptr s prev (b ∷ bs) l e =
    ground (arith, l.0.within, free_behind-live (block_end b) ptr s b bs l.1)

pub free_block-live :
    (lo ptr s : ℕ) (bs : List HeapBlock)
    → Layout lo bs
    → live_at ptr bs ≡ some s
    → free_block (sub64 ptr header_size) bs ≢ none
unfolding free_block
free_block-live lo ptr s [] l e = cc
free_block-live lo ptr s (b ∷ bs) l e =
    ground (arith, l.0.within, free_behind-live (block_end b) ptr s b bs l.1)
