-- ===== src/Memory/Heap/Growing.antt =====
-- What `kernel_heap::add_region` does: the new region's bytes become allocatable, in order.
use vkernel.Common.{
  ℕ, ◌+◌, ◌≤◌, ◌≡◌, ◌≢◌, ◌⊎◌, true, false, not, ◌&&◌, none, List, [], ◌∷◌, arith, ◌∙◌, ◌==◌,
  Bool-cases, inl, inr, ltb, All,
}
use vkernel.Memory.Heap.Types.{HeapBlock, header_size, coalesce_next, absorb, end_of}
use vkernel.Memory.Heap.Allocate.{can_hold, take_first}
use vkernel.Memory.Heap.Region.{attach, insert_behind, insert_block}
use vkernel.Memory.Heap.Layout.{
  Layout, Placed, Placed-raise, block_end, footprint, absorb-Layout, coalesce_next-Merged,
}
use vkernel.Memory.Heap.Live.{live_at, live_at-coalesce_next}

-- The new block overlaps no block of the list.
abbrev pub IsApart : HeapBlock → List HeapBlock → Type 0
IsApart b = All λ n. (block_end n ≤ b.address) ⊎ (block_end b ≤ n.address)

-- The blocks with a new free one among them, seen at a pointer and for a size `n`.
pub record Grows (lo n ptr : ℕ) (b : HeapBlock) (bs bs' : List HeapBlock) : Type 0 where
  pub layout : Layout lo bs'
  pub bytes : footprint bs' ≡ footprint bs + header_size + b.size
  pub live : live_at ptr bs' ≡ live_at ptr bs
  pub room : take_first n bs' ≢ none

room-head :
    (n : ℕ) (b : HeapBlock) (bs : List HeapBlock)
    → can_hold n b ≡ true
    → take_first n (b ∷ bs) ≢ none
unfolding take_first
room-head n b bs h = ground arith

room-cons :
    (n : ℕ) (b : HeapBlock) (bs : List HeapBlock)
    → take_first n bs ≢ none
    → take_first n (b ∷ bs) ≢ none
unfolding take_first
room-cons n b bs h = ground arith

coalesce_next-room :
    (lo n : ℕ) (b : HeapBlock) (bs : List HeapBlock)
    → b.used ≡ false
    → n ≤ b.size
    → Layout lo (b ∷ bs)
    → take_first n (coalesce_next b bs) ≢ none
unfolding coalesce_next can_hold
coalesce_next-room lo n b [] f le l = room-head n b [] (ground arith)
coalesce_next-room lo n b (c ∷ bs) f le l =
    elim (Bool-cases (not c.used && end_of b == c.address)) [
      | inl join ↦
          rw (join, coalesce_next)
            (room-head n (absorb b c) bs (ground (arith, l.0.within, l.1.0.within)))
      | inr apart ↦ rw (apart, coalesce_next) (room-head n b (c ∷ bs) (ground arith))
    ]

module _ (n ptr : ℕ) (b : HeapBlock) (free : b.used ≡ false) (fits : n ≤ b.size) where
  coalesce_next-Grows :
      (lo : ℕ) (bs : List HeapBlock) → Layout lo (b ∷ bs) → Grows lo n ptr b bs (coalesce_next b bs)
  coalesce_next-Grows lo bs l =
      let m = coalesce_next-Merged lo b bs l in
      record {
        layout = m.layout;
        bytes = omega (arith, m.bytes);
        live = live_at-coalesce_next ptr b bs free;
        room = coalesce_next-room lo n b bs free fits l;
      }

  keep-Grows :
      (lo : ℕ) (prev : HeapBlock) (bs bs' : List HeapBlock)
      → Placed lo prev
      → Grows (block_end prev) n ptr b bs bs'
      → Grows lo n ptr b (prev ∷ bs) (prev ∷ bs')
  keep-Grows lo prev bs bs' p g = record {
    layout = (p, g.layout);
    bytes = omega (arith, g.bytes);
    live = ground (arith, g.live);
    room = room-cons n prev bs' g.room;
  }

  attach-Grows :
      (lo : ℕ) (prev : HeapBlock) (bs : List HeapBlock)
      → Layout lo (prev ∷ b ∷ bs)
      → Grows lo n ptr b (prev ∷ bs) (attach prev b bs)
  unfolding attach
  attach-Grows lo prev bs l = elim (Bool-cases (not prev.used && end_of prev == b.address)) [
    | inl join ↦
        let pf : prev.used ≡ false = ground arith in
        let l' = absorb-Layout lo prev b bs (ground arith) l in
        let m = coalesce_next-Merged lo (absorb prev b) bs l' in
        let wide : (absorb prev b).size ≡ prev.size + header_size + b.size =
          omega (arith, l.0.within, l.1.0.within) in
        rw (join, attach)
          (record {
            layout = m.layout;
            bytes = omega (arith, m.bytes, wide);
            live = live_at-coalesce_next ptr (absorb prev b) bs pf ∙ ground (arith, pf);
            room = coalesce_next-room lo n (absorb prev b) bs pf (omega (arith, wide)) l';
          })
    | inr apart ↦
        rw (apart, attach)
          (keep-Grows lo prev bs (coalesce_next b bs) l.0
            (coalesce_next-Grows (block_end prev) bs l.1))
  ]

  insert_behind-Grows :
      (lo : ℕ) (prev : HeapBlock) (bs : List HeapBlock)
      → Layout lo (prev ∷ bs)
      → Placed (block_end prev) b
      → IsApart b bs
      → Grows lo n ptr b (prev ∷ bs) (insert_behind b prev bs)
  unfolding insert_behind
  insert_behind-Grows lo prev [] l p h = attach-Grows lo prev [] (l.0, (p, tt))
  insert_behind-Grows lo prev (c ∷ bs) l p h = elim (Bool-cases (ltb c.address b.address)) [
    | inl below ↦
        rw (below, insert_behind)
          (keep-Grows lo prev (c ∷ bs) (insert_behind b c bs) l.0 (
            insert_behind-Grows (block_end prev) c bs l.1
              (Placed-raise (block_end prev) (block_end c) b (ground (arith, h.0)) p) h.1))
    | inr above ↦
        rw (above, insert_behind)
          (attach-Grows lo prev (c ∷ bs) (
            l.0,
            (p, (Placed-raise (block_end prev) (block_end b) c (ground (arith, h.0)) l.1.0, l.1.1)),
          ))
  ]

  pub insert_block-Grows :
      (lo : ℕ) (bs : List HeapBlock)
      → Layout lo bs
      → Placed lo b
      → IsApart b bs
      → Grows lo n ptr b bs (insert_block b bs)
  unfolding insert_block
  insert_block-Grows lo [] l p h = record {
    layout = (p, tt);
    bytes = omega arith;
    live = ground arith;
    room = room-head n b [] (unfold can_hold in ground arith);
  }
  insert_block-Grows lo (c ∷ bs) l p h = elim (Bool-cases (ltb b.address c.address)) [
    | inl below ↦
        rw (below, insert_block)
          (coalesce_next-Grows lo (c ∷ bs)
            (p, (Placed-raise lo (block_end b) c (ground (arith, h.0)) l.0, l.1)))
    | inr above ↦
        rw (above, insert_block)
          (insert_behind-Grows lo c bs l (Placed-raise lo (block_end c) b (ground (arith, h.0)) p)
            h.1)
  ]
