-- ===== src/Memory/Heap/Contract.antt =====
-- The heap's operations against its abstract view, a finite map from pointers to sizes.
use vkernel.Common.{
  ℕ, ◌+◌, ◌-◌, ◌%◌, ◌^◌, ◌≤◌, ◌<◌, ◌≡◌, ◌≢◌, none, some, arith, refl, subst, ◌==◌, if◌then◌else◌,
  Bool-cases, Option-cases, inl, inr,
}
use vkernel.Common.Words.{add64, sub64, align_up, align_up_bounds}
use vkernel.Memory.Heap.Types.{KernelHeap, header_size, min_alignment}
use vkernel.Memory.Heap.Allocate.{take_first, try_allocate}
use vkernel.Memory.Heap.Free.{free_block, free}
use vkernel.Memory.Heap.Region.{success, region_block, insert_block, add_region}
use vkernel.Memory.Heap.Layout.{Layout, Placed, footprint, footprint-le, address_limit}
use vkernel.Memory.Heap.Live.{live_at, live_at_bounds}
use vkernel.Memory.Heap.Taking.{take_first-Takes, take_first-others}
use vkernel.Memory.Heap.Freeing.{free_block-Drops, free_block-live}
use vkernel.Memory.Heap.Growing.{IsApart, insert_block-Grows}

-- The blocks are in order, above the null pointer, and account for every byte of the heap.
pub record IsValid (h : KernelHeap) : Type 0 where
  pub layout : Layout 16 h.free_list
  pub bytes : footprint h.free_list ≡ h.total_bytes

-- An allocation of a size up to 2^61 brings one fresh 16-byte aligned pointer other than null into
-- use, with at least that size, and keeps the heap well formed: no byte is lost.
pub try_allocate-fresh :
    (h h' : KernelHeap) (size p : ℕ)
    → IsValid h
    → 0 < size
    → size ≤ 2 ^ 61
    → try_allocate h size ≡ some (p, h')
    → IsValid h'
      × (p ≢ 0)
      × (p % 16 ≡ 0)
      × (live_at p h.free_list ≡ none)
      × ((s : ℕ) × (size ≤ s) × (live_at p h'.free_list ≡ some s))
unfolding try_allocate
try_allocate-fresh h h' size p v pos small e =
    elim (Option-cases (take_first (align_up size min_alignment) h.free_list)) [
      | inl nothing ↦ absurd (ground arith)
      | inr (f, found) ↦
          let (up, _, mul) = align_up_bounds 4 size (omega arith) (omega arith) in
          let t = take_first-Takes (align_up size 16) 16 h.free_list f mul v.layout found in
          let (s, le, at) = t.capacity in
          let pe : p ≡ f.address = ground arith in
          let he : h' ≡ record h { free_list = f.blocks } = ground arith in
          rw (pe, he)
            (
              record { layout = t.merged.layout; bytes = omega (arith, t.merged.bytes, v.bytes) },
              omega (arith, t.low),
              t.aligned,
              t.fresh,
              (s, omega (arith, le, up), at),
            )
    ]

-- An allocation leaves every other pointer's state as it was.
pub try_allocate-others :
    (h h' : KernelHeap) (size p ptr : ℕ)
    → IsValid h
    → try_allocate h size ≡ some (p, h')
    → ptr ≢ p
    → live_at ptr h'.free_list ≡ live_at ptr h.free_list
unfolding try_allocate
try_allocate-others h h' size p ptr v e ne = elim (Bool-cases (size == 0)) [
  | inl zero ↦ ground arith
  | inr pos ↦ elim (Option-cases (take_first (align_up size min_alignment) h.free_list)) [
    | inl nothing ↦ absurd (ground arith)
    | inr (f, found) ↦
        let pe : p ≡ f.address = ground arith in
        let he : h' ≡ record h { free_list = f.blocks } = ground arith in
        rw he (
          take_first-others (align_up size min_alignment) 16 ptr h.free_list f v.layout found
            (ground arith))
  ]
]

-- Freeing a pointer in use succeeds, takes exactly that pointer out of use, keeps every other
-- pointer's state and every byte, and leaves a well-formed heap, whatever it merges.
pub free_removes :
    (h : KernelHeap) (p s ptr : ℕ)
    → IsValid h
    → live_at p h.free_list ≡ some s
    → (h' : KernelHeap) × (free h p ≡ some h')
      × IsValid h'
      × (live_at ptr h'.free_list ≡ (if ptr == p then none else live_at ptr h.free_list))
unfolding free
free_removes h p s ptr v e =
    let (above, below) = live_at_bounds 16 p s h.free_list v.layout e in
    let a : sub64 p header_size + header_size ≡ p = omega arith in
    elim (Option-cases (free_block (sub64 p header_size) h.free_list)) [
      | inl nothing ↦ absurd (free_block-live 16 p s h.free_list v.layout e nothing)
      | inr (bs, found) ↦
          let d = free_block-Drops 16 (sub64 p header_size) ptr h.free_list bs v.layout found in
          let m = d.merged in
          (
            record h { free_list = bs },
            ground arith,
            record { layout = m.layout; bytes = omega (arith, m.bytes, v.bytes) },
            subst (λ q. live_at ptr bs ≡ (if ptr == q then none else live_at ptr h.free_list)) a
                d.live,
          )
    ]

-- Adding a region of 16-byte aligned size apart from the heap's blocks succeeds, changes no pointer
-- in use, adds its bytes to the heap, and makes room for every size that it can hold with a header.
pub add_region-room :
    (h : KernelHeap) (base size n ptr : ℕ)
    → IsValid h
    → 16 ≤ base
    → base % 16 ≡ 0
    → size % 16 ≡ 0
    → header_size < size
    → base + size ≤ address_limit
    → IsApart (region_block base size) h.free_list
    → n + header_size ≤ size
    → let (status, h') = add_region h base size in
      (status ≡ success)
      × IsValid h'
      × (h'.total_bytes ≡ h.total_bytes + size)
      × (live_at ptr h'.free_list ≡ live_at ptr h.free_list)
      × (take_first n h'.free_list ≢ none)
unfolding add_region
add_region-room h base size n ptr v lo al sl big fit ap le =
    let b = region_block base size in
    let len : b.size ≡ size - header_size = omega arith in
    let placed : Placed 16 b = record {
      above = lo;
      aligned = al;
      size_aligned = omega arith;
      within = omega arith;
    } in
    let g = insert_block-Grows n ptr b refl (omega arith) 16 h.free_list v.layout placed ap in
    let total = footprint-le 16 h.free_list v.layout (omega arith) in
    let run : add_region h base size ≡ (
      success,
      record h {
        free_list = insert_block b h.free_list;
        total_bytes = add64 h.total_bytes size;
        subheap_count = (h.subheap_count + 1) % 2 ^ 32;
      },
    ) =
      ground arith in
    rw run (
      refl,
      record { layout = g.layout; bytes = omega (arith, g.bytes, v.bytes, total) },
      omega (arith, v.bytes, total),
      g.live,
      g.room,
    )
