-- ===== src/Memory/Phys/Release.antt =====
-- `free_pages` as a whole: a release undoes the use of one region, and undoes an allocation.
use vkernel.Common.{
  ℕ, ◌+◌, ◌*◌, ◌^◌, ◌≤◌, ◌<◌, ◌≡◌, ◌≢◌, ◌⊎◌, inl, inr, refl, ap, ◌∙◌, Bool, true, false, not, ◌&&◌,
  ◌||◌, none, some, List, arith, Option-cases,
}
use vkernel.Common.Words.{add64, sub64}
use vkernel.Memory.Phys.Types.{region, MemoryRegion, PhysAllocator, page_size, region_pool_size}
use vkernel.Memory.Phys.Allocate.{Request, request, allocate_pages}
use vkernel.Memory.Phys.Free.{free_loop, free_pages}
use vkernel.Memory.Phys.Layout.{Layout, chunk, whole, head, last, middle}
use vkernel.Memory.Phys.Taken.{Taken, here, there, Taken-low}
use vkernel.Memory.Phys.Coverage.{Within, used_at, free_at, holds, in_range, not_both}
use vkernel.Memory.Phys.Merging.{allocated_at, free_loop-Frees, free_loop-none}
use vkernel.Memory.Phys.Allocation.{
  IsValid, allocate_pages-Taken, allocate_pages-IsValid, allocate_pages-Serves,
  allocate_pages_moves,
}

-- A release of nothing, or of an address at which no used region starts, changes nothing.
pub free_pages_ignores :
    (a : PhysAllocator) (addr page_count : ℕ)
    → (addr ≡ 0) ⊎ (page_count ≡ 0) ⊎ (allocated_at addr a.free_list ≡ none)
    → free_pages a addr page_count ≡ a
unfolding free_pages
free_pages_ignores a addr n h = ground (arith, free_loop-none a.pool_used addr a.free_list)

-- Where a used region `r` starts at the address, exactly its addresses turn from used to free, the
-- counters move by `page_count`, and the allocator stays well formed whatever was merged.
pub free_pages_releases :
    (a : PhysAllocator) (addr page_count x : ℕ) (r : MemoryRegion)
    → IsValid a
    → addr ≢ 0
    → page_count ≢ 0
    → allocated_at addr a.free_list ≡ some r
    → let a' = free_pages a addr page_count in
      IsValid a'
      × (used_at a'.free_list x ≡ (used_at a.free_list x && not (holds r x)))
      × (free_at a'.free_list x ≡ (free_at a.free_list x || holds r x))
      × (a'.used_pages ≡ sub64 a.used_pages page_count)
      × (a'.free_pages ≡ add64 a.free_pages page_count)
unfolding free_pages
free_pages_releases a addr n x r v ha hn at =
    elim (Option-cases (free_loop a.pool_used addr a.free_list)) [
      | inl nothing ↦ absurd (ground (arith, free_loop-none a.pool_used addr a.free_list))
      | inr ((ys, pool'), e) ↦
          let (r', at', g) =
            free_loop-Frees page_size a.pool_used addr x a.free_list ys pool' v.layout
              (omega (arith, v.nodes)) e in
          let same : r' ≡ r = ground arith in
          let out : PhysAllocator = record a {
            free_list = ys;
            used_pages = sub64 a.used_pages n;
            free_pages = add64 a.free_pages n;
            pool_used = pool';
          } in
          let run : free_pages a addr n ≡ out = ground arith in
          let m = g.merges in
          let valid : IsValid out = record {
            layout = m.layout;
            nodes = omega (arith, m.nodes, v.nodes);
            pool = omega (arith, m.fewer, v.pool);
          } in
          rw (run, ← same) (valid, g.used, g.free, refl, refl)
    ]

-- With two pool nodes to spare, a chunk just taken is a region of its own.
Taken-allocated_at :
    (pool : ℕ) (q : Request) (a lo : ℕ) {rs rs' : List MemoryRegion}
    → pool + 2 ≤ region_pool_size
    → 0 < q.size
    → Layout lo rs
    → Taken pool q a rs rs'
    → (r : MemoryRegion) × (allocated_at a rs' ≡ some r) × (r.start ≡ a) × (r.size ≡ q.size)
unfolding allocated_at
Taken-allocated_at pool q a lo h z l (here {r} {rs} {cut} f (whole s n e) at k) =
    rw (k, e) (region r.start r.size true, ground arith, ground arith, omega (arith, f.high))
Taken-allocated_at pool q a lo h z l (here {r} {rs} {cut} f (head s b e) at k) =
    rw (k, e) (chunk q r, ground arith, ground arith, refl)
Taken-allocated_at pool q a lo h z l (here {r} {rs} {cut} f (last b n e) at k) =
    rw (k, e) (chunk q r, ground arith, ground arith, refl)
Taken-allocated_at pool q a lo h z l (here {r} {rs} {cut} f (middle b c e) at k) =
    rw (k, e) (chunk q r, ground arith, ground arith, refl)
Taken-allocated_at pool q a lo h z l (there {r} {rs} {rs'} t) =
    let (s, at, b, c) = Taken-allocated_at pool q a (r.start + r.size) h z l.1 t in
    (s, ground (arith, Taken-low pool q a (r.start + r.size) l.1 t), b, c)

undone :
    (u f i : Bool) {u' f' u'' f'' : Bool}
    → u' ≡ (u || i)
    → f' ≡ (f && not i)
    → u'' ≡ (u' && not i)
    → f'' ≡ (f' || i)
    → Within i f
    → (u ≡ true → f ≡ false)
    → (u'' ≡ u) × (f'' ≡ f)
undone u f i a b c d e g = ground arith

-- Freeing the chunk that was just allocated, with as many pages, restores the state of every
-- address and both page counters, if two pool nodes were to spare.
pub free_pages-allocate_pages :
    (a : PhysAllocator) (page_count alignment max_addr k x : ℕ)
    → IsValid a
    → page_count < 2 ^ 32
    → alignment ≡ 2 ^ k
    → k ≤ 31
    → a.pool_used + 2 ≤ region_pool_size
    → (allocate_pages a page_count alignment max_addr).0 ≢ 0
    → a.used_pages < 2 ^ 64
    → a.free_pages < 2 ^ 64
    → let (p, a') = allocate_pages a page_count alignment max_addr in
      let a'' = free_pages a' p page_count in
      (used_at a''.free_list x ≡ used_at a.free_list x)
      × (free_at a''.free_list x ≡ free_at a.free_list x)
      × (a''.used_pages ≡ a.used_pages)
      × (a''.free_pages ≡ a.free_pages)
free_pages-allocate_pages a n al mx k x v small power word room h u f =
    let (p, a') = allocate_pages a n al mx in
    let (t, pos) = allocate_pages-Taken a n al mx k v small power word h in
    let (m, used, free, _) = allocate_pages_moves a n al mx k v small power word x h room in
    let (serve, top, s) = allocate_pages-Serves a n al mx k v small power word x h in
    let q : Request = request n al mx in
    let size : q.size ≡ n * page_size = omega arith in
    let (r, at, start, len) =
      Taken-allocated_at a.pool_used q p page_size room (omega arith) v.layout t in
    let v' = allocate_pages-IsValid a n al mx k v small power word in
    let (_, u', f', cu, cf) = free_pages_releases a' p n x r v' h (omega arith) at in
    let ho : holds r x ≡ in_range p (n * page_size) x = ground (arith, start, len, size) in
    let back =
      undone (used_at a.free_list x) (free_at a.free_list x) (in_range p (n * page_size) x) m.used
        m.free (u' ∙ ap (λ b. used_at a'.free_list x && not b) ho)
        (f' ∙ ap (λ b. free_at a'.free_list x || b) ho) s.was_free
        (not_both page_size a.free_list x v.layout) in
    (back.0, back.1, omega (arith, used, cu), omega (arith, free, cf))
