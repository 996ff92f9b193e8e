-- ===== src/Memory/Phys/Boot.antt =====
-- `phys_allocator::init` as a whole: the list that it builds from the firmware's memory map.
use vkernel.Common.{
  ℕ, ◌+◌, ◌*◌, ◌%◌, ◌≤◌, ◌<◌, ◌≡◌, ◌⊎◌, inl, inr, refl, false, not, ◌||◌, some, List, [], ◌∷◌, ◌++◌,
  arith, length-append, Bool-cases, Option-cases, ◌==◌,
}
use vkernel.Common.Words.{add64}
use vkernel.Memory.Phys.Types.{
  MemoryMapEntry, MemoryRegion, PhysAllocator, page_size, region_pool_size, alloc_region_node,
}
use vkernel.Memory.Phys.Init.{is_free_type, entry_region, link_entry, init_entry, init_loop, init}
use vkernel.Memory.Phys.Layout.{Layout, Placed, address_limit}
use vkernel.Memory.Phys.Allocation.{IsValid}

-- What the firmware promises: page-aligned ranges in ascending order, without overlaps.
abbrev pub IsAscending : ℕ → List MemoryMapEntry → Type 0
IsAscending lo [] = Unit {0}
IsAscending lo (e ∷ es) =
    (lo ≤ e.physical_start)
    × (e.physical_start % page_size ≡ 0)
    × (e.physical_start + e.number_of_pages * page_size ≤ address_limit)
    × IsAscending (e.physical_start + e.number_of_pages * page_size) es

-- The end of the last region, or `lo` if there is none.
abbrev top : ℕ → List MemoryRegion → ℕ
top lo [] = lo
top lo (r ∷ rs) = top (r.start + r.size) rs

Layout-append_one :
    (lo : ℕ) (rs : List MemoryRegion) (r : MemoryRegion)
    → Layout lo rs
    → Placed (top lo rs) r
    → Layout lo (rs ++ r ∷ [])
Layout-append_one lo [] r l p = (p, tt)
Layout-append_one lo (s ∷ rs) r l p = (l.0, Layout-append_one (s.start + s.size) rs r l.1 p)

top-append_one :
    (lo : ℕ) (rs : List MemoryRegion) (r : MemoryRegion) → top lo (rs ++ r ∷ []) ≡ r.start + r.size
top-append_one lo [] r = refl
top-append_one lo (s ∷ rs) r = top-append_one (s.start + s.size) rs r

-- The loop's invariant, with the end of the entries seen so far.
record Built (bound : ℕ) (a : PhysAllocator) : Type 0 where
  valid : IsValid a
  ends : (top page_size a.free_list ≤ bound) ⊎ (top page_size a.free_list ≡ page_size)

pub entry_region-Placed :
    (e : MemoryMapEntry) (r : MemoryRegion) (t bound : ℕ)
    → (t ≤ bound) ⊎ (t ≡ page_size)
    → bound ≤ e.physical_start
    → e.physical_start % page_size ≡ 0
    → e.physical_start + e.number_of_pages * page_size ≤ address_limit
    → 0 < e.number_of_pages
    → entry_region e ≡ some r
    → Placed t r
      × (r.start + r.size ≡ e.physical_start + e.number_of_pages * page_size)
      × (r.used ≡ false)
unfolding entry_region
entry_region-Placed e r t bound h lo al hi pos k = ground arith

abbrev pub entry_end : MemoryMapEntry → ℕ
entry_end e = e.physical_start + e.number_of_pages * page_size

link_entry-Built :
    (bound : ℕ) (a : PhysAllocator) (e : MemoryMapEntry)
    → Built bound a
    → bound ≤ e.physical_start
    → e.physical_start % page_size ≡ 0
    → entry_end e ≤ address_limit
    → 0 < e.number_of_pages
    → a.pool_used < region_pool_size
    → Built (entry_end e) (link_entry a e)
unfolding link_entry
link_entry-Built bound a e b lo al hi pos room = elim (Option-cases (entry_region e)) [
  | inl nothing ↦
      rw (nothing, link_entry) (record { valid = b.valid; ends = ground (arith, b.ends) })
  | inr (r, k) ↦
      let rs = a.free_list in
      let (p, fin, f) = entry_region-Placed e r (top page_size rs) bound b.ends lo al hi pos k in
      let v = b.valid in
      rw (k, link_entry)
        (record {
          valid = record {
            layout = Layout-append_one page_size rs r v.layout p;
            nodes = ground (arith, v.nodes, length-append rs (r ∷ []));
            pool = ground (arith, v.pool);
          };
          ends = inl (omega (arith, top-append_one page_size rs r));
        })
]

init_entry-Built :
    (bound : ℕ) (a : PhysAllocator) (e : MemoryMapEntry)
    → Built bound a
    → bound ≤ e.physical_start
    → e.physical_start % page_size ≡ 0
    → entry_end e ≤ address_limit
    → Built (entry_end e) (init_entry a e).1
unfolding init_entry
init_entry-Built bound a e b lo al hi =
    let a' : PhysAllocator = record a { total_pages = add64 a.total_pages e.number_of_pages } in
    let b' : Built bound a' = record {
      valid = record { layout = b.valid.layout; nodes = b.valid.nodes; pool = b.valid.pool };
      ends = b.ends;
    } in
    let same : Built (entry_end e) a' = record {
      valid = b'.valid;
      ends = ground (arith, b.ends);
    } in
    elim (Bool-cases (not (is_free_type e.type) || e.number_of_pages == 0)) [
      | inl skip ↦ rw skip same
      | inr kept ↦ elim (Bool-cases (alloc_region_node a.pool_used)) [
        | inl room ↦
            rw (kept, room) (link_entry-Built bound a' e b' lo al hi (ground arith) (ground arith))
        | inr full ↦ rw (kept, full) same
      ]
    ]

init_loop-IsValid :
    (bound : ℕ) (a : PhysAllocator) (es : List MemoryMapEntry)
    → Built bound a
    → IsAscending bound es
    → IsValid (init_loop a es)
unfolding init_loop
init_loop-IsValid bound a [] b h = b.valid
init_loop-IsValid bound a (e ∷ es) b (lo, al, hi, rest) =
    let b' = init_entry-Built bound a e b lo al hi in
    elim (Bool-cases (init_entry a e).0) [
      | inl on ↦ rw (on, init_loop) (init_loop-IsValid (entry_end e) (init_entry a e).1 es b' rest)
      | inr stop ↦ rw (stop, init_loop) b'.valid
    ]

-- From a fresh node pool and any ascending map, `init` builds a well-formed allocator, also where
-- the node pool runs out.
pub init-IsValid :
    (a : PhysAllocator) (map : List MemoryMapEntry)
    → a.pool_used ≡ 0
    → IsAscending 0 map
    → IsValid (init a map)
unfolding init
init-IsValid a map z h =
    init_loop-IsValid 0 _ map
      (record { valid = record { layout = tt; nodes = z; pool = omega arith }; ends = inr refl }) h
