-- ===== src/Memory/Phys/Census.antt =====
-- Which addresses `phys_allocator::init` makes free, and what it counts.
use vkernel.Common.{
  ℕ, ◌+◌, ◌*◌, ◌%◌, ◌≤◌, ◌<◌, ◌≡◌, inl, inr, refl, subst, ◌∙◌, Bool, true, false, not, ◌&&◌, ◌||◌,
  Option, none, some, List, [], ◌∷◌, ◌++◌, arith, length, Bool-cases, Option-cases, ◌==◌,
  if◌then◌else◌, leb, ltb,
}
use vkernel.Common.Words.{add64}
use vkernel.Memory.Phys.Types.{
  MemoryMapEntry, MemoryRegion, PhysAllocator, page_size, region_pool_size, alloc_region_node,
}
use vkernel.Memory.Phys.Init.{is_free_type, entry_region, link_entry, init_entry, init_loop, init}
use vkernel.Memory.Phys.Coverage.{used_at, free_at, in_range, used_at-append, free_at-append}
use vkernel.Memory.Phys.Layout.{address_limit}
use vkernel.Memory.Phys.Boot.{IsAscending, entry_end}

-- The map has `x` in an entry of a free type.
abbrev pub entry_free_at : MemoryMapEntry → ℕ → Bool
entry_free_at e x =
    is_free_type e.type && in_range e.physical_start (e.number_of_pages * page_size) x

abbrev pub map_free_at : List MemoryMapEntry → ℕ → Bool
map_free_at [] x = false
map_free_at (e ∷ es) x = entry_free_at e x || map_free_at es x

-- Entries of which `init` keeps all pages but page 0.
abbrev pub loses_page_0 : MemoryMapEntry → ℕ
loses_page_0 e =
    if is_free_type e.type && (e.physical_start == 0 && ltb 1 e.number_of_pages) then 1 else 0

abbrev pub pages_lost : List MemoryMapEntry → ℕ
pages_lost [] = 0
pages_lost (e ∷ es) = loses_page_0 e + pages_lost es

abbrev pub bytes : List MemoryRegion → ℕ
bytes [] = 0
bytes (r ∷ rs) = r.size + bytes rs

bytes-append_one :
    (rs : List MemoryRegion) (r : MemoryRegion) → bytes (rs ++ r ∷ []) ≡ bytes rs + r.size
bytes-append_one [] r = omega arith
bytes-append_one (s ∷ rs) r = omega (arith, bytes-append_one rs r)

-- What one round adds to the list, at an address `x`.
record Adds (a a' : PhysAllocator) (e : MemoryMapEntry) (x : ℕ) : Type 0 where
  free : free_at a'.free_list x ≡ (free_at a.free_list x || (leb page_size x && entry_free_at e x))
  used : used_at a'.free_list x ≡ used_at a.free_list x
  nodes : a'.pool_used ≤ a.pool_used + 1
  count :
      a'.free_pages * page_size + bytes a.free_list
      ≡ a.free_pages * page_size + bytes a'.free_list + loses_page_0 e * page_size
  small : a'.free_pages ≤ a.free_pages + e.number_of_pages
  total : a'.total_pages ≡ add64 a.total_pages e.number_of_pages

record Regioned (e : MemoryMapEntry) (o : Option MemoryRegion) (x : ℕ) : Type 0 where
  free :
      free_at (elim o [ none ↦ [] | some r ↦ r ∷ [] ]) x
      ≡ (leb page_size x && in_range e.physical_start (e.number_of_pages * page_size) x)
  used : used_at (elim o [ none ↦ [] | some r ↦ r ∷ [] ]) x ≡ false

entry_region-Regioned :
    (e : MemoryMapEntry) (x : ℕ)
    → e.physical_start % page_size ≡ 0
    → entry_end e ≤ address_limit
    → Regioned e (entry_region e) x
unfolding entry_region
entry_region-Regioned e x al hi = ground arith

entry_region-size :
    (e : MemoryMapEntry) (r : MemoryRegion)
    → entry_end e ≤ address_limit
    → is_free_type e.type ≡ true
    → entry_region e ≡ some r
    → r.size + loses_page_0 e * page_size ≡ e.number_of_pages * page_size
unfolding entry_region
entry_region-size e r hi f k = ground arith

entry_region-none :
    (e : MemoryMapEntry) → entry_end e ≤ address_limit → entry_region e ≡ none → loses_page_0 e ≡ 0
unfolding entry_region
entry_region-none e hi k = ground arith

link_entry-Adds :
    (a : PhysAllocator) (e : MemoryMapEntry) (x : ℕ)
    → e.physical_start % page_size ≡ 0
    → entry_end e ≤ address_limit
    → a.free_pages * page_size ≤ address_limit
    → is_free_type e.type ≡ true
    → 0 < e.number_of_pages
    → let a' : PhysAllocator = record a { total_pages = add64 a.total_pages e.number_of_pages } in
      Adds a (link_entry a' e) e x
unfolding link_entry
link_entry-Adds a e x al hi small f pos =
    let g = entry_region-Regioned e x al hi in
    elim (Option-cases (entry_region e)) [
      | inl k ↦
          let g' = subst (λ o. Regioned e o x) k g in
          let z = entry_region-none e hi k in
          rw (k, link_entry)
            (record {
              free = ground (arith, g'.free);
              used = refl;
              nodes = omega arith;
              count = omega (arith, z);
              small = omega arith;
              total = refl;
            })
      | inr (r, k) ↦
          let g' = subst (λ o. Regioned e o x) k g in
          let z = entry_region-size e r hi f k in
          let rs = a.free_list in
          rw (k, link_entry)
            (record {
              free = ground (arith, g'.free, free_at-append rs (r ∷ []) x);
              used = ground (arith, g'.used, used_at-append rs (r ∷ []) x);
              nodes = ground arith;
              count = omega (arith, z, bytes-append_one rs r);
              small = omega arith;
              total = refl;
            })
    ]

init_entry-Adds :
    (a : PhysAllocator) (e : MemoryMapEntry) (x : ℕ)
    → e.physical_start % page_size ≡ 0
    → entry_end e ≤ address_limit
    → a.pool_used < region_pool_size
    → a.free_pages * page_size ≤ address_limit
    → Adds a (init_entry a e).1 e x × ((init_entry a e).0 ≡ true)
unfolding init_entry
init_entry-Adds a e x al hi room small =
    elim (Bool-cases (not (is_free_type e.type) || e.number_of_pages == 0)) [
      | inl skip ↦ rw skip (
        record {
          free = ground arith;
          used = refl;
          nodes = omega arith;
          count = ground arith;
          small = omega arith;
          total = refl;
        },
        refl,
      )
      | inr kept ↦
          let full : alloc_region_node a.pool_used ≡ true = ground arith in
          rw (kept, full) (link_entry-Adds a e x al hi small (ground arith) (ground arith), refl)
    ]

-- What the rest of the loop adds to the list.
record Census (a a' : PhysAllocator) (es : List MemoryMapEntry) (x : ℕ) : Type 0 where
  free : free_at a'.free_list x ≡ (free_at a.free_list x || (leb page_size x && map_free_at es x))
  used : used_at a'.free_list x ≡ used_at a.free_list x
  count :
      a'.free_pages * page_size + bytes a.free_list
      ≡ a.free_pages * page_size + bytes a'.free_list + pages_lost es * page_size

init_loop-Census :
    (bound : ℕ) (a : PhysAllocator) (es : List MemoryMapEntry) (x : ℕ)
    → IsAscending bound es
    → a.pool_used + length es ≤ region_pool_size
    → a.free_pages * page_size ≤ bound
    → bound ≤ address_limit
    → Census a (init_loop a es) es x
unfolding init_loop
init_loop-Census bound a [] x h room small le = record {
  free = ground arith;
  used = refl;
  count = omega arith;
}
init_loop-Census bound a (e ∷ es) x (lo, al, hi, rest) room small le =
    let (g, on) = init_entry-Adds a e x al hi (omega arith) (omega arith) in
    let c =
      init_loop-Census (entry_end e) (init_entry a e).1 es x rest (omega (arith, g.nodes))
        (omega (arith, g.small)) hi in
    rw (on, init_loop)
      (record {
        free = ground (arith, g.free, c.free);
        used = c.used ∙ g.used;
        count = omega (arith, g.count, c.count);
      })

-- With a fresh pool and an ascending map of at most 512 entries, exactly the addresses of the free
-- entries outside page 0 are free, and none is used. The counter `free_pages` counts the bytes of
-- the list, and page 0 besides where an entry of two pages or more begins there.
pub init_census :
    (a : PhysAllocator) (map : List MemoryMapEntry) (x : ℕ)
    → a.pool_used ≡ 0
    → IsAscending 0 map
    → length map ≤ region_pool_size
    → (free_at (init a map).free_list x ≡ (leb page_size x && map_free_at map x))
      × (used_at (init a map).free_list x ≡ false)
      × ((init a map).free_pages * page_size
          ≡ bytes (init a map).free_list + pages_lost map * page_size)
unfolding init
init_census a map x z h n =
    let start : PhysAllocator = record a {
      free_list = [];
      total_pages = 0;
      used_pages = 0;
      free_pages = 0;
    } in
    let c = init_loop-Census 0 start map x h (omega arith) (omega arith) (omega arith) in
    (c.free, c.used, omega (arith, c.count))
