-- ===== src/Memory/Phys/Allocation.antt =====
-- `allocate_pages` as a whole: the allocator's invariant, what a client gets, and when it fails.
use vkernel.Common.{
  ℕ, ◌+◌, ◌*◌, ◌^◌, ◌%◌, ◌≤◌, ◌<◌, ◌≡◌, ◌≢◌, ◌⊎◌, inl, inr, refl, ap, true, false, Option, none,
  some, List, [], ◌∷◌, ◌++◌, arith, length, length-append, Bool-cases, Option-cases, ◌==◌, ==_cases,
  ltb, ltb→lt, zero, suc, get_elem?,
}
use native.Mathlib.Nat.{pow-le-pow_right}
use vkernel.Common.Words.{align_up-le, sub64, add64}
use vkernel.Memory.Phys.Types.{MemoryRegion, PhysAllocator, page_size, region_pool_size}
use vkernel.Memory.Phys.Allocate.{
  Request, request, Carved, fits, carve, try_region, allocate_loop, allocate_pages, aligned_start,
}
use vkernel.Memory.Phys.Layout.{Placed, Layout, IsRequest}
use vkernel.Memory.Phys.Taken.{Taken, Taken-bounds, Taken-low, allocate_loop-Taken, Taken-Layout}
use vkernel.Memory.Phys.Coverage.{Serves, Taken-Serves, MovesChunk, Taken-MovesChunk}

-- The regions are in order above page 0, and the pool holds just their nodes.
pub record IsValid (a : PhysAllocator) : Type 0 where
  pub layout : Layout page_size a.free_list
  pub nodes : a.pool_used ≡ length a.free_list
  pub pool : a.pool_used ≤ region_pool_size

carve-nodes :
    (pool : ℕ) (q : Request) (r : MemoryRegion) (cut : List MemoryRegion) (pool' : ℕ)
    → 0 < q.size
    → pool ≤ region_pool_size
    → carve pool q r ≡ some (cut, pool')
    → (pool' + 1 ≡ pool + length cut) × (pool' ≤ region_pool_size)
unfolding carve
carve-nodes pool q r cut pool' pos h e = ground arith

allocate_loop-nodes :
    (pool : ℕ) (q : Request) (rs : List MemoryRegion) (c : Carved)
    → 0 < q.size
    → pool ≤ region_pool_size
    → allocate_loop pool q rs ≡ some c
    → (c.pool + length rs ≡ pool + length c.regions) × (c.pool ≤ region_pool_size)
unfolding allocate_loop try_region
allocate_loop-nodes pool q [] c pos h e = absurd (cc)
allocate_loop-nodes pool q (r ∷ rs) c pos h e = elim (Option-cases (try_region pool q r)) [
  | inl stay ↦ elim (Option-cases (allocate_loop pool q rs)) [
    | inl nothing ↦ absurd (ground arith)
    | inr (d, found) ↦ ground (arith, allocate_loop-nodes pool q rs d pos h found)
  ]
  | inr ((cut, pool'), k) ↦
      let n = carve-nodes pool q r cut pool' pos h (ground arith) in
      let s : c.regions ≡ cut ++ rs = ground arith in
      let p : c.pool ≡ pool' = ground arith in
      omega (arith, n, p, ap length s, length-append cut rs)
]

-- A call with a 32-bit page count and alignment makes such a request.
request-IsRequest :
    (page_count alignment max_addr k : ℕ)
    → 0 < page_count
    → page_count < 2 ^ 32
    → alignment ≡ 2 ^ k
    → k ≤ 31
    → IsRequest (request page_count alignment max_addr) k
request-IsRequest n al m k pos small e le = record {
  some_pages = omega arith;
  small = omega arith;
  power = e;
  word = pow-le-pow_right {n = 2} (omega arith) {j = 32} (omega arith);
}

-- A free region that has an aligned chunk of the size below the ceiling is accepted, and cut up
-- while the pool has a node.
try_region-ne-none :
    (pool : ℕ) (q : Request) (k lo m : ℕ) (r : MemoryRegion)
    → k < 64
    → IsRequest q k
    → Placed lo r
    → pool < region_pool_size
    → r.used ≡ false
    → m % q.alignment ≡ 0
    → r.start ≤ m
    → (q.max_addr ≡ 0) ⊎ (m + q.size ≤ q.max_addr)
    → m + q.size ≤ r.start + r.size
    → try_region pool q r ≢ none
unfolding try_region carve
try_region-ne-none pool q k lo m r lt v p room f al low top h = ground (arith, least, fits-true)
  where
    word : 2 ^ k ≤ 2 ^ 32
    word = v.word

    least : aligned_start q r ≤ m
    least = rw v.power (align_up-le k r.start m lt (omega arith) (rw (← v.power) al) low)

    fits-true : fits q r ≡ true
    fits-true = unfold fits in ground (arith, least)

allocate_loop-full :
    (pool : ℕ) (q : Request) (k lo i m : ℕ) (rs : List MemoryRegion) (r : MemoryRegion)
    → k < 64
    → IsRequest q k
    → Layout lo rs
    → pool < region_pool_size
    → allocate_loop pool q rs ≡ none
    → get_elem? rs i ≡ some r
    → r.used ≡ false
    → m % q.alignment ≡ 0
    → r.start ≤ m
    → (q.max_addr ≡ 0) ⊎ (m + q.size ≤ q.max_addr)
    → ¬ (m + q.size ≤ r.start + r.size)
unfolding allocate_loop
allocate_loop-full pool q k lo i m [] r lt v l room e g f al low top = absurd (cc)
allocate_loop-full pool q k lo zero m (s ∷ rs) r lt v l room e g f al low top = λ h.
    try_region-ne-none pool q k lo m s lt v l.0 room (ground arith) al (ground arith) top
      (ground arith) (ground arith)
allocate_loop-full pool q k lo (suc i) m (s ∷ rs) r lt v l room e g f al low top =
    allocate_loop-full pool q k (s.start + s.size) i m rs r lt v l.1 room (ground arith) g f al low
      top

-- A free region has an aligned chunk of so many bytes below the ceiling.
pub record HasChunk (rs : List MemoryRegion) (size alignment max_addr : ℕ) : Type 0 where
  pub index : ℕ
  pub at : ℕ
  pub region : MemoryRegion
  pub found : get_elem? rs index ≡ some region
  pub is_free : region.used ≡ false
  pub is_aligned : at % alignment ≡ 0
  pub is_above : region.start ≤ at
  pub is_below : (max_addr ≡ 0) ⊎ (at + size ≤ max_addr)
  pub is_inside : at + size ≤ region.start + region.size

-- What a call returns after a walk that succeeds with `c`.
record Returns (a a' : PhysAllocator) (page_count p : ℕ) (c : Carved) : Type 0 where
  address : p ≡ c.address
  regions : a'.free_list ≡ c.regions
  nodes : a'.pool_used ≡ c.pool
  pages : 0 < page_count
  used : a'.used_pages ≡ add64 a.used_pages page_count
  free : a'.free_pages ≡ sub64 a.free_pages page_count

module _ (a : PhysAllocator) (page_count alignment max_addr : ℕ) where
  abbrev walk : Option Carved
  walk = allocate_loop a.pool_used (request page_count alignment max_addr) a.free_list

  abbrev address : ℕ
  address = (allocate_pages a page_count alignment max_addr).0

  abbrev after : PhysAllocator
  after = (allocate_pages a page_count alignment max_addr).1

  abbrev Fails : Type 0
  Fails = (address ≡ 0) × (after ≡ a) × ((page_count ≡ 0) ⊎ (walk ≡ none))

  -- What a call does, read off its result.
  allocate_pages-cases :
      Fails ⊎ ((c : Carved) × (walk ≡ some c) × Returns a after page_count address c)
  unfolding allocate_pages
  allocate_pages-cases = elim (Bool-cases (page_count == 0)) [
    | inl z ↦ inl (ground arith)
    | inr nz ↦ elim (Option-cases walk) [
      | inl e ↦ inl (ground arith)
      | inr (c, e) ↦ inr (c, e, ground arith)
    ]
  ]

  module _ (k : ℕ) (v : IsValid a) (small : page_count < 2 ^ 32) (power : alignment ≡ 2 ^ k)
      (word : k ≤ 31) where
    -- A successful walk is `Taken`.
    walk-Taken :
        (c : Carved)
        → walk ≡ some c
        → 0 < page_count
        → Taken a.pool_used (request page_count alignment max_addr) c.address a.free_list c.regions
    walk-Taken c e pos =
        allocate_loop-Taken a.pool_used (request page_count alignment max_addr) k (omega arith)
          (request-IsRequest page_count alignment max_addr k pos small power word) page_size
          a.free_list c v.layout e

    -- Every allocation, served or refused, keeps the regions in order, disjoint and above page 0,
    -- and the count of pool nodes in step with the list, within the pool's 512.
    pub allocate_pages-IsValid : IsValid after
    allocate_pages-IsValid = elim allocate_pages-cases [
      | inl (_, same, _) ↦ rw same v
      | inr (c, e, r) ↦
          let req = request-IsRequest page_count alignment max_addr k r.pages small power word in
          let n =
            allocate_loop-nodes a.pool_used (request page_count alignment max_addr) a.free_list c
              req.some_pages v.pool e in
          let l =
            Taken-Layout a.pool_used (request page_count alignment max_addr) k (omega arith) req
              c.address page_size v.layout (walk-Taken c e r.pages) in
          record {
            layout = rw r.regions l;
            nodes = rw (r.regions, r.nodes) (omega (arith, n, v.nodes));
            pool = rw r.nodes n.1;
          }
    ]

    pub allocate_pages-Taken :
        address ≢ 0
        → Taken a.pool_used
            (request page_count alignment max_addr)
            address
            a.free_list
            after.free_list
          × (0 < page_count)
    allocate_pages-Taken h = elim allocate_pages-cases [
      | inl f ↦ absurd (h f.0)
      | inr (c, e, r) ↦ rw (r.address, r.regions) (walk-Taken c e r.pages, r.pages)
    ]

    -- With an address other than 0, the chunk is aligned, ends below the ceiling, was free and is
    -- now used; what was used stays used, and only what was free is free.
    pub allocate_pages-Serves :
        (x : ℕ)
        → address ≢ 0
        → (address % alignment ≡ 0)
          × ((max_addr ≡ 0) ⊎ (address + page_count * page_size ≤ max_addr))
          × Serves address (page_count * page_size) a.free_list after.free_list x
    allocate_pages-Serves x h = elim allocate_pages-cases [
      | inl f ↦ absurd (h f.0)
      | inr (c, e, r) ↦
          let t = walk-Taken c e r.pages in
          let q : Request = request page_count alignment max_addr in
          let size : q.size ≡ page_count * page_size = omega arith in
          let b = Taken-bounds a.pool_used q c.address t in
          let s = Taken-Serves a.pool_used q c.address x t in
          rw (r.address, r.regions, ← size) (b.0, b.1, s)
    ]

    -- With two nodes of the pool to spare, the chunk's addresses move from free to used and every
    -- other address keeps its state; the page counters move by `page_count`, and a later
    -- `used_pages + free_pages` is what it was.
    pub allocate_pages_moves :
        (x : ℕ)
        → address ≢ 0
        → a.pool_used + 2 ≤ region_pool_size
        → MovesChunk address (page_count * page_size) a.free_list after.free_list x
          × (after.used_pages ≡ add64 a.used_pages page_count)
          × (after.free_pages ≡ sub64 a.free_pages page_count)
          × (add64 after.used_pages after.free_pages ≡ add64 a.used_pages a.free_pages)
    allocate_pages_moves x h room = elim allocate_pages-cases [
      | inl f ↦ absurd (h f.0)
      | inr (c, e, r) ↦
          let t = walk-Taken c e r.pages in
          let q : Request = request page_count alignment max_addr in
          let size : q.size ≡ page_count * page_size = omega arith in
          let s = Taken-MovesChunk a.pool_used q c.address page_size x room v.layout t in
          rw (r.address, r.regions, r.used, r.free, ← size) (s, refl, refl, omega arith)
    ]

    -- The address 0 is returned only in want, and the allocator is then as before: no pages were
    -- asked for, or no pool node was left, or no free region has an aligned chunk of the size below
    -- the ceiling.
    pub allocate_pages_fails :
        address ≡ 0
        → (after ≡ a)
          × ((page_count ≡ 0)
              ⊎ ((region_pool_size ≤ a.pool_used)
                  ⊎ ¬ HasChunk a.free_list (page_count * page_size) alignment max_addr))
    allocate_pages_fails z = elim allocate_pages-cases [
      | inl w ↦ (w.1, elim w.2 [ inl e ↦ inl e | inr e ↦ walk_fails e ])
      | inr (c, e, t) ↦ absurd (
          omega (
            arith,
            Taken-low a.pool_used (request page_count alignment max_addr) c.address page_size
                v.layout (walk-Taken c e t.pages),
            t.address,
          ))
    ]
      where
        walk_fails :
            walk ≡ none
            → (page_count ≡ 0)
              ⊎ ((region_pool_size ≤ a.pool_used)
                  ⊎ ¬ HasChunk a.free_list (page_count * page_size) alignment max_addr)
        walk_fails e = elim (==_cases page_count 0) [
          | inl e0 ↦ inl e0
          | inr pos ↦ elim (Bool-cases (ltb a.pool_used region_pool_size)) [
            | inr full ↦ inr (inl (ground arith))
            | inl room ↦ inr (
                inr (λ h.
                  let req =
                    request-IsRequest page_count alignment max_addr k (omega arith) small power
                      word in
                  let size : (request page_count alignment max_addr).size ≡ page_count * page_size =
                    omega arith in
                  allocate_loop-full a.pool_used (request page_count alignment max_addr) k page_size
                    h.index h.at a.free_list h.region (omega arith) req v.layout
                    (ltb→lt a.pool_used region_pool_size room) e h.found h.is_free h.is_aligned
                    h.is_above (rw size h.is_below) (rw size h.is_inside)))
          ]
        ]
