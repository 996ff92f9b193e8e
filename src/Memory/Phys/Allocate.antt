-- ===== src/Memory/Phys/Allocate.antt =====
-- `phys_allocator::allocate_pages` of src/core/memory.cpp: first fit with alignment and a ceiling.
use vkernel.Common.{
  ℕ, Bool, true, false, not, ◌&&◌, Option, none, some, List, [], ◌∷◌, ◌++◌, ltb, ◌==◌,
  if◌then◌else◌,
}
use vkernel.Common.Words.{add64, sub64, mul64, align_up}
use vkernel.Memory.Phys.Types.{
  MemoryRegion, PhysAllocator, page_size, claim_node, alloc_region_node, region,
}

pub record Request : Type 0 where
  pub size : ℕ
  pub alignment : ℕ
  pub max_addr : ℕ

abbrev pub aligned_start : Request → MemoryRegion → ℕ
aligned_start q r = align_up r.start q.alignment

abbrev pub aligned_end : Request → MemoryRegion → ℕ
aligned_end q r = add64 (aligned_start q r) q.size

-- The three `continue`s at the head of the loop of `allocate_pages`, negated.
unfoldable pub fits : Request → MemoryRegion → Bool
fits q r =
    not r.used
    && not (ltb (add64 r.start r.size) (aligned_end q r))
    && not (not (q.max_addr == 0) && ltb q.max_addr (aligned_end q r))

-- A region that fits is cut up; the list replaces it. `none` is the `continue` for want of a node.
unfoldable pub carve : ℕ → Request → MemoryRegion → Option (List MemoryRegion × ℕ)
carve pool q r =
    let pre = sub64 (aligned_start q r) r.start in
    let post = sub64 (add64 r.start r.size) (aligned_end q r) in
    let tail = region (aligned_end q r) post false in
    if pre == 0
    then (if not (post == 0) && alloc_region_node pool
        then some (region r.start q.size true ∷ tail ∷ [], claim_node pool post)
        else some (record r { used = true } ∷ [], pool))
    else (if alloc_region_node pool
        then (let pool' = claim_node pool q.size in
            let front = region r.start pre r.used in
            let chunk = region (aligned_start q r) q.size true in
            if not (post == 0) && alloc_region_node pool'
            then some (front ∷ chunk ∷ tail ∷ [], claim_node pool' post)
            else some (front ∷ chunk ∷ [], pool'))
        else none)

-- What a successful walk leaves: the address, the list and the node count.
pub record Carved : Type 0 where
  pub address : ℕ
  pub regions : List MemoryRegion
  pub pool : ℕ

abbrev pub keep_region : MemoryRegion → Option Carved → Option Carved
keep_region r none = none
keep_region r (some c) = some (record c { regions = r ∷ c.regions })

-- The region where the walk stops, if it does.
unfoldable pub try_region : ℕ → Request → MemoryRegion → Option (List MemoryRegion × ℕ)
try_region pool q r = if fits q r then carve pool q r else none

unfoldable pub allocate_loop : ℕ → Request → List MemoryRegion → Option Carved
allocate_loop pool q [] = none
allocate_loop pool q (r ∷ rs) = elim (try_region pool q r) [
  | none ↦ keep_region r (allocate_loop pool q rs)
  | some (cut, pool') ↦
      some (record { address = aligned_start q r; regions = cut ++ rs; pool = pool' })
]

abbrev pub request : ℕ → ℕ → ℕ → Request
request page_count alignment max_addr = record {
  size = mul64 page_count page_size;
  alignment = alignment;
  max_addr = max_addr;
}

-- `phys_allocator::allocate_pages`; the address 0 means failure.
unfoldable pub allocate_pages : PhysAllocator → ℕ → ℕ → ℕ → ℕ × PhysAllocator
allocate_pages a page_count alignment max_addr =
    if page_count == 0
    then (0, a)
    else elim (allocate_loop a.pool_used (request page_count alignment max_addr) a.free_list) [
      | none ↦ (0, a)
      | some c ↦ (
        c.address,
        record a {
          free_list = c.regions;
          used_pages = add64 a.used_pages page_count;
          free_pages = sub64 a.free_pages page_count;
          pool_used = c.pool;
        },
      )
    ]
