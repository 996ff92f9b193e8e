-- ===== src/Memory/Phys/Free.antt =====
-- `phys_allocator::free_pages` of src/core/memory.cpp: release and merge with both neighbours.
use vkernel.Common.{
  ℕ, Bool, false, not, ◌&&◌, ◌||◌, Option, none, some, List, [], ◌∷◌, ◌==◌, if◌then◌else◌,
}
use vkernel.Common.Words.{add64, sub64}
use vkernel.Memory.Phys.Types.{MemoryRegion, PhysAllocator, free_region_node}

abbrev pub region_end : MemoryRegion → ℕ
region_end r = add64 r.start r.size

abbrev pub grow : MemoryRegion → MemoryRegion → MemoryRegion
grow r n = record r { size = add64 r.size n.size }

-- The released region at the head, with the following free run merged into it.
unfoldable pub merge_next : ℕ → MemoryRegion → List MemoryRegion → List MemoryRegion × ℕ
merge_next pool r [] = (r ∷ [], pool)
merge_next pool r (n ∷ rs) =
    if not n.used && region_end r == n.start
    then (grow r n ∷ rs, free_region_node pool n.size)
    else (r ∷ n ∷ rs, pool)

-- Then the released region, at the list's head, merged into the previous run.
unfoldable pub merge_prev : MemoryRegion → List MemoryRegion × ℕ → List MemoryRegion × ℕ
merge_prev prev ([], pool) = (prev ∷ [], pool)
merge_prev prev (r ∷ rs, pool) =
    if not prev.used && region_end prev == r.start
    then (grow prev r ∷ rs, free_region_node pool r.size)
    else (prev ∷ r ∷ rs, pool)

unfoldable pub is_allocated_at : ℕ → MemoryRegion → Bool
is_allocated_at addr r = r.start == addr && r.used

abbrev pub keep_prev :
    MemoryRegion → Option (List MemoryRegion × ℕ) → Option (List MemoryRegion × ℕ)
keep_prev r none = none
keep_prev r (some (rs, pool)) = some (r ∷ rs, pool)

-- The loop of `free_pages` behind its first region; `prev` is the region before.
unfoldable pub free_after :
    ℕ → ℕ → MemoryRegion → List MemoryRegion → Option (List MemoryRegion × ℕ)
free_after pool addr prev [] = none
free_after pool addr prev (r ∷ rs) =
    let later = keep_prev prev (free_after pool addr r rs) in
    if is_allocated_at addr r
    then some (merge_prev prev (merge_next pool (record r { used = false }) rs))
    else later

unfoldable pub free_loop : ℕ → ℕ → List MemoryRegion → Option (List MemoryRegion × ℕ)
free_loop pool addr [] = none
free_loop pool addr (r ∷ rs) =
    if is_allocated_at addr r
    then some (merge_next pool (record r { used = false }) rs)
    else free_after pool addr r rs

-- `phys_allocator::free_pages`
unfoldable pub free_pages : PhysAllocator → ℕ → ℕ → PhysAllocator
free_pages a addr page_count =
    if addr == 0 || page_count == 0 then a else elim (free_loop a.pool_used addr a.free_list) [
      | none ↦ a
      | some (regions, pool) ↦ record a {
        free_list = regions;
        used_pages = sub64 a.used_pages page_count;
        free_pages = add64 a.free_pages page_count;
        pool_used = pool;
      }
    ]
