-- ===== src/Memory/Phys/Tests.antt =====
-- Runs of the physical page allocator on a small map, and the theorems at concrete inputs.
use vkernel.Common.{
  ℕ, ◌+◌, ◌*◌, ◌%◌, ◌^◌, ◌≤◌, ◌≡◌, ◌⊎◌, inr, refl, ap, true, false, List, [], ◌∷◌, arith,
}
use vkernel.Common.Words.{align_up}
use vkernel.Memory.Phys.Types.{
  MemoryType, MemoryMapEntry, PhysAllocator, region, page_size, region_pool_size,
}
use vkernel.Memory.Phys.Init.{is_free_type, entry_region, link_entry, init_entry, init_loop, init}
use vkernel.Memory.Phys.Allocate.{fits, carve, try_region, allocate_loop, allocate_pages}
use vkernel.Memory.Phys.Free.{
  merge_next, merge_prev, is_allocated_at, free_after, free_loop, free_pages,
}
use vkernel.Memory.Phys.Coverage.{used_at, free_at, Serves, MovesChunk}
use vkernel.Memory.Phys.Allocation.{
  HasChunk, IsValid, allocate_pages-IsValid, allocate_pages-Serves, allocate_pages_moves,
  allocate_pages_fails,
}
use vkernel.Memory.Phys.Merging.{allocated_at}
use vkernel.Memory.Phys.Release.{free_pages_ignores, free_pages_releases, free_pages-allocate_pages}
use vkernel.Memory.Phys.Boot.{init-IsValid}
use vkernel.Memory.Phys.Census.{init_census, bytes}

abbrev empty : PhysAllocator
empty = record { free_list = []; total_pages = 0; used_pages = 0; free_pages = 0; pool_used = 0 }

abbrev entry : ℕ → ℕ → MemoryType → MemoryMapEntry
entry start pages type = record { physical_start = start; number_of_pages = pages; type = type }

-- Page 0 and three more pages, the loader's, and 62 free pages.
abbrev small_map : List MemoryMapEntry
small_map =
    entry 0 4 MemoryType.conventional
    ∷ entry 16384 2 MemoryType.loader_code
    ∷ entry 24576 62 MemoryType.boot_services_data
    ∷ []

abbrev booted : PhysAllocator
booted = record {
  free_list = region 4096 12288 false ∷ region 24576 253952 false ∷ [];
  total_pages = 68;
  used_pages = 0;
  free_pages = 66;
  pool_used = 2;
}

-- The counter says 66 free pages; the list holds 65.
booted_lem : (init empty small_map ≡ booted) × (bytes booted.free_list ≡ 65 * page_size)
unfolding init init_loop init_entry link_entry entry_region is_free_type
booted_lem = (refl, refl)

-- Four pages at a multiple of 32768: a piece remains before the chunk and one behind it.
abbrev served : PhysAllocator
served = record {
  free_list =
      region 4096 12288 false
      ∷ region 24576 8192 false
      ∷ region 32768 16384 true
      ∷ region 49152 229376 false
      ∷ [];
  total_pages = 68;
  used_pages = 4;
  free_pages = 62;
  pool_used = 4;
}

served_lem : allocate_pages booted 4 32768 0 ≡ (32768, served)
unfolding allocate_pages allocate_loop try_region fits carve align_up
served_lem = refl

freed_lem : free_pages served 32768 4 ≡ booted
unfolding free_pages free_loop free_after is_allocated_at merge_next merge_prev
freed_lem = refl

booted-IsValid : IsValid booted
booted-IsValid = omega arith

served-IsValid : IsValid served
served-IsValid = omega arith

init-IsValid_example : IsValid (init empty small_map)
init-IsValid_example = init-IsValid empty small_map refl (omega arith)

init_census_example :
    (free_at (init empty small_map).free_list 5000 ≡ true)
    × (used_at (init empty small_map).free_list 5000 ≡ false)
    × ((init empty small_map).free_pages * page_size
        ≡ bytes (init empty small_map).free_list + 1 * page_size)
unfolding is_free_type
init_census_example = init_census empty small_map 5000 refl (omega arith) (omega arith)

allocate_pages-IsValid_example : IsValid (allocate_pages booted 4 32768 0).1
allocate_pages-IsValid_example =
    allocate_pages-IsValid booted 4 32768 0 15 booted-IsValid (omega arith) refl (omega arith)

served_at : (allocate_pages booted 4 32768 0).0 ≡ 32768
served_at = ap (λ r. r.0) served_lem

allocate_pages-Serves_example :
    let (p, a') = allocate_pages booted 4 32768 0 in
    (p % 32768 ≡ 0)
    × ((◌≡◌ {A = ℕ} 0 0) ⊎ (p + 4 * page_size ≤ 0))
    × Serves p (4 * page_size) booted.free_list a'.free_list 40000
allocate_pages-Serves_example =
    allocate_pages-Serves booted 4 32768 0 15 booted-IsValid (omega arith) refl (omega arith) 40000
      (omega (arith, served_at))

allocate_pages_moves_example :
    let (p, a') = allocate_pages booted 4 32768 0 in
    MovesChunk p (4 * page_size) booted.free_list a'.free_list 40000
    × (a'.used_pages ≡ 4)
    × (a'.free_pages ≡ 62)
    × ((a'.used_pages + a'.free_pages) % 2 ^ 64 ≡ 66)
allocate_pages_moves_example =
    allocate_pages_moves booted 4 32768 0 15 booted-IsValid (omega arith) refl (omega arith) 40000
      (omega (arith, served_at)) (omega arith)

-- No region has 63 pages.
refused_lem : (allocate_pages booted 63 4096 0).0 ≡ 0
unfolding allocate_pages allocate_loop try_region fits carve align_up
refused_lem = refl

allocate_pages_fails_example :
    ((allocate_pages booted 63 4096 0).1 ≡ booted)
    × ((◌≡◌ {A = ℕ} 63 0)
        ⊎ ((region_pool_size ≤ booted.pool_used)
            ⊎ ¬ HasChunk booted.free_list (63 * page_size) 4096 0))
allocate_pages_fails_example =
    allocate_pages_fails booted 63 4096 0 12 booted-IsValid (omega arith) refl (omega arith)
      refused_lem

free_pages_ignores_example : free_pages booted 4096 3 ≡ booted
unfolding allocated_at
free_pages_ignores_example = free_pages_ignores booted 4096 3 (inr (inr refl))

free_pages_releases_example :
    let a' = free_pages served 32768 4 in
    IsValid a'
    × (used_at a'.free_list 40000 ≡ false)
    × (free_at a'.free_list 40000 ≡ true)
    × (a'.used_pages ≡ 0)
    × (a'.free_pages ≡ 66)
unfolding allocated_at
free_pages_releases_example =
    free_pages_releases served 32768 4 40000 (region 32768 16384 true) served-IsValid (omega arith)
      (omega arith) refl

free_pages-allocate_pages_example :
    let (p, a') = allocate_pages booted 4 32768 0 in
    let a'' = free_pages a' p 4 in
    (used_at a''.free_list 40000 ≡ false)
    × (free_at a''.free_list 40000 ≡ true)
    × (a''.used_pages ≡ 0)
    × (a''.free_pages ≡ 66)
free_pages-allocate_pages_example =
    free_pages-allocate_pages booted 4 32768 0 15 40000 booted-IsValid (omega arith) refl
      (omega arith) (omega arith) (omega (arith, served_at)) (omega arith) (omega arith)
