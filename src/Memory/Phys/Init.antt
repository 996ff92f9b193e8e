-- ===== src/Memory/Phys/Init.antt =====
-- `phys_allocator::init` of src/core/memory.cpp.
use vkernel.Common.{
  Bool, true, false, not, ◌||◌, Option, none, some, List, [], ◌∷◌, ◌++◌, ltb, ◌==◌, if◌then◌else◌,
}
use vkernel.Common.Words.{add64, sub64, mul64}
use vkernel.Memory.Phys.Types.{
  MemoryType, MemoryMapEntry, MemoryRegion, PhysAllocator, page_size, claim_node, alloc_region_node,
  region,
}

unfoldable pub is_free_type : MemoryType → Bool
is_free_type MemoryType.conventional = true
is_free_type MemoryType.boot_services_code = true
is_free_type MemoryType.boot_services_data = true
is_free_type _ = false

-- What the loop of `init` makes of a free entry: no node where the entry is page 0 alone, and a
-- node that skips page 0 where it begins there.
unfoldable pub entry_region : MemoryMapEntry → Option MemoryRegion
entry_region e =
    let size = mul64 e.number_of_pages page_size in
    if not (e.physical_start == 0)
    then some (region e.physical_start size false)
    else (if ltb page_size size then some (region page_size (sub64 size page_size) false) else none)

-- The rest of the loop's body: the new node is linked behind `tail`.
unfoldable pub link_entry : PhysAllocator → MemoryMapEntry → PhysAllocator
link_entry a e = elim (entry_region e) [
  | none ↦ a
  | some r ↦ record a {
    free_list = a.free_list ++ r ∷ [];
    free_pages = add64 a.free_pages e.number_of_pages;
    pool_used = claim_node a.pool_used r.size;
  }
]

-- One round of the loop, and whether the loop goes on: it stops when the node pool is exhausted.
unfoldable pub init_entry : PhysAllocator → MemoryMapEntry → Bool × PhysAllocator
init_entry a e =
    let a' : PhysAllocator = record a { total_pages = add64 a.total_pages e.number_of_pages } in
    if not (is_free_type e.type) || e.number_of_pages == 0
    then (true, a')
    else (if alloc_region_node a'.pool_used then (true, link_entry a' e) else (false, a'))

unfoldable pub init_loop : PhysAllocator → List MemoryMapEntry → PhysAllocator
init_loop a [] = a
init_loop a (e ∷ es) =
    let (go_on, a') = init_entry a e in elim go_on [ true ↦ init_loop a' es | false ↦ a' ]

-- `phys_allocator::init`
unfoldable pub init : PhysAllocator → List MemoryMapEntry → PhysAllocator
init a map =
    init_loop (record a { free_list = []; total_pages = 0; used_pages = 0; free_pages = 0 }) map
