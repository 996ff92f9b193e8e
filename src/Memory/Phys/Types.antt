-- ===== src/Memory/Phys/Types.antt =====
-- The data of the physical page allocator: `memory_map_entry`, `memory_region` and `phys_allocator`
-- of include/vkernel/memory.h, and the node pool of src/core/memory.cpp.
-- The intrusive list is a list of regions in link order. Of the node pool `g_region_pool` only the
-- number of nodes in use is kept, those with a size other than 0: `alloc_region_node` fails when it
-- reaches the pool's size, and `free_region_node` gives a node back. A call runs under `lock_`, so
-- it is one step.
use vkernel.Common.{ℕ, ◌+◌, ◌-◌, Bool, List, ltb, ◌==◌, if◌then◌else◌}

-- `enum class memory_type`
pub data MemoryType : Type 0 where
  reserved loader_code loader_data boot_services_code boot_services_data : MemoryType
  runtime_services_code runtime_services_data conventional unusable acpi_reclaimable : MemoryType
  nvs memory_mapped_io memory_mapped_io_port_space pal_code persistent : MemoryType

pub record MemoryMapEntry : Type 0 where
  pub physical_start : ℕ
  pub number_of_pages : ℕ
  pub type : MemoryType

pub record MemoryRegion : Type 0 where
  pub start : ℕ
  pub size : ℕ
  pub used : Bool

pub record PhysAllocator : Type 0 where
  pub free_list : List MemoryRegion
  pub total_pages : ℕ
  pub used_pages : ℕ
  pub free_pages : ℕ
  -- nodes of `g_region_pool` whose size is not 0
  pub pool_used : ℕ

abbrev pub page_size : ℕ
page_size = 4096

abbrev pub region_pool_size : ℕ
region_pool_size = 512

-- The pool after a node got the size `s`, and after `free_region_node` on such a node.
abbrev pub claim_node : ℕ → ℕ → ℕ
claim_node pool s = if s == 0 then pool else pool + 1

abbrev pub free_region_node : ℕ → ℕ → ℕ
free_region_node pool s = if s == 0 then pool else pool - 1

abbrev pub alloc_region_node : ℕ → Bool
alloc_region_node pool = ltb pool region_pool_size

abbrev pub region : ℕ → ℕ → Bool → MemoryRegion
region start size used = record { start = start; size = size; used = used }
