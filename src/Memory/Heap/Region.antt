-- ===== src/Memory/Heap/Region.antt =====
-- `kernel_heap::init` and `kernel_heap::add_region` of src/core/memory.cpp.
use vkernel.Common.{
  ℕ, ◌+◌, ◌%◌, ◌^◌, false, not, ◌&&◌, ◌||◌, List, [], ◌∷◌, ltb, leb, ◌==◌, if◌then◌else◌,
}
use vkernel.Common.Words.{add64, sub64}
use vkernel.Memory.Heap.Types.{
  HeapBlock, KernelHeap, header_size, block, end_of, absorb, coalesce_next,
}

-- `status_code`, as far as these functions return it
pub data Status : Type 0 where
  success invalid_param : Status

-- The block of a fresh region.
abbrev pub region_block : ℕ → ℕ → HeapBlock
region_block base size = block base (sub64 size header_size) false

unfoldable pub init : KernelHeap → ℕ → ℕ → Status × KernelHeap
init h base size = if base == 0 || leb size header_size then (invalid_param, h) else (
  success,
  record {
    free_list = region_block base size ∷ [];
    total_bytes = size;
    subheap_count = 1;
    expanding = false;
  },
)

-- The new block behind `prev`: merged backward, then forward.
unfoldable pub attach : HeapBlock → HeapBlock → List HeapBlock → List HeapBlock
attach prev b bs =
    if not prev.used && end_of prev == b.address
    then coalesce_next (absorb prev b) bs
    else prev ∷ coalesce_next b bs

-- The walk to the last block below the new one.
unfoldable pub insert_behind : HeapBlock → HeapBlock → List HeapBlock → List HeapBlock
insert_behind b prev [] = attach prev b []
insert_behind b prev (n ∷ bs) =
    let further = prev ∷ insert_behind b n bs in
    if ltb n.address b.address then further else attach prev b (n ∷ bs)

unfoldable pub insert_block : HeapBlock → List HeapBlock → List HeapBlock
insert_block b [] = b ∷ []
insert_block b (n ∷ bs) =
    if ltb b.address n.address then coalesce_next b (n ∷ bs) else insert_behind b n bs

unfoldable pub add_region : KernelHeap → ℕ → ℕ → Status × KernelHeap
add_region h base size = if base == 0 || leb size header_size then (invalid_param, h) else (
  success,
  record h {
    free_list = insert_block (region_block base size) h.free_list;
    total_bytes = add64 h.total_bytes size;
    subheap_count = (h.subheap_count + 1) % 2 ^ 32;
  },
)
