-- ===== src/Memory/Heap/Types.antt =====
-- The data of the kernel heap: `heap_block` and `kernel_heap` of include/vkernel/memory.h.
-- A block's header lies at its address, and its data behind the header. The doubly linked list is
-- the list of blocks in link order: every operation that relinks a block sets both links, so
-- `prev` is the block before. Each critical section under `lock_` is one step.
use vkernel.Common.{ℕ, Bool, not, ◌&&◌, List, [], ◌∷◌, ◌==◌, if◌then◌else◌}
use vkernel.Common.Words.{add64}

pub record HeapBlock : Type 0 where
  pub address : ℕ
  pub size : ℕ
  pub used : Bool

pub record KernelHeap : Type 0 where
  pub free_list : List HeapBlock
  pub total_bytes : ℕ
  pub subheap_count : ℕ
  pub expanding : Bool

-- `sizeof(heap_block)`
abbrev pub header_size : ℕ
header_size = 32

abbrev pub min_alignment : ℕ
min_alignment = 16

abbrev pub min_split_data_size : ℕ
min_split_data_size = 16

abbrev pub block : ℕ → ℕ → Bool → HeapBlock
block address size used = record { address = address; size = size; used = used }

-- `heap_block::data` and `heap_block::end`
abbrev pub data_of : HeapBlock → ℕ
data_of b = add64 b.address header_size

abbrev pub end_of : HeapBlock → ℕ
end_of b = add64 (add64 b.address header_size) b.size

-- `block->size += next->size + sizeof(heap_block)`
abbrev pub absorb : HeapBlock → HeapBlock → HeapBlock
absorb b n = record b { size = add64 b.size (add64 n.size header_size) }

-- A block with the following one, where that is free and adjacent.
unfoldable pub coalesce_next : HeapBlock → List HeapBlock → List HeapBlock
coalesce_next b [] = b ∷ []
coalesce_next b (n ∷ rs) =
    if not n.used && end_of b == n.address then absorb b n ∷ rs else b ∷ n ∷ rs

-- A list behind `prev`, its head taken into `prev` where that is free and adjacent.
unfoldable pub coalesce_prev : HeapBlock → List HeapBlock → List HeapBlock
coalesce_prev prev [] = prev ∷ []
coalesce_prev prev (b ∷ rs) =
    if not prev.used && end_of prev == b.address then absorb prev b ∷ rs else prev ∷ b ∷ rs
