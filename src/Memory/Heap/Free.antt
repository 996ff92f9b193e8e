-- ===== src/Memory/Heap/Free.antt =====
-- `kernel_heap::free` of src/core/memory.cpp. A pointer that is not the data of a block of the list
-- is undefined behaviour in the source: `none` here.
use vkernel.Common.{ℕ, false, Option, none, some, List, [], ◌∷◌, ◌==◌, if◌then◌else◌}
use vkernel.Common.Words.{sub64}
use vkernel.Memory.Heap.Types.{HeapBlock, KernelHeap, header_size, coalesce_next, coalesce_prev}

abbrev pub release_block : HeapBlock → HeapBlock
release_block b = record b { used = false }

abbrev pub keep_prev : HeapBlock → Option (List HeapBlock) → Option (List HeapBlock)
keep_prev prev none = none
keep_prev prev (some bs) = some (prev ∷ bs)

-- The block at `address`, somewhere behind `prev`, is released and merged.
unfoldable pub free_behind : ℕ → HeapBlock → List HeapBlock → Option (List HeapBlock)
free_behind address prev [] = none
free_behind address prev (b ∷ bs) =
    let later = keep_prev prev (free_behind address b bs) in
    if b.address == address
    then some (coalesce_prev prev (coalesce_next (release_block b) bs))
    else later

unfoldable pub free_block : ℕ → List HeapBlock → Option (List HeapBlock)
free_block address [] = none
free_block address (b ∷ bs) =
    if b.address == address
    then some (coalesce_next (release_block b) bs)
    else free_behind address b bs

abbrev pub with_blocks : KernelHeap → Option (List HeapBlock) → Option KernelHeap
with_blocks h none = none
with_blocks h (some bs) = some (record h { free_list = bs })

unfoldable pub free : KernelHeap → ℕ → Option KernelHeap
free h ptr =
    if ptr == 0 then some h else with_blocks h (free_block (sub64 ptr header_size) h.free_list)
