-- ===== src/Memory/Heap/Allocate.antt =====
-- `find_heap_block` and the critical section of `kernel_heap::allocate` of src/core/memory.cpp.
use vkernel.Common.{
  ℕ, Bool, true, false, not, ◌&&◌, Option, none, some, List, [], ◌∷◌, ◌++◌, leb, ltb, ◌==◌,
  if◌then◌else◌,
}
use vkernel.Common.Words.{add64, sub64, align_up}
use vkernel.Memory.Heap.Types.{
  HeapBlock, KernelHeap, header_size, min_alignment, min_split_data_size, block, data_of,
}

-- The block that is taken, and the rest of it as a block of its own where that is worth while.
unfoldable pub take_block : ℕ → HeapBlock → List HeapBlock
take_block size b =
    if ltb (add64 (add64 size header_size) min_split_data_size) b.size
    then block b.address size true
      ∷ block (add64 (data_of b) size) (sub64 (sub64 b.size size) header_size) false
      ∷ []
    else block b.address b.size true ∷ []

-- The test of `find_heap_block`.
unfoldable pub can_hold : ℕ → HeapBlock → Bool
can_hold size b = not b.used && leb size b.size

pub record Found : Type 0 where
  pub address : ℕ
  pub blocks : List HeapBlock

abbrev pub keep_block : HeapBlock → Option Found → Option Found
keep_block b none = none
keep_block b (some f) = some (record f { blocks = b ∷ f.blocks })

-- The first block that can hold the size; the address is its data's.
unfoldable pub take_first : ℕ → List HeapBlock → Option Found
take_first size [] = none
take_first size (b ∷ bs) =
    let later = keep_block b (take_first size bs) in
    if can_hold size b
    then some (record { address = data_of b; blocks = take_block size b ++ bs })
    else later

-- The critical section of `allocate`: the pointer and the heap, or `none` where no block can hold
-- the size, and the caller expands the heap or waits for another CPU to do so. A size of 0 is
-- answered by a null pointer at once.
unfoldable pub try_allocate : KernelHeap → ℕ → Option (ℕ × KernelHeap)
try_allocate h size =
    if size == 0 then some (0, h) else elim (take_first (align_up size min_alignment) h.free_list) [
      | none ↦ none
      | some f ↦ some (f.address, record h { free_list = f.blocks })
    ]
