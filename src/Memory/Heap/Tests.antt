-- ===== src/Memory/Heap/Tests.antt =====
-- Runs of the kernel heap on a region of 1024 bytes, and the theorems at concrete inputs.
use vkernel.Common.{ℕ, ◌%◌, ◌≤◌, ◌≡◌, ◌≢◌, false, true, none, some, [], ◌∷◌, arith, refl}
use vkernel.Common.Words.{align_up}
use vkernel.Memory.Heap.Types.{KernelHeap, block, coalesce_next, coalesce_prev}
use vkernel.Memory.Heap.Allocate.{take_block, can_hold, take_first, try_allocate}
use vkernel.Memory.Heap.Free.{free_behind, free_block, free}
use vkernel.Memory.Heap.Region.{success, init, add_region, insert_block, insert_behind, attach}
use vkernel.Memory.Heap.Live.{live_at}
use vkernel.Memory.Heap.Contract.{
  IsValid, try_allocate-fresh, try_allocate-others, free_removes, add_region-room,
}

abbrev none_yet : KernelHeap
none_yet = record { free_list = []; total_bytes = 0; subheap_count = 0; expanding = false }

abbrev fresh : KernelHeap
fresh = record {
  free_list = block 4096 992 false ∷ [];
  total_bytes = 1024;
  subheap_count = 1;
  expanding = false;
}

abbrev one_taken : KernelHeap
one_taken = record fresh { free_list = block 4096 112 true ∷ block 4240 848 false ∷ [] }

abbrev two_taken : KernelHeap
two_taken = record fresh {
  free_list = block 4096 112 true ∷ block 4240 16 true ∷ block 4288 800 false ∷ [];
}

init_lem : init none_yet 4096 1024 ≡ (success, fresh)
unfolding init
init_lem = refl

-- 100 bytes take 112, and 1 byte takes 16.
one_taken_lem : try_allocate fresh 100 ≡ some (4128, one_taken)
unfolding try_allocate take_first can_hold take_block align_up
one_taken_lem = refl

two_taken_lem : try_allocate one_taken 1 ≡ some (4272, two_taken)
unfolding try_allocate take_first can_hold take_block align_up
two_taken_lem = refl

-- Freed in the order of allocation, the three blocks become one again.
all_freed_lem :
    (free two_taken 4128
      ≡ some (record two_taken {
        free_list = block 4096 112 false ∷ block 4240 16 true ∷ block 4288 800 false ∷ [];
      }))
    × (free
          (record two_taken {
            free_list = block 4096 112 false ∷ block 4240 16 true ∷ block 4288 800 false ∷ [];
          })
          4272
        ≡ some fresh)
unfolding free free_block free_behind coalesce_next coalesce_prev
all_freed_lem = (refl, refl)

-- A region right behind the heap is merged with the last block.
grown_lem : (add_region fresh 5120 4096).1.free_list ≡ block 4096 5088 false ∷ []
unfolding add_region insert_block insert_behind attach coalesce_next
grown_lem = refl

one_taken-IsValid : IsValid one_taken
one_taken-IsValid = omega arith

two_taken-IsValid : IsValid two_taken
two_taken-IsValid = omega arith

try_allocate-fresh_example :
    IsValid two_taken
    × (◌≢◌ {A = ℕ} 4272 0)
    × (4272 % 16 ≡ 0)
    × (live_at 4272 one_taken.free_list ≡ none)
    × ((s : ℕ) × (1 ≤ s) × (live_at 4272 two_taken.free_list ≡ some s))
try_allocate-fresh_example =
    try_allocate-fresh one_taken two_taken 1 4272 one_taken-IsValid (omega arith) (omega arith)
      two_taken_lem

try_allocate-others_example : live_at 4128 two_taken.free_list ≡ some 112
try_allocate-others_example =
    try_allocate-others one_taken two_taken 1 4272 4128 one_taken-IsValid two_taken_lem
      (omega arith)

free_removes_example :
    (h : KernelHeap) × (free two_taken 4128 ≡ some h)
    × IsValid h
    × (live_at 4272 h.free_list ≡ some 16)
free_removes_example = free_removes two_taken 4128 112 4272 two_taken-IsValid refl

add_region-room_example :
    let (status, h) = add_region two_taken 8192 4096 in
    (status ≡ success)
    × IsValid h
    × (h.total_bytes ≡ 5120)
    × (live_at 4272 h.free_list ≡ some 16)
    × (take_first 4000 h.free_list ≢ none)
add_region-room_example =
    add_region-room two_taken 8192 4096 4000 4272 two_taken-IsValid (omega arith) refl refl
      (omega arith) (omega arith) (omega arith) (omega arith)
