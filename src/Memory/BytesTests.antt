-- ===== src/Memory/BytesTests.antt =====
-- Copies on a small memory, and the theorems of Memory/Bytes.antt at concrete inputs.
use vkernel.Common.{◌≡◌, inl, refl, arith}
use vkernel.Memory.Bytes.{
  set, Filled, set-Filled, Memory, copy_loop, copy, copy_backward, move, Copied, copy-Copied,
  move-Copied,
}

-- Every byte is its address.
abbrev numbered : Memory
numbered = λ a. a

move-Copied_example : Copied numbered 12 10 4 (move numbered 12 10 4)
move-Copied_example = move-Copied numbered 12 10 4

copy-Copied_example : Copied numbered 10 12 4 (copy numbered 10 12 4)
copy-Copied_example = copy-Copied numbered 10 12 4 (inl (omega arith))

moved_byte : move numbered 12 10 4 15 ≡ 13
unfolding copy_loop copy copy_backward move
moved_byte = refl

-- A forward copy onto its own tail repeats the first bytes.
copied_byte : copy numbered 12 10 4 15 ≡ 11
unfolding copy_loop copy
copied_byte = refl

set-Filled_example : Filled numbered 5 0x1FF 3 (set numbered 5 0x1FF 3)
set-Filled_example = set-Filled numbered 5 0x1FF 3
