-- ===== src/Fs/Tests.antt =====
-- Runs of the RAM file system and of the block registry, and the theorems at concrete inputs.
use vkernel.Common.{ℕ, ◌≡◌, ◌↔◌, refl, true, some, List, [], ◌∷◌, arith}
use vkernel.Fs.Block.{BlockDevice, register_device, get_device, Request, read_blocks}
use vkernel.Fs.BlockBounds.{Serves, read_blocks_iff, get_device-register_device}

-- "./a" with the bytes 1 and 2, looked for as "a".
abbrev dotted : List ℕ
dotted = 46 ∷ 47 ∷ 97 ∷ []

abbrev disk : BlockDevice
disk = record {
  name = 118 ∷ [];
  block_count = 1000;
  block_size = 512;
  has_ops = true;
  read_entry = 4096;
  write_entry = 0;
}

read_blocks_iff_example :
    ((r : Request) × (read_blocks disk 990 10 8192 ≡ some r))
    ↔ Serves disk disk.read_entry 990 10 8192
read_blocks_iff_example = read_blocks_iff disk 990 10 8192

get_device-register_device_example :
    ((register_device [] disk).0 ≡ some 0) × (get_device (register_device [] disk).1 0 ≡ some disk)
get_device-register_device_example =
    get_device-register_device [] disk 0 (omega arith) (omega arith) (omega arith) refl
      (omega arith)
