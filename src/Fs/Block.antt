-- ===== src/Fs/Block.antt =====
-- The registry of block devices and the bounds of a request: src/core/block.cpp. A driver's entry
-- points are named by numbers, 0 for a null pointer, and a device is named by its slot.
use vkernel.Common.{
  ℕ, ◌-◌, Bool, ◌||◌, not, Option, none, some, List, [], ◌∷◌, ◌++◌, ◌==◌, if◌then◌else◌, ltb,
  length, get_elem?,
}

pub record BlockDevice : Type 0 where
  pub name : List ℕ
  pub block_count : ℕ
  pub block_size : ℕ
  pub has_ops : Bool
  pub read_entry : ℕ
  pub write_entry : ℕ

abbrev pub max_block_devices : ℕ
max_block_devices = 16

-- `register_device`: the slot, or `none` for -1, and the table.
unfoldable pub register_device : List BlockDevice → BlockDevice → Option ℕ × List BlockDevice
register_device devices dev =
    if not (ltb (length devices) max_block_devices)
    then (none, devices)
    else (if dev.block_size == 0
          || (dev.block_count == 0 || (not dev.has_ops || dev.read_entry == 0))
        then (none, devices)
        else (some (length devices), devices ++ (dev ∷ [])))

-- `get_device`
abbrev pub get_device : List BlockDevice → ℕ → Option BlockDevice
get_device devices index = get_elem? devices index

-- What a driver is called with.
pub record Request : Type 0 where
  pub entry : ℕ
  pub lba : ℕ
  pub count : ℕ
  pub buffer : ℕ

-- `read_blocks` and `write_blocks` up to the driver's entry point, or `none` for false.
unfoldable pub checked_request : BlockDevice → ℕ → ℕ → ℕ → ℕ → Option Request
checked_request dev entry lba count buffer =
    if not dev.has_ops || (entry == 0 || (buffer == 0 || count == 0))
    then none
    else (if not (ltb lba dev.block_count) || ltb (dev.block_count - lba) count
        then none
        else some (record { entry = entry; lba = lba; count = count; buffer = buffer }))

unfoldable pub read_blocks : BlockDevice → ℕ → ℕ → ℕ → Option Request
unfolding checked_request
read_blocks dev lba count buffer = checked_request dev dev.read_entry lba count buffer

unfoldable pub write_blocks : BlockDevice → ℕ → ℕ → ℕ → Option Request
unfolding checked_request
write_blocks dev lba count buffer = checked_request dev dev.write_entry lba count buffer
