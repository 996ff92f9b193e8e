-- ===== src/Fs/BlockBounds.antt =====
-- No request leaves the device, and no slot of the registry is lost.
use vkernel.Common.{
  ℕ, zero, suc, ◌+◌, ◌-◌, ◌≤◌, ◌<◌, ◌≡◌, ◌↔◌, refl, true, false, some, List, [], ◌∷◌, ◌++◌, ◌==◌,
  ltb, length, get_elem?, arith, lt→ltb, if◌then◌else◌,
}
use vkernel.Fs.Block.{
  BlockDevice, register_device, get_device, max_block_devices, Request, checked_request,
  read_blocks,
}

-- A request that the device can serve.
pub record Serves (dev : BlockDevice) (entry lba count buffer : ℕ) : Type 0 where
  pub has_ops : dev.has_ops ≡ true
  pub has_entry : 0 < entry
  pub has_buffer : 0 < buffer
  pub some_blocks : 0 < count
  pub within : lba + count ≤ dev.block_count

checked_request-Serves :
    (dev : BlockDevice) (entry lba count buffer : ℕ) (r : Request)
    → checked_request dev entry lba count buffer ≡ some r
    → Serves dev entry lba count buffer
unfolding checked_request
checked_request-Serves dev entry lba count buffer r h = record {
  has_ops = ground arith;
  has_entry = ground arith;
  has_buffer = ground arith;
  some_blocks = ground arith;
  within = ground arith;
}

Serves-checked_request :
    (dev : BlockDevice) (entry lba count buffer : ℕ)
    → Serves dev entry lba count buffer
    → checked_request dev entry lba count buffer
      ≡ some (record { entry = entry; lba = lba; count = count; buffer = buffer })
unfolding checked_request
Serves-checked_request dev entry lba count buffer v =
    let o = v.has_ops in
    let a : (entry == 0) ≡ false = let p = v.has_entry in ground arith in
    let b : (buffer == 0) ≡ false = let p = v.has_buffer in ground arith in
    let c : (count == 0) ≡ false = let p = v.some_blocks in ground arith in
    let w = v.within in
    let p = v.some_blocks in
    let d : ltb lba dev.block_count ≡ true = ground arith in
    let e : ltb (dev.block_count - lba) count ≡ false = ground arith in rw (o, a, b, c, d, e) refl

-- A read reaches the driver exactly when the device has a read entry point, the buffer is there, the
-- count is positive and the last block still lies on the device; the test does not overflow, since it
-- subtracts.
pub read_blocks_iff :
    (dev : BlockDevice) (lba count buffer : ℕ)
    → ((r : Request) × (read_blocks dev lba count buffer ≡ some r))
      ↔ Serves dev dev.read_entry lba count buffer
unfolding read_blocks
read_blocks_iff dev lba count buffer = (
  λ h. checked_request-Serves dev dev.read_entry lba count buffer h.0 h.1,
  λ v. (
    record { entry = dev.read_entry; lba = lba; count = count; buffer = buffer },
    Serves-checked_request dev dev.read_entry lba count buffer v,
  ),
)

get_elem?-append :
    (xs : List BlockDevice) (d : BlockDevice) (i : ℕ)
    → get_elem? (xs ++ (d ∷ [])) i ≡ (if i == length xs then some d else get_elem? xs i)
get_elem?-append [] d zero = refl
get_elem?-append [] d (suc i) = let e : (suc i == 0) ≡ false = ground arith in rw e refl
get_elem?-append (x ∷ xs) d zero =
    let e : (0 == suc (length xs)) ≡ false = ground arith in rw e refl
get_elem?-append (x ∷ xs) d (suc i) =
    let e : (suc i == suc (length xs)) ≡ (i == length xs) = ground arith in
    rw e (get_elem?-append xs d i)

-- With fewer than 16 devices, none included, a device that has blocks, a block size and a read entry
-- point is registered in the next slot: that slot answers with it, and every other slot answers as
-- before.
pub get_device-register_device :
    (devices : List BlockDevice) (dev : BlockDevice) (i : ℕ)
    → length devices < max_block_devices
    → 0 < dev.block_size
    → 0 < dev.block_count
    → dev.has_ops ≡ true
    → 0 < dev.read_entry
    → ((register_device devices dev).0 ≡ some (length devices))
      × (get_device (register_device devices dev).1 i
          ≡ (if i == length devices then some dev else get_device devices i))
unfolding register_device
get_device-register_device devices dev i room sized filled ops entry =
    let a = lt→ltb (length devices) max_block_devices room in
    let b : (dev.block_size == 0) ≡ false = ground arith in
    let c : (dev.block_count == 0) ≡ false = ground arith in
    let d : (dev.read_entry == 0) ≡ false = ground arith in
    simp (a, b, c, ops, d) (refl, get_elem?-append devices dev i)
