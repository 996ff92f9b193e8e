-- ===== src/Fs/Fat/Volume.antt =====
-- A mounted FAT32 volume: `mount_state` of src/fs/fat32.cpp and the disk below it. A disk is a function
-- from block numbers to sectors, and a sector one from offsets to bytes; `probe_volume` accepts sectors
-- of 512 bytes only. For each block `readable` and `writable` say whether the driver and the bounds of
-- the device let a transfer succeed.
use vkernel.Common.{ℕ, zero, suc, ◌+◌, ◌-◌, ◌*◌, ◌/◌, ◌%◌, ◌^◌, Bool, true, ◌&&◌, not, ltb}
use vkernel.Common.Arrays.{put}

abbrev pub Sector : Type 0
Sector = ℕ → ℕ

abbrev pub sector_bytes : ℕ
sector_bytes = 512

abbrev pub end_of_chain : ℕ
end_of_chain = 0x0FFF_FFF8

abbrev pub fsinfo_unknown : ℕ
fsinfo_unknown = 0xFFFF_FFFF

abbrev pub cache_sectors : ℕ
cache_sectors = 8

-- What the mount fixes: the geometry from `state.info`, what the device lets through, and what a
-- transfer that fails leaves in the buffer of the cache.
pub record Geometry : Type 0 where
  pub readable : ℕ → Bool
  pub writable : ℕ → Bool
  pub torn : ℕ → ℕ → Sector
  pub partition_start : ℕ
  pub reserved_sectors : ℕ
  pub sectors_per_fat : ℕ
  pub fat_count : ℕ
  pub sectors_per_cluster : ℕ
  pub first_data_sector : ℕ
  pub total_clusters : ℕ
  pub fs_info_sector : ℕ
  pub fs_info_valid : Bool

-- What its operations change.
pub record Volume : Type 0 where
  pub disk : ℕ → Sector
  pub free_cluster_count : ℕ
  pub next_free_hint : ℕ
  pub cache_valid : Bool
  pub cache_first : ℕ
  pub cache_count : ℕ
  -- the cached sectors, from 0 on
  pub cache : ℕ → Sector

-- A little-endian word of 32 bits in a sector.
unfoldable pub word : Sector → ℕ → ℕ
word s o = s o + 256 * s (o + 1) + 65536 * s (o + 2) + 16777216 * s (o + 3)

unfoldable pub put_word : Sector → ℕ → ℕ → Sector
put_word s o v =
    put (put (put (put s o (v % 256)) (o + 1) (v / 256 % 256)) (o + 2) (v / 65536 % 256)) (o + 3)
      (v / 16777216 % 256)

-- `is_data_cluster`
abbrev pub is_data_cluster : ℕ → Bool
is_data_cluster c = not (ltb c 2) && ltb c end_of_chain

-- Where the entry of a cluster stands: in 32 bits, as the source computes it.
abbrev pub fat_sector : ℕ → ℕ
fat_sector cluster = cluster * 4 % 2 ^ 32 / sector_bytes

abbrev pub entry_offset : ℕ → ℕ
entry_offset cluster = cluster * 4 % 2 ^ 32 % sector_bytes

-- A sector of the first copy of the table, on the disk.
abbrev pub fat_lba : Geometry → ℕ → ℕ
fat_lba g i = g.partition_start + g.reserved_sectors + i

-- `cluster_first_lba`
abbrev pub cluster_first_lba : Geometry → ℕ → ℕ
cluster_first_lba g cluster =
    g.partition_start + g.first_data_sector + (cluster - 2) * g.sectors_per_cluster

-- All of `n` sectors from one on can be read.
unfoldable pub all_readable : Geometry → ℕ → ℕ → Bool
all_readable g lba zero = true
all_readable g lba (suc n) = g.readable lba && all_readable g (lba + 1) n
