-- ===== src/Fs/Fat/Reading.antt =====
-- `read_fat_value` of src/fs/fat32.cpp through the cache, against the table on the disk.
use vkernel.Common.{
  ℕ, zero, suc, ◌+◌, ◌-◌, ◌*◌, ◌%◌, ◌^◌, ◌≤◌, ◌<◌, ◌≡◌, refl, sym, ap, subst, ◌∙◌, true, none, some,
  leb, ltb→lt, leb→le, le→leb, lt→ltb, le→ltb, Bool-cases, and_parts, inl, inr, arith,
}
use vkernel.Fs.Fat.Volume.{Geometry, Volume, word, fat_sector, entry_offset, fat_lba, all_readable}
use vkernel.Fs.Fat.Table.{
  cache_hit, fill_first, fill_count, read_cached_fat_sector, read_entry, read_fat_value, copy_lba,
}
use vkernel.Fs.Fat.Words.{IsSector}

-- A geometry whose table lies on the device: at least one copy, addresses that do not wrap, every sector
-- of every copy readable and writable, and an information sector in front of the table.
pub record IsFit (g : Geometry) : Type 0 where
  pub some_copy : 0 < g.fat_count
  pub copies_lt : g.fat_count * g.sectors_per_fat < 2 ^ 32
  pub can_read : (i : ℕ) → i < g.fat_count * g.sectors_per_fat → g.readable (fat_lba g i) ≡ true
  pub can_write : (i : ℕ) → i < g.fat_count * g.sectors_per_fat → g.writable (fat_lba g i) ≡ true
  pub info_before : g.fs_info_sector < g.reserved_sectors
  pub info_writable : g.writable (g.partition_start + g.fs_info_sector) ≡ true

-- The cache holds sectors of the table, as the first copy has them on the disk.
abbrev pub IsCoherent : Geometry → Volume → Type 0
IsCoherent g v =
    v.cache_valid ≡ true
    → (i : ℕ) → v.cache_first ≤ i
    → i < v.cache_first + v.cache_count
    → (i < g.sectors_per_fat) × (v.cache (i - v.cache_first) ≡ v.disk (fat_lba g i))

pub cache_hit_of :
    (v : Volume) (i : ℕ)
    → v.cache_valid ≡ true
    → v.cache_first ≤ i
    → i < v.cache_first + v.cache_count
    → cache_hit v i ≡ true
cache_hit_of v i q lo hi =
    rw (q, le→leb v.cache_first i lo, lt→ltb i (v.cache_first + v.cache_count) hi) refl

pub cache_hit_bounds :
    (v : Volume) (i : ℕ)
    → cache_hit v i ≡ true
    → (v.cache_valid ≡ true) × (v.cache_first ≤ i) × (i < v.cache_first + v.cache_count)
cache_hit_bounds v i q =
    let a = and_parts v.cache_valid _ q in
    let b = and_parts (leb v.cache_first i) _ a.1 in
    (a.0, leb→le v.cache_first i b.0, ltb→lt i (v.cache_first + v.cache_count) b.1)

pub record IsSound (g : Geometry) (v : Volume) : Type 0 where
  pub bytes : (b : ℕ) → IsSector (v.disk b)
  pub coherent : IsCoherent g v

-- The cluster has an entry in the table.
abbrev pub HasEntry : Geometry → ℕ → Type 0
HasEntry g c = (c < 2 ^ 28) × (fat_sector c < g.sectors_per_fat)

-- The entry of a cluster in a copy of the table on the disk.
unfoldable pub fat_entry : Geometry → Volume → ℕ → ℕ → ℕ
fat_entry g v k c = word (v.disk (copy_lba g k (fat_sector c))) (entry_offset c) % 2 ^ 28

-- A sector of one copy is a sector of the table.
pub copy_bound : (n s k i : ℕ) → k < n → i < s → k * s + i < n * s
copy_bound zero s k i h hi = absurd (omega arith)
copy_bound (suc n) s zero i h hi = omega arith
copy_bound (suc n) s (suc k) i h hi = let r = copy_bound n s k i (omega arith) hi in omega arith

pub all_readable_lem :
    (g : Geometry) (n lba : ℕ)
    → ((i : ℕ) → lba ≤ i → i < lba + n → g.readable i ≡ true)
    → all_readable g lba n ≡ true
unfolding all_readable
all_readable_lem g zero lba h = refl
all_readable_lem g (suc n) lba h =
    let a = h lba (omega arith) (omega arith) in
    let r = all_readable_lem g n (lba + 1) (λ i lo hi. h i (omega arith) (omega arith)) in cc

-- What a read of the cache leaves: the same disk and records of free clusters, a cache that agrees with
-- the disk, and the wanted sector in it.
pub record HasRead (g : Geometry) (v : Volume) (i : ℕ) (w : Volume) : Type 0 where
  pub w_disk : w.disk ≡ v.disk
  pub w_count : w.free_cluster_count ≡ v.free_cluster_count
  pub w_hint : w.next_free_hint ≡ v.next_free_hint
  pub w_coherent : IsCoherent g w
  pub w_row : w.cache (i - w.cache_first) ≡ v.disk (fat_lba g i)

hit_row :
    (g : Geometry) (v : Volume) (i : ℕ)
    → IsCoherent g v
    → cache_hit v i ≡ true
    → v.cache (i - v.cache_first) ≡ v.disk (fat_lba g i)
hit_row g v i h q = let b = cache_hit_bounds v i q in (h b.0 i b.1 b.2).1

filled : Geometry → Volume → ℕ → Volume
filled g v i = record v {
  cache_valid = true;
  cache_first = fill_first i;
  cache_count = fill_count g i;
  cache = λ k. v.disk (fat_lba g (fill_first i) + k);
}

filled-HasRead :
    (g : Geometry) (v : Volume) (i : ℕ) → i < g.sectors_per_fat → HasRead g v i (filled g v i)
unfolding filled
filled-HasRead g v i h = record {
  w_disk = refl;
  w_count = refl;
  w_hint = refl;
  w_coherent = λ q j lo hi. (ground arith, ap v.disk (omega arith));
  w_row = ap v.disk (omega arith);
}

fill_bound :
    (g : Geometry) (i j : ℕ)
    → IsFit g
    → i < g.sectors_per_fat
    → fat_lba g (fill_first i) ≤ j
    → j < fat_lba g (fill_first i) + fill_count g i
    → j - fat_lba g 0 < g.fat_count * g.sectors_per_fat
fill_bound g i j fit h lo hi =
    let b =
      copy_bound g.fat_count g.sectors_per_fat 0 (j - fat_lba g 0) fit.some_copy (ground arith) in
    omega arith

lba_of : (g : Geometry) (i j : ℕ) → fat_lba g i ≤ j → fat_lba g (j - fat_lba g 0) ≡ j
lba_of g i j h = omega arith

fill_readable :
    (g : Geometry) (i : ℕ)
    → IsFit g
    → i < g.sectors_per_fat
    → all_readable g (fat_lba g (fill_first i)) (fill_count g i) ≡ true
fill_readable g i fit h = all_readable_lem g (fill_count g i) (fat_lba g (fill_first i)) (λ j lo hi.
    subst (λ a. g.readable a ≡ true) (lba_of g (fill_first i) j lo)
      (fit.can_read (j - fat_lba g 0) (fill_bound g i j fit h lo hi)))

-- A read of a sector of the table succeeds, and loads it.
pub read_cached_fat_sector_lem :
    (g : Geometry) (v : Volume) (i : ℕ)
    → IsFit g
    → IsCoherent g v
    → i < g.sectors_per_fat
    → (w : Volume) × (read_cached_fat_sector g v i ≡ (true, w)) × HasRead g v i w
unfolding read_cached_fat_sector filled
read_cached_fat_sector_lem g v i fit h lt =
    let in_table = lt→ltb i g.sectors_per_fat lt in
    elim (Bool-cases (cache_hit v i)) [
      | inl q ↦ (
        v,
        rw in_table (rw q refl),
        record {
          w_disk = refl;
          w_count = refl;
          w_hint = refl;
          w_coherent = h;
          w_row = hit_row g v i h q;
        },
      )
      | inr q ↦ (
        filled g v i,
        rw in_table (rw q (rw (fill_readable g i fit lt) refl)),
        filled-HasRead g v i lt,
      )
    ]

pub first_copy : (g : Geometry) (i : ℕ) → fat_lba g i ≡ copy_lba g 0 i
first_copy g i = omega arith

-- A volume that agrees with another in all but the cache.
pub record SameTable (v w : Volume) : Type 0 where
  pub same_disk : w.disk ≡ v.disk
  pub same_count : w.free_cluster_count ≡ v.free_cluster_count
  pub same_hint : w.next_free_hint ≡ v.next_free_hint

-- With a table that fits the device, on a sound volume, the cached read of a cluster that has an entry succeeds with the low 28 bits of its
-- entry in the first copy of the table on the disk, whatever the cache held before, and leaves a sound
-- volume that differs in its cache only.
pub read_fat_value-fat_entry :
    (g : Geometry) (v : Volume) (c : ℕ)
    → IsFit g
    → IsSound g v
    → HasEntry g c
    → (w : Volume) × (read_fat_value g v c ≡ (some (fat_entry g v 0 c), w))
      × IsSound g w
      × SameTable v w
unfolding read_fat_value read_entry fat_entry
read_fat_value-fat_entry g v c fit s h =
    let r = read_cached_fat_sector_lem g v (fat_sector c) fit s.coherent h.1 in
    let m = r.2 in
    let row = m.w_row ∙ ap v.disk (first_copy g (fat_sector c)) in
    (
      r.0,
      rw (r.1, row) refl,
      record {
        bytes = λ b. subst (λ d. IsSector (d b)) (sym m.w_disk) (s.bytes b);
        coherent = m.w_coherent;
      },
      record { same_disk = m.w_disk; same_count = m.w_count; same_hint = m.w_hint },
    )

-- A cluster whose entry would stand behind the table is not read.
pub read_fat_value-out_of_range :
    (g : Geometry) (v : Volume) (c : ℕ)
    → g.sectors_per_fat ≤ fat_sector c
    → read_fat_value g v c ≡ (none, v)
unfolding read_fat_value read_entry read_cached_fat_sector
read_fat_value-out_of_range g v c h = rw (le→ltb (fat_sector c) g.sectors_per_fat h) refl
