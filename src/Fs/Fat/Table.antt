-- ===== src/Fs/Fat/Table.antt =====
-- The file allocation table of src/fs/fat32.cpp: its cache of 8 sectors, reads and writes of entries,
-- the record of free clusters, and the allocation and release of clusters.
use vkernel.Common.{
  ℕ, zero, suc, ◌+◌, ◌-◌, ◌*◌, ◌/◌, ◌%◌, ◌^◌, Bool, true, false, ◌&&◌, ◌||◌, not, Option, none,
  some, ◌==◌, if◌then◌else◌, ltb, leb,
}
use vkernel.Common.Arrays.{put}
use vkernel.Fs.Fat.Volume.{
  Sector, Geometry, Volume, end_of_chain, fsinfo_unknown, cache_sectors, word, put_word,
  is_data_cluster, fat_sector, entry_offset, fat_lba, all_readable,
}

abbrev pub cache_hit : Volume → ℕ → Bool
cache_hit v i = v.cache_valid && (leb v.cache_first i && ltb i (v.cache_first + v.cache_count))

-- `read_cached_fat_sector`: the volume whose cache holds the sector. `& ~7` rounds down to a multiple
-- of 8.
abbrev pub fill_first : ℕ → ℕ
fill_first i = i / cache_sectors * cache_sectors

abbrev pub fill_count : Geometry → ℕ → ℕ
fill_count g i =
    if ltb cache_sectors (g.sectors_per_fat - fill_first i)
    then cache_sectors
    else g.sectors_per_fat - fill_first i

unfoldable pub read_cached_fat_sector : Geometry → Volume → ℕ → Bool × Volume
unfolding all_readable
read_cached_fat_sector g v i =
    if not (ltb i g.sectors_per_fat)
    then (false, v)
    else (if cache_hit v i
        then (true, v)
        else (if not (all_readable g (fat_lba g (fill_first i)) (fill_count g i))
            then (false, record v { cache = g.torn (fat_lba g (fill_first i)) })
            else (
              true,
              record v {
                cache_valid = true;
                cache_first = fill_first i;
                cache_count = fill_count g i;
                cache = λ k. v.disk (fat_lba g (fill_first i) + k);
              },
            )))

-- `read_fat_value`: the low 28 bits of the entry, or `none` for false, and the volume.
unfoldable pub read_entry : ℕ → Bool × Volume → Option ℕ × Volume
read_entry cluster (false, v) = (none, v)
read_entry cluster (true, v) =
    (some (word (v.cache (fat_sector cluster - v.cache_first)) (entry_offset cluster) % 2 ^ 28), v)

unfoldable pub read_fat_value : Geometry → Volume → ℕ → Option ℕ × Volume
unfolding read_entry read_cached_fat_sector
read_fat_value g v cluster = read_entry cluster (read_cached_fat_sector g v (fat_sector cluster))

-- The sector with the entry's low 28 bits replaced.
unfoldable pub updated_sector : Sector → ℕ → ℕ → Sector
unfolding word put_word
updated_sector s o value = put_word s o (word s o / 2 ^ 28 * 2 ^ 28 + value % 2 ^ 28)

abbrev pub copy_lba : Geometry → ℕ → ℕ → ℕ
copy_lba g k i = g.partition_start + g.reserved_sectors + k * g.sectors_per_fat % 2 ^ 32 + i

-- The first copy's new sector goes to the cache as well.
unfoldable pub refresh_cache : Volume → ℕ → Sector → Volume
refresh_cache v i s =
    if cache_hit v i then record v { cache = put v.cache (i - v.cache_first) s } else v

-- The loop of `write_fat_value` (a write of one sector that fails leaves the block as it was), with `n` copies left from copy `k` on.
unfoldable pub write_copies : Geometry → Volume → ℕ → ℕ → ℕ → ℕ → Bool × Volume
unfolding updated_sector refresh_cache
write_copies g v cluster value zero k = (true, v)
write_copies g v cluster value (suc n) k =
    let lba = copy_lba g k (fat_sector cluster) in
    let s = updated_sector (v.disk lba) (entry_offset cluster) value in
    let w = record v { disk = put v.disk lba s } in
    let rest =
      write_copies g (if k == 0 then refresh_cache w (fat_sector cluster) s else w) cluster value n
        (k + 1) in
    if not (g.readable lba) then (false, v) else (if not (g.writable lba) then (false, v) else rest)

unfoldable pub write_fat_value : Geometry → Volume → ℕ → ℕ → Bool × Volume
unfolding write_copies
write_fat_value g v cluster value = write_copies g v cluster value g.fat_count 0

-- `FAT32FSInfo` as `update_fsinfo` writes it.
unfoldable pub fsinfo_bytes : ℕ → ℕ → Sector
unfolding put_word
fsinfo_bytes free_count hint =
    put_word
      (put_word
        (put_word (put_word (put_word (λ o. 0) 0 0x4161_5252) 484 0x6141_7272) 488 free_count) 492
        hint)
      508 0xAA55_0000

-- `update_fsinfo`
unfoldable pub update_fsinfo : Geometry → Volume → ℕ → ℕ → Bool × Volume
unfolding fsinfo_bytes
update_fsinfo g v free_count hint =
    let w = record v { free_cluster_count = free_count; next_free_hint = hint } in
    let lba = g.partition_start + g.fs_info_sector in
    if not g.fs_info_valid || g.fs_info_sector == 0
    then (true, w)
    else (if not (g.writable lba)
        then (false, v)
        else (true, record w { disk = put v.disk lba (fsinfo_bytes free_count hint) }))

abbrev pub max_cluster : Geometry → ℕ
max_cluster g = g.total_clusters + 1

-- What became of an allocation's scan.
pub data Scan : Type 0 where
  failed : Volume → Scan
  nothing : Volume → Scan
  taken : ℕ → Volume → Scan

-- The number of free clusters after one is taken, and the next cluster to try.
abbrev pub count_less : ℕ → ℕ
count_less n = if n == fsinfo_unknown then fsinfo_unknown else (n + 2 ^ 32 - 1) % 2 ^ 32

abbrev pub hint_behind : Geometry → ℕ → ℕ
hint_behind g cluster =
    if ltb (cluster + 1) 2 || ltb (max_cluster g) (cluster + 1) then 2 else cluster + 1

-- A free cluster was found and its entry written.
unfoldable pub finish_allocation : Geometry → ℕ → Bool × Volume → Scan
unfolding update_fsinfo
finish_allocation g cluster (false, v) = Scan.failed v
finish_allocation g cluster (true, v) =
    let r = update_fsinfo g v (count_less v.free_cluster_count) (hint_behind g cluster) in
    if r.0 then Scan.taken cluster r.1 else Scan.failed r.1

-- One cluster of the scan: what was read of it, and the scan of the clusters behind it.
unfoldable pub scan_cluster : Geometry → ℕ → Option ℕ × Volume → (Volume → Scan) → Scan
unfolding write_fat_value finish_allocation
scan_cluster g cluster (none, v) rest = Scan.failed v
scan_cluster g cluster (some value, v) rest =
    if not (value == 0)
    then rest v
    else finish_allocation g cluster (write_fat_value g v cluster end_of_chain)

-- One pass of `allocate_cluster`, over `n` clusters from `cluster` on.
unfoldable pub scan_clusters : Geometry → ℕ → ℕ → Volume → Scan
unfolding scan_cluster read_fat_value
scan_clusters g zero cluster v = Scan.nothing v
scan_clusters g (suc n) cluster v =
    scan_cluster g cluster (read_fat_value g v cluster) (λ w. scan_clusters g n (cluster + 1) w)

abbrev pub start_cluster : Geometry → Volume → ℕ
start_cluster g v =
    if ltb v.next_free_hint 2 || ltb (max_cluster g) v.next_free_hint then 2 else v.next_free_hint

-- The second pass begins at cluster 2.
unfoldable pub second_pass : Geometry → Scan → Scan
unfolding scan_clusters
second_pass g (Scan.failed v) = Scan.failed v
second_pass g (Scan.nothing v) = scan_clusters g (max_cluster g - 1) 2 v
second_pass g (Scan.taken c v) = Scan.taken c v

-- `allocate_cluster`
unfoldable pub allocate_cluster : Geometry → Volume → Scan
unfolding second_pass scan_clusters
allocate_cluster g v =
    second_pass g (scan_clusters g (max_cluster g + 1 - start_cluster g v) (start_cluster g v) v)

-- What became of the loop of `free_cluster_chain`; `fuel_out` never comes with enough fuel.
pub data Freed : Type 0 where
  io_error : Volume → Freed
  fuel_out : Freed
  freed : ℕ → Volume → Freed

-- The loop, with `count` clusters freed.
unfoldable pub free_next : ℕ → ℕ → Bool × Volume → (ℕ → Volume → Freed) → Freed
free_next next count (false, v) rest = Freed.io_error v
free_next next count (true, v) rest =
    if is_data_cluster next then rest next v else Freed.freed (count + 1) v

unfoldable pub free_entry : Geometry → ℕ → ℕ → Option ℕ × Volume → (ℕ → Volume → Freed) → Freed
unfolding free_next write_fat_value
free_entry g cluster count (none, v) rest = Freed.io_error v
free_entry g cluster count (some next, v) rest =
    free_next next count (write_fat_value g v cluster 0) rest

unfoldable pub free_loop : Geometry → ℕ → ℕ → ℕ → Volume → Freed
unfolding free_entry read_fat_value
free_loop g zero cluster count v = Freed.fuel_out
free_loop g (suc fuel) cluster count v =
    free_entry g cluster count (read_fat_value g v cluster)
      (λ next w. free_loop g fuel next (count + 1) w)

abbrev pub count_more : ℕ → ℕ → ℕ
count_more n count = if n == fsinfo_unknown then fsinfo_unknown else (n + count) % 2 ^ 32

abbrev pub hint_before : ℕ → ℕ → ℕ
hint_before hint first =
    if hint == fsinfo_unknown then first else (if ltb first hint then first else hint)

unfoldable pub finish_free : Geometry → ℕ → Freed → Bool × Volume → Bool × Volume
unfolding update_fsinfo
finish_free g first (Freed.io_error v) out = (false, v)
finish_free g first Freed.fuel_out out = out
finish_free g first (Freed.freed count v) out =
    update_fsinfo g v (count_more v.free_cluster_count count) (hint_before v.next_free_hint first)

-- Every cluster of a chain has an entry in the table, and is freed once.
abbrev pub chain_fuel : Geometry → ℕ
chain_fuel g = g.sectors_per_fat * 128 + 1

-- `free_cluster_chain`
unfoldable pub free_cluster_chain : Geometry → Volume → ℕ → Bool × Volume
unfolding finish_free free_loop
free_cluster_chain g v first =
    if not (is_data_cluster first)
    then (true, v)
    else finish_free g first (free_loop g (chain_fuel g) first 0 v) (false, v)
