-- ===== src/Fs/Fat/Files.antt =====
-- File data of src/fs/fat32.cpp: the cluster of an offset, runs of adjacent clusters, and the reads of
-- a part of a cluster, of a range of a file and of a whole file. A buffer is a function from offsets to
-- bytes; what a failed read leaves in it, and in the descriptor's remembered position, is not modelled.
use vkernel.Common.{
  ℕ, zero, suc, ◌+◌, ◌-◌, ◌*◌, ◌/◌, ◌%◌, ◌^◌, Bool, true, ◌&&◌, ◌||◌, not, Option, none, some, ◌==◌,
  if◌then◌else◌, ltb, leb,
}
use vkernel.Fs.Fat.Volume.{
  Geometry, Volume, sector_bytes, end_of_chain, is_data_cluster, cluster_first_lba, all_readable,
}
use vkernel.Fs.Fat.Table.{read_fat_value}

pub record FileDescriptor : Type 0 where
  pub valid : Bool
  pub first_cluster : ℕ
  pub size : ℕ
  pub cluster_cache_valid : Bool
  pub cluster_cache_index : ℕ
  pub cluster_cache_value : ℕ

abbrev pub cluster_size_bytes : Geometry → ℕ
cluster_size_bytes g = sector_bytes * g.sectors_per_cluster

-- The loop of `cluster_for_file_offset`, with `n` links left to follow. `none` is an error.
unfoldable pub follow_next :
    Option ℕ × Volume → (ℕ → Volume → Option ℕ × Volume) → Option ℕ × Volume
follow_next (none, v) rest = (none, v)
follow_next (some next, v) rest = if not (is_data_cluster next) then (none, v) else rest next v

unfoldable pub follow : Geometry → ℕ → ℕ → Volume → Option ℕ × Volume
unfolding follow_next read_fat_value
follow g zero cluster v = (some cluster, v)
follow g (suc n) cluster v = follow_next (read_fat_value g v cluster) (λ next w. follow g n next w)

abbrev pub may_resume : FileDescriptor → ℕ → Bool
may_resume file index = file.cluster_cache_valid && leb file.cluster_cache_index index

-- The cluster was found, and the descriptor remembers it.
unfoldable pub remember :
    FileDescriptor → ℕ → Option ℕ × Volume → Option (ℕ × FileDescriptor) × Volume
remember file index (none, v) = (none, v)
remember file index (some cluster, v) = (
  some (
    cluster,
    record file {
      cluster_cache_valid = true;
      cluster_cache_index = index;
      cluster_cache_value = cluster;
    },
  ),
  v,
)

unfoldable pub cluster_for_file_offset :
    Geometry → Volume → FileDescriptor → ℕ → Option (ℕ × FileDescriptor) × Volume
unfolding remember follow
cluster_for_file_offset g v file index =
    if not file.valid || file.size == 0
    then (none, v)
    else remember file index (
        if may_resume file index
        then follow g (index - file.cluster_cache_index) file.cluster_cache_value v
        else follow g index file.first_cluster v)

pub record ClusterRun : Type 0 where
  pub first_cluster : ℕ
  pub last_cluster : ℕ
  pub cluster_count : ℕ
  pub next_cluster : ℕ

-- The loop of `collect_cluster_run`, with `n` rounds left.
unfoldable pub run_next :
    ClusterRun
    → Option ℕ × Volume
    → (ClusterRun → Volume → Option ClusterRun × Volume)
    → Option ClusterRun × Volume
run_next run (none, v) rest = (none, v)
run_next run (some candidate, v) rest =
    if not (candidate == (run.last_cluster + 1) % 2 ^ 32)
    then (some record run { next_cluster = candidate }, v)
    else rest record run { last_cluster = candidate; cluster_count = run.cluster_count + 1 } v

unfoldable pub run_loop : Geometry → ℕ → ClusterRun → Volume → Option ClusterRun × Volume
unfolding run_next read_fat_value
run_loop g zero run v = (some run, v)
run_loop g (suc n) run v =
    run_next run (read_fat_value g v run.last_cluster) (λ more w. run_loop g n more w)

unfoldable pub collect_cluster_run : Geometry → Volume → ℕ → ℕ → Option ClusterRun × Volume
unfolding run_loop
collect_cluster_run g v first max_count =
    if not (is_data_cluster first) || max_count == 0
    then (none, v)
    else run_loop g (max_count - 1)
        record {
          first_cluster = first;
          last_cluster = first;
          cluster_count = 1;
          next_cluster = end_of_chain;
        }
        v

abbrev pub Buffer : Type 0
Buffer = ℕ → ℕ

-- `size` bytes of `bytes`, copied to the buffer at `out`.
abbrev pub fill : Buffer → ℕ → ℕ → (ℕ → ℕ) → Buffer
fill buffer out size bytes i = if leb out i && ltb i (out + size) then bytes (i - out) else buffer i

-- `read_sectors` into a buffer.
unfoldable pub read_sectors : Geometry → Volume → ℕ → ℕ → Buffer → ℕ → Option Buffer
unfolding all_readable
read_sectors g v lba count buffer out =
    if all_readable g lba count
    then some (
        fill buffer out (count * sector_bytes)
          (λ i. v.disk (lba + i / sector_bytes) (i % sector_bytes)))
    else none

-- A part of one sector.
unfoldable pub read_part : Geometry → Volume → ℕ → ℕ → ℕ → Buffer → ℕ → Option Buffer
read_part g v lba offset size buffer out =
    if g.readable lba then some (fill buffer out size (λ i. v.disk lba (offset + i))) else none

abbrev pub head_bytes : ℕ → ℕ → ℕ
head_bytes offset size =
    if offset == 0
    then 0
    else (if ltb size (sector_bytes - offset) then size else sector_bytes - offset)

-- The three parts of `read_cluster_bytes`: the rest of a sector, whole sectors, and the tail.
unfoldable pub read_head : Geometry → Volume → ℕ → ℕ → ℕ → Buffer → ℕ → Option Buffer
unfolding read_part
read_head g v lba offset size buffer out =
    if offset == 0
    then some buffer
    else read_part g v lba offset (head_bytes offset size) buffer out

unfoldable pub read_whole : Geometry → Volume → ℕ → ℕ → ℕ → Option Buffer → Option Buffer
unfolding read_sectors
read_whole g v lba size out none = none
read_whole g v lba size out (some buffer) =
    if size / sector_bytes == 0
    then some buffer
    else read_sectors g v lba (size / sector_bytes) buffer out

unfoldable pub read_tail : Geometry → Volume → ℕ → ℕ → ℕ → Option Buffer → Option Buffer
unfolding read_part
read_tail g v lba size out none = none
read_tail g v lba size out (some buffer) =
    if size == 0 then some buffer else read_part g v lba 0 size buffer out

unfoldable pub read_cluster_bytes : Geometry → Volume → ℕ → ℕ → Buffer → ℕ → ℕ → Option Buffer
unfolding read_head read_whole read_tail
read_cluster_bytes g v cluster offset buffer out size =
    if size == 0
    then some buffer
    else (if not (is_data_cluster cluster)
        then none
        else (if leb (cluster_size_bytes g) offset || ltb (cluster_size_bytes g - offset) size
            then none
            else (let lba = cluster_first_lba g cluster + offset / sector_bytes in
                let part = offset % sector_bytes in
                let head = head_bytes part size in
                let second = if part == 0 then lba else lba + 1 in
                let whole = (size - head) / sector_bytes in
                read_tail g v (second + whole) (size - head - whole * sector_bytes)
                  (out + head + whole * sector_bytes)
                  (read_whole g v second (size - head) (out + head)
                    (read_head g v lba part size buffer out)))))

-- What a round of `read_file_range` leads to: the descriptor, the buffer and the bytes read so far.
abbrev pub RangeRead : Type 0
RangeRead = Option (FileDescriptor × Buffer) × Volume

abbrev pub Continue : Type 0
Continue = FileDescriptor → Buffer → ℕ → Volume → RangeRead

-- Where the descriptor stands behind a run that began at a cluster's index.
abbrev pub behind_run : Geometry → FileDescriptor → ℕ → ClusterRun → Bool → FileDescriptor
behind_run g file index run more =
    if is_data_cluster run.next_cluster && more
    then record file {
      cluster_cache_valid = true;
      cluster_cache_index = index + run.cluster_count;
      cluster_cache_value = run.next_cluster;
    }
    else record file {
      cluster_cache_valid = true;
      cluster_cache_index = index + run.cluster_count - 1;
      cluster_cache_value = run.last_cluster;
    }

-- What a read into the buffer leads to.
unfoldable pub read_chunk : FileDescriptor → ℕ → Option Buffer → Volume → Continue → RangeRead
read_chunk file got none v rest = (none, v)
read_chunk file got (some buffer) v rest = rest file buffer got v

-- The sectors of a run, and the descriptor behind it.
unfoldable pub read_run :
    Geometry
    → FileDescriptor
    → ℕ
    → ℕ
    → Buffer
    → ℕ
    → Option ClusterRun × Volume
    → Continue
    → RangeRead
unfolding read_sectors read_chunk
read_run g file index remaining buffer out (none, v) rest = (none, v)
read_run g file index remaining buffer out (some run, v) rest =
    let got = out + run.cluster_count * cluster_size_bytes g in
    read_chunk (behind_run g file index run (ltb got remaining)) got
      (read_sectors g v (cluster_first_lba g run.first_cluster)
        (run.cluster_count * g.sectors_per_cluster % 2 ^ 32) buffer out)
      v rest

-- One round: the run of clusters or the part of a cluster at `offset + out`.
unfoldable pub range_round :
    Geometry → ℕ → ℕ → Buffer → ℕ → Option (ℕ × FileDescriptor) × Volume → Continue → RangeRead
unfolding read_run read_chunk collect_cluster_run read_cluster_bytes
range_round g offset remaining buffer out (none, v) rest = (none, v)
range_round g offset remaining buffer out (some (cluster, file), v) rest =
    let cluster_bytes = cluster_size_bytes g in
    let index = (offset + out) / cluster_bytes in
    let start = (offset + out) % cluster_bytes in
    let left = remaining - out in
    if start == 0 && leb cluster_bytes left
    then read_run g file index remaining buffer out
        (collect_cluster_run g v cluster (left / cluster_bytes)) rest
    else (let chunk = if ltb left (cluster_bytes - start) then left else cluster_bytes - start in
        read_chunk file (out + chunk) (read_cluster_bytes g v cluster start buffer out chunk) v
          rest)

-- The loop of `read_file_range`. Each round reads a byte at least.
unfoldable pub range_loop : Geometry → ℕ → ℕ → ℕ → FileDescriptor → Buffer → ℕ → Volume → RangeRead
unfolding range_round cluster_for_file_offset
range_loop g zero offset remaining file buffer out v =
    if ltb out remaining then (none, v) else (some (file, buffer), v)
range_loop g (suc fuel) offset remaining file buffer out v =
    let rest =
      range_round g offset remaining buffer out
        (cluster_for_file_offset g v file ((offset + out) / cluster_size_bytes g))
        (λ f b o w. range_loop g fuel offset remaining f b o w) in
    if ltb out remaining then rest else (some (file, buffer), v)

abbrev pub range_size : FileDescriptor → ℕ → ℕ → ℕ
range_size file offset size = if ltb size (file.size - offset) then size else file.size - offset

-- `read_file_range`, with a buffer that is not null; the size that it reports is `range_size`.
unfoldable pub read_file_range : Geometry → Volume → FileDescriptor → ℕ → Buffer → ℕ → RangeRead
unfolding range_loop
read_file_range g v file offset buffer size =
    if not file.valid
    then (none, v)
    else (if size == 0 || leb file.size offset
        then (some (file, buffer), v)
        else range_loop g (range_size file offset size) offset (range_size file offset size) file
            buffer 0 v)
