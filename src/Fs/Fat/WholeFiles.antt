-- ===== src/Fs/Fat/WholeFiles.antt =====
-- The read of a whole file into a block of the heap: `read_file_data` of src/fs/fat32.cpp.
use vkernel.Common.{
  ℕ, zero, suc, ◌+◌, ◌-◌, ◌*◌, ◌/◌, ◌%◌, ◌^◌, ◌&&◌, not, Option, none, some, ◌==◌, if◌then◌else◌,
  ltb, leb,
}
use vkernel.Fs.Fat.Volume.{Geometry, Volume, is_data_cluster, cluster_first_lba}
use vkernel.Fs.Fat.Table.{read_fat_value}
use vkernel.Fs.Fat.Files.{
  ClusterRun, Buffer, cluster_size_bytes, read_sectors, collect_cluster_run, read_cluster_bytes,
}

-- What the loop of `read_file_data` goes on with: the next cluster, the bytes copied and the buffer.
abbrev pub DataRead : Type 0
DataRead = Option Buffer × Volume

abbrev pub NextCluster : Type 0
NextCluster = ℕ → ℕ → Buffer → Volume → DataRead

-- The loop ended: all of the file has to be there.
abbrev pub all_copied : ℕ → ℕ → Buffer → Volume → DataRead
all_copied size copied buffer v = if copied == size then (some buffer, v) else (none, v)

-- The cluster behind a run, read from the table where the run does not know it.
unfoldable pub go_on : Option ℕ × Volume → ℕ → Buffer → NextCluster → DataRead
go_on (none, v) copied buffer rest = (none, v)
go_on (some next, v) copied buffer rest =
    if is_data_cluster next then rest next copied buffer v else (none, v)

unfoldable pub behind_data :
    Geometry → ℕ → ClusterRun → ℕ → Option Buffer → Volume → NextCluster → DataRead
unfolding go_on read_fat_value
behind_data g size run copied none v rest = (none, v)
behind_data g size run copied (some buffer) v rest =
    if leb size copied
    then all_copied size copied buffer v
    else go_on
        (if is_data_cluster run.next_cluster
          then (some run.next_cluster, v)
          else read_fat_value g v run.last_cluster)
        copied buffer rest

unfoldable pub data_run :
    Geometry → ℕ → ℕ → Buffer → Option ClusterRun × Volume → NextCluster → DataRead
unfolding behind_data read_sectors
data_run g size copied buffer (none, v) rest = (none, v)
data_run g size copied buffer (some run, v) rest =
    behind_data g size run (copied + run.cluster_count * cluster_size_bytes g)
      (read_sectors g v (cluster_first_lba g run.first_cluster)
        (run.cluster_count * g.sectors_per_cluster % 2 ^ 32) buffer copied)
      v rest

-- The last part of the file, in one cluster.
unfoldable pub data_tail : ℕ → Option Buffer → Volume → DataRead
data_tail size none v = (none, v)
data_tail size (some buffer) v = all_copied size size buffer v

-- The loop. Each round reads a byte at least.
unfoldable pub data_loop : Geometry → ℕ → ℕ → ℕ → ℕ → Buffer → Volume → DataRead
data_loop g zero size cluster copied buffer v = all_copied size copied buffer v
data_loop g (suc fuel) size cluster copied buffer v =
    let left = size - copied in
    let run =
      data_run g size copied buffer (collect_cluster_run g v cluster (left / cluster_size_bytes g))
        (λ c o b w. data_loop g fuel size c o b w) in
    let tail = data_tail size (read_cluster_bytes g v cluster 0 buffer copied left) v in
    if not (is_data_cluster cluster && ltb copied size)
    then all_copied size copied buffer v
    else (if leb (cluster_size_bytes g) left then run else tail)

-- `read_file_data`; the block is the heap's, if it has one. An empty file has no bytes to point at.
unfoldable pub read_file_data : Geometry → Volume → ℕ → ℕ → Option Buffer → DataRead
unfolding data_loop
read_file_data g v size first none = if size == 0 then (some (λ i. 0), v) else (none, v)
read_file_data g v size first (some block) =
    if size == 0
    then (some (λ i. 0), v)
    else (if not (is_data_cluster first) then (none, v) else data_loop g size size first 0 block v)
