-- ===== src/Fs/Fat/TableTests.antt =====
-- Runs of the table of src/fs/fat32.cpp on a volume of 20 clusters with two copies of one sector: the chain
-- 2, 3 and a cycle of 5 and 6.
use vkernel.Common.{
  ℕ, ◌+◌, ◌%◌, ◌^◌, ◌≤◌, ◌<◌, ◌≡◌, ◌≢◌, refl, ap, true, false, ◌||◌, ◌==◌, if◌then◌else◌, Option,
  none, some, arith, [], ◌∷◌, true-ne-false, sym, subst,
}
use mathlib.Core.List.{Memᴰ}
use mathlib.Core.List.Memᴰ
use vkernel.Fs.Fat.Volume.{
  Sector, Geometry, Volume, word, put_word, end_of_chain, fsinfo_unknown, is_data_cluster,
}
use vkernel.Fs.Fat.Table.{
  Scan, Freed, read_fat_value, write_fat_value, allocate_cluster, free_loop, chain_fuel,
  free_cluster_chain, max_cluster,
}
use vkernel.Fs.Fat.Words.{IsSector, put_word-IsSector}
use vkernel.Fs.Fat.Reading.{
  IsFit, IsSound, HasEntry, fat_entry, SameTable, read_fat_value-fat_entry,
}
use vkernel.Fs.Fat.Writing.{HasWritten, write_fat_value-fat_entry}
use vkernel.Fs.Fat.Allocation.{Scanned, allocate_cluster-Scanned}
use vkernel.Fs.Fat.Release.{Ended, free_loop-chain_fuel}
use vkernel.Fs.Fat.Chains.{IsChain, free_cluster_chain-IsChain}

abbrev pub geometry : Geometry
geometry = record {
  readable = λ b. true;
  writable = λ b. true;
  torn = λ b k o. 0;
  partition_start = 100;
  reserved_sectors = 32;
  sectors_per_fat = 1;
  fat_count = 2;
  sectors_per_cluster = 1;
  first_data_sector = 34;
  total_clusters = 20;
  fs_info_sector = 1;
  fs_info_valid = true;
}

abbrev table : Sector
table = put_word (put_word (put_word (put_word (λ o. 0) 8 3) 12 0x0FFF_FFF8) 20 6) 24 5

abbrev blocks : ℕ → Sector
blocks b = if b == 132 || b == 133 then table else (λ o. b % 256)

abbrev pub volume : Volume
volume = record {
  disk = blocks;
  free_cluster_count = 16;
  next_free_hint = 21;
  cache_valid = false;
  cache_first = 0;
  cache_count = 0;
  cache = λ k o. 0;
}

table-IsSector : IsSector table
table-IsSector = put_word-IsSector _ 24 5 (
    put_word-IsSector _ 20 6
      (put_word-IsSector _ 12 0x0FFF_FFF8 (put_word-IsSector (λ o. 0) 8 3 (λ o. omega arith))))

pub geometry-IsFit : IsFit geometry
geometry-IsFit = record {
  some_copy = omega arith;
  copies_lt = omega arith;
  can_read = λ i h. refl;
  can_write = λ i h. refl;
  info_before = omega arith;
  info_writable = refl;
}

blocks-IsSector : (b : ℕ) → IsSector (blocks b)
blocks-IsSector b o =
    elim (b == 132 || b == 133) as (λ t. (if t then table else (λ o. b % 256)) o < 256) [
      | true ↦ table-IsSector o
      | false ↦ omega arith
    ]

pub volume-IsSound : IsSound geometry volume
volume-IsSound = record {
  bytes = blocks-IsSector;
  coherent = λ q i lo hi. absurd (true-ne-false (sym q));
}

pub two-HasEntry : HasEntry geometry 2
two-HasEntry = (omega arith, omega arith)

read_fat_value-fat_entry_example :
    (w : Volume) × (read_fat_value geometry volume 2 ≡ (some (fat_entry geometry volume 0 2), w))
    × IsSound geometry w
    × SameTable volume w
read_fat_value-fat_entry_example =
    read_fat_value-fat_entry geometry volume 2 geometry-IsFit volume-IsSound two-HasEntry

write_fat_value-fat_entry_example :
    (w : Volume) × (write_fat_value geometry volume 2 7 ≡ (true, w))
    × HasWritten geometry volume 2 7 w
write_fat_value-fat_entry_example =
    write_fat_value-fat_entry geometry volume 2 7 geometry-IsFit two-HasEntry volume-IsSound

allocate_cluster-Scanned_example :
    Scanned geometry volume 2 (max_cluster geometry + 1) (allocate_cluster geometry volume)
allocate_cluster-Scanned_example =
    allocate_cluster-Scanned geometry geometry-IsFit (omega arith, omega arith) volume
      volume-IsSound

-- Cluster 5 leads to 6 and back.
free_loop-chain_fuel_example :
    Ended geometry volume (free_loop geometry (chain_fuel geometry) 5 0 volume)
free_loop-chain_fuel_example =
    free_loop-chain_fuel geometry geometry-IsFit 5 volume volume-IsSound refl

pub entry_two : fat_entry geometry volume 0 2 ≡ 3
unfolding fat_entry word put_word
entry_two = refl

entry_three : fat_entry geometry volume 0 3 ≡ end_of_chain
unfolding fat_entry word put_word
entry_three = refl

chain : IsChain geometry volume 2 (2 ∷ 3 ∷ [])
chain =
    IsChain.link two-HasEntry (ap is_data_cluster entry_two)
      (λ d m. elim m [
        | Memᴰ.head e ↦ (λ q. absurd (omega arith))
        | Memᴰ.tail none_left ↦ absurd (Memᴰ.not-nil none_left)
      ])
      (subst (λ c. IsChain geometry volume c (3 ∷ [])) (sym entry_two)
        (IsChain.last (omega arith, omega arith) (ap is_data_cluster entry_three)))

free_cluster_chain-IsChain_example :
    (w : Volume) × (free_cluster_chain geometry volume 2 ≡ (true, w))
    × IsSound geometry w
    × ((k d : ℕ) → k < 2 → Memᴰ d (2 ∷ 3 ∷ []) → fat_entry geometry w k d ≡ 0)
    × ((k d : ℕ)
        → k < 2
        → HasEntry geometry d
        → (Memᴰ d (2 ∷ 3 ∷ []) → ⊥)
        → fat_entry geometry w k d ≡ fat_entry geometry volume k d)
    × (16 ≢ fsinfo_unknown → w.free_cluster_count ≡ (16 + 2) % 2 ^ 32)
    × (w.next_free_hint ≤ 2)
free_cluster_chain-IsChain_example =
    free_cluster_chain-IsChain geometry geometry-IsFit volume 2 (2 ∷ 3 ∷ []) volume-IsSound refl
      chain

-- The cluster that an allocation takes, and the clusters that a release frees.
abbrev taken_cluster : Scan → Option ℕ
taken_cluster (Scan.failed v) = none
taken_cluster (Scan.nothing v) = none
taken_cluster (Scan.taken c v) = some c

abbrev freed_clusters : Freed → Option ℕ
freed_clusters (Freed.io_error v) = none
freed_clusters Freed.fuel_out = none
freed_clusters (Freed.freed n v) = some n

takes_last : taken_cluster (allocate_cluster geometry volume) ≡ some 21
unfolding allocate_cluster put_word
takes_last = refl

takes_four :
    taken_cluster (allocate_cluster geometry (record volume { next_free_hint = 22 })) ≡ some 4
unfolding allocate_cluster put_word
takes_four = refl

-- Its first cluster is counted once more when the cycle closes.
frees_cycle : freed_clusters (free_loop geometry (chain_fuel geometry) 5 0 volume) ≡ some 3
unfolding free_loop put_word
frees_cycle = refl
