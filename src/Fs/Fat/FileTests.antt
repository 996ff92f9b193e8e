-- ===== src/Fs/Fat/FileTests.antt =====
-- Reads of a file of 600 bytes in the clusters 2 and 3 of the volume of TableTests, each block of whose
-- data area holds its number modulo 256.
use vkernel.Common.{
  ℕ, zero, suc, ◌+◌, ◌*◌, ◌<◌, ◌≡◌, refl, sym, ap, true, false, Option, none, some, arith,
  true-ne-false,
}
use vkernel.Fs.Fat.Volume.{Volume, is_data_cluster, put_word, word}
use vkernel.Fs.Fat.Files.{
  FileDescriptor, Buffer, RangeRead, cluster_size_bytes, read_file_range, range_size,
  collect_cluster_run, read_cluster_bytes,
}
use vkernel.Fs.Fat.Reading.{IsSound, HasEntry, SameTable}
use vkernel.Fs.Fat.Following.{nth_cluster, IsPlaced}
use vkernel.Fs.Fat.Fills.{IsFilled}
use vkernel.Fs.Fat.Stored.{file_byte, IsStored}
use vkernel.Fs.Fat.FileReads.{read_file_range-file_byte}
use vkernel.Fs.Fat.WholeFiles.{DataRead, read_file_data, data_loop, data_run, data_tail}
use vkernel.Fs.Fat.WholeReads.{read_file_data-file_byte}
use vkernel.Fs.Fat.TableTests.{
  geometry, volume, geometry-IsFit, volume-IsSound, entry_two, two-HasEntry,
}

abbrev file : FileDescriptor
file = record {
  valid = true;
  first_cluster = 2;
  size = 600;
  cluster_cache_valid = false;
  cluster_cache_index = 0;
  cluster_cache_value = 0;
}

abbrev blank : Buffer
blank i = 0

data_chain :
    (j : ℕ)
    → j * cluster_size_bytes geometry < 600
    → is_data_cluster (nth_cluster geometry volume 2 j) ≡ true
unfolding nth_cluster
data_chain zero h = refl
data_chain (suc zero) h = ap is_data_cluster entry_two
data_chain (suc (suc j)) h = absurd (omega arith)

entry_chain :
    (j : ℕ)
    → (j + 1) * cluster_size_bytes geometry < 600
    → HasEntry geometry (nth_cluster geometry volume 2 j)
unfolding nth_cluster
entry_chain zero h = two-HasEntry
entry_chain (suc j) h = absurd (omega arith)

file-IsStored : IsStored geometry volume 2 600
file-IsStored = record {
  size_lt = omega arith;
  some_sector = omega arith;
  is_data = data_chain;
  has_entry = entry_chain;
  can_read_data = λ j i lt li. refl;
}

read_file_range-file_byte_example :
    (file' : FileDescriptor) × (buffer' : Buffer) × (w : Volume) × (read_file_range geometry volume
        file 500 blank 200
      ≡ (some (file', buffer'), w))
    × IsFilled blank 0
        (range_size file 500 200)
        (λ k. file_byte geometry volume 2 (500 + k))
        buffer'
    × IsPlaced geometry w file'
    × IsSound geometry w
    × SameTable volume w
read_file_range-file_byte_example =
    read_file_range-file_byte geometry volume file 500 blank 200 geometry-IsFit volume-IsSound refl
      (λ h. absurd (true-ne-false (sym h))) file-IsStored

-- The byte at a place of the buffer, and the position that the descriptor remembers.
abbrev byte_read : RangeRead → ℕ → Option ℕ
byte_read (none, v) i = none
byte_read (some (f, b), v) i = some (b i)

abbrev position : RangeRead → Option (ℕ × ℕ)
position (none, v) = none
position (some (f, b), v) = some (f.cluster_cache_index, f.cluster_cache_value)

abbrev run : RangeRead
run = read_file_range geometry volume file 500 blank 200

reads_first : byte_read run 11 ≡ some 134
unfolding read_file_range put_word word
reads_first = refl

reads_second : byte_read run 99 ≡ some 135
unfolding read_file_range put_word word
reads_second = refl

reads_no_more : byte_read run 100 ≡ some 0
unfolding read_file_range put_word word
reads_no_more = refl

remembers : position run ≡ some (1, 3)
unfolding read_file_range put_word word
remembers = refl

whole_file : byte_read (read_file_range geometry volume file 0 blank 600) 599 ≡ some 135
unfolding read_file_range put_word word
whole_file = refl

read_file_data-file_byte_example :
    (b : Buffer) × (w : Volume) × (read_file_data geometry volume 600 2 (some blank) ≡ (some b, w))
    × ((k : ℕ) → k < 600 → b k ≡ file_byte geometry volume 2 k)
    × IsSound geometry w
    × SameTable volume w
read_file_data-file_byte_example =
    read_file_data-file_byte geometry volume 2 600 blank geometry-IsFit volume-IsSound file-IsStored

abbrev data_byte : DataRead → ℕ → Option ℕ
data_byte (none, v) i = none
data_byte (some b, v) i = some (b i)

reads_all : data_byte (read_file_data geometry volume 600 2 (some blank)) 599 ≡ some 135
unfolding read_file_data data_loop data_run data_tail collect_cluster_run read_cluster_bytes
    put_word word
reads_all = refl
