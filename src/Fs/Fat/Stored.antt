-- ===== src/Fs/Fat/Stored.antt =====
-- Files on the disk: the bytes of a file's chain, and what a round of `read_file_range` of
-- src/fs/fat32.cpp leaves.
use vkernel.Common.{
  ℕ, suc, ◌+◌, ◌-◌, ◌*◌, ◌/◌, ◌%◌, ◌^◌, ◌≤◌, ◌<◌, ◌≡◌, sym, ap, subst, ◌∙◌, true, arith,
}
use native.Mathlib.Nat.{mul-le-mul_right}
use vkernel.Fs.Fat.Volume.{Geometry, Volume, is_data_cluster, sector_bytes, cluster_first_lba}
use vkernel.Fs.Fat.Files.{FileDescriptor, Buffer, RangeRead, Continue, cluster_size_bytes}
use vkernel.Fs.Fat.Reading.{IsSound, HasEntry, SameTable}
use vkernel.Fs.Fat.Following.{nth_cluster, nth_same, Reaches, IsPlaced}
use vkernel.Fs.Fat.Fills.{IsFilled}

-- A byte of the file whose chain begins at a cluster.
unfoldable pub file_byte : Geometry → Volume → ℕ → ℕ → ℕ
file_byte g v first a =
    v.disk
      (cluster_first_lba g (nth_cluster g v first (a / cluster_size_bytes g))
        + a % cluster_size_bytes g / sector_bytes)
      (a % cluster_size_bytes g % sector_bytes)

-- The file's chain has a data cluster for each of its bytes, on sectors that can be read.
pub record IsStored (g : Geometry) (v : Volume) (first size : ℕ) : Type 0 where
  pub size_lt : size < 2 ^ 32
  pub some_sector : 0 < g.sectors_per_cluster
  pub is_data :
      (j : ℕ) → j * cluster_size_bytes g < size → is_data_cluster (nth_cluster g v first j) ≡ true
  pub has_entry :
      (j : ℕ) → (j + 1) * cluster_size_bytes g < size → HasEntry g (nth_cluster g v first j)
  pub can_read_data :
      (j i : ℕ)
      → j * cluster_size_bytes g < size
      → i < g.sectors_per_cluster
      → g.readable (cluster_first_lba g (nth_cluster g v first j) + i) ≡ true

pub file_byte-same :
    (g : Geometry) (v w : Volume) (first a : ℕ)
    → SameTable v w
    → file_byte g w first a ≡ file_byte g v first a
unfolding file_byte
file_byte-same g v w first a h =
    ap
      (λ d.
        d
          (cluster_first_lba g (nth_cluster g w first (a / cluster_size_bytes g))
            + a % cluster_size_bytes g / sector_bytes)
          (a % cluster_size_bytes g % sector_bytes))
      h.same_disk
    ∙ ap
        (λ c.
          v.disk (cluster_first_lba g c + a % cluster_size_bytes g / sector_bytes)
            (a % cluster_size_bytes g % sector_bytes))
        (nth_same g v w first (a / cluster_size_bytes g) h)

pub IsStored-same :
    (g : Geometry) (v w : Volume) (first size : ℕ)
    → SameTable v w
    → IsStored g v first size
    → IsStored g w first size
IsStored-same g v w first size e h = record {
  size_lt = h.size_lt;
  some_sector = h.some_sector;
  is_data = λ j lt. ap is_data_cluster (nth_same g v w first j e) ∙ h.is_data j lt;
  has_entry = λ j lt. subst (HasEntry g) (sym (nth_same g v w first j e)) (h.has_entry j lt);
  can_read_data = λ j i lt li.
      ap (λ c. g.readable (cluster_first_lba g c + i)) (nth_same g v w first j e)
      ∙ h.can_read_data j i lt li;
}

-- The chain goes on as far as the file.
pub stored-Reaches :
    (g : Geometry) (v : Volume) (first size n : ℕ)
    → IsStored g v first size
    → n * cluster_size_bytes g < size
    → Reaches g v first n
stored-Reaches g v first size n h lt j l =
    let m = mul-le-mul_right (cluster_size_bytes g) (let q : j + 1 ≤ n = omega arith in q) in
    let e : suc j ≡ j + 1 = omega arith in
    (
      h.has_entry j (omega arith),
      ap (λ x. is_data_cluster (nth_cluster g v first x)) e ∙ h.is_data (j + 1) (omega arith),
    )

-- What a round leaves when it has brought the read from `out` to `got`.
pub record HasAdvanced (g : Geometry) (v : Volume) (file : FileDescriptor) (offset out got : ℕ)
    (buffer : Buffer) (file' : FileDescriptor) (buffer' : Buffer) (w : Volume) : Type 0 where
  pub same_valid : file'.valid ≡ file.valid
  pub same_first : file'.first_cluster ≡ file.first_cluster
  pub same_size : file'.size ≡ file.size
  pub placed : IsPlaced g w file'
  pub sound : IsSound g w
  pub same_table : SameTable v w
  pub filled :
      IsFilled buffer out
        (got - out)
        (λ k. file_byte g v file.first_cluster (offset + out + k))
        buffer'

-- A round comes down to the rounds behind it, with more bytes read.
abbrev pub Advance :
    Geometry → Volume → FileDescriptor → ℕ → ℕ → ℕ → Buffer → (Continue → RangeRead) → Type 0
Advance g v file offset out remaining buffer round =
    (got : ℕ) × (file' : FileDescriptor) × (buffer' : Buffer) × (w : Volume) × ((rest : Continue)
      → round rest ≡ rest file' buffer' got w)
    × (out < got)
    × (got ≤ remaining)
    × HasAdvanced g v file offset out got buffer file' buffer' w

pub data_le : (c : ℕ) → is_data_cluster c ≡ true → 2 ≤ c
data_le c h = ground arith

pub window_pos : (g : Geometry) → 0 < g.sectors_per_cluster → 0 < cluster_size_bytes g
window_pos g h = omega arith
