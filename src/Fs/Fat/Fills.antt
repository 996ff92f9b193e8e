-- ===== src/Fs/Fat/Fills.antt =====
-- Buffers that have new bytes in a range, and `read_sectors` of src/fs/fat32.cpp into one.
use vkernel.Common.{
  ℕ, ◌+◌, ◌-◌, ◌*◌, ◌/◌, ◌%◌, ◌≤◌, ◌<◌, ◌≡◌, ◌⊎◌, refl, ap, ◌∙◌, true, some, lt→ltb, le→leb, inl,
  inr, arith,
}
use vkernel.Fs.Fat.Volume.{Geometry, Volume, sector_bytes}
use vkernel.Fs.Fat.Files.{Buffer, fill, read_sectors}
use vkernel.Fs.Fat.Reading.{all_readable_lem}

-- The buffer has `n` new bytes from `out` on, and is the old one elsewhere.
abbrev pub IsFilled : Buffer → ℕ → ℕ → (ℕ → ℕ) → Buffer → Type 0
IsFilled b out n h b' =
    ((k : ℕ) → k < n → b' (out + k) ≡ h k) × ((i : ℕ) → (i < out) ⊎ (out + n ≤ i) → b' i ≡ b i)

pub fill-IsFilled : (b : Buffer) (out n : ℕ) (f : ℕ → ℕ) → IsFilled b out n f (fill b out n f)
fill-IsFilled b out n f = (
  λ k lt.
      (let e : out + k - out ≡ k = omega arith in
        rw (le→leb out (out + k) (omega arith), lt→ltb (out + k) (out + n) (omega arith)) (ap f e)),
  λ i h. ground arith,
)

pub IsFilled-append :
    (b : Buffer) (out m n : ℕ) (h : ℕ → ℕ) (b1 b2 : Buffer)
    → IsFilled b out m h b1
    → IsFilled b1 (out + m) n (λ k. h (m + k)) b2
    → IsFilled b out (m + n) h b2
IsFilled-append b out m n h b1 b2 p q = (
  λ k lt. elim (side k m) [
    | inl le ↦ q.1 (out + k) (inl (omega arith)) ∙ p.0 k le
    | inr ge ↦
        (let e : out + k ≡ out + m + (k - m) = omega arith in
          let e' : m + (k - m) ≡ k = omega arith in ap b2 e ∙ q.0 (k - m) (omega arith) ∙ ap h e')
  ],
  λ i out_of. q.1 i (omega arith) ∙ p.1 i (omega arith),
)
  where
    side : (k m : ℕ) → (k < m) ⊎ (m ≤ k)
    side k m = omega arith

pub IsFilled-bytes :
    (b : Buffer) (out n : ℕ) (f h : ℕ → ℕ) (b' : Buffer)
    → IsFilled b out n f b'
    → ((k : ℕ) → k < n → f k ≡ h k)
    → IsFilled b out n h b'
IsFilled-bytes b out n f h b' p e = (λ k lt. p.0 k lt ∙ e k lt, p.1)

pub IsFilled-none : (b : Buffer) (out n : ℕ) (h : ℕ → ℕ) → n ≡ 0 → IsFilled b out n h b
IsFilled-none b out n h e = (λ k lt. absurd (omega arith), λ i o. refl)

-- The bytes of the disk from a byte on, sector after sector.
abbrev pub disk_bytes : Volume → ℕ → ℕ → ℕ → ℕ
disk_bytes v lba offset k = v.disk (lba + (offset + k) / sector_bytes) ((offset + k) % sector_bytes)

pub read_sectors-IsFilled :
    (g : Geometry) (v : Volume) (lba count : ℕ) (buffer : Buffer) (out : ℕ)
    → ((i : ℕ) → lba ≤ i → i < lba + count → g.readable i ≡ true)
    → (b : Buffer) × (read_sectors g v lba count buffer out ≡ some b)
      × IsFilled buffer out (count * sector_bytes) (disk_bytes v lba 0) b
unfolding read_sectors
read_sectors-IsFilled g v lba count buffer out can = (
  fill buffer out (count * sector_bytes) (λ i. v.disk (lba + i / sector_bytes) (i % sector_bytes)),
  rw (all_readable_lem g count lba can) refl,
  IsFilled-bytes buffer out _ _ _ _ (fill-IsFilled buffer out _ _) (λ k lt.
      (let e : k ≡ 0 + k = omega arith in
        ap (λ x. v.disk (lba + x / sector_bytes) (x % sector_bytes)) e)),
)
