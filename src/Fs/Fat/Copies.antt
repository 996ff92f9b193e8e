-- ===== src/Fs/Fat/Copies.antt =====
-- The copies of the table on the disk, and the loop of `write_fat_value` of src/fs/fat32.cpp over them.
use vkernel.Common.{
  ℕ, zero, suc, ◌+◌, ◌*◌, ◌≤◌, ◌<◌, ◌≡◌, ◌≢◌, ◌⊎◌, refl, sym, ap, subst, ◌∙◌, true, ==_of_ne, inl,
  inr, arith,
}
use vkernel.Common.Arrays.{put, put_same, put_other}
use vkernel.Fs.Fat.Volume.{Sector, Geometry, Volume, fat_sector, entry_offset, fat_lba}
use vkernel.Fs.Fat.Table.{updated_sector, copy_lba, write_copies}
use vkernel.Fs.Fat.Words.{IsSector, updated_sector-IsSector, put-IsSector}
use vkernel.Fs.Fat.Reading.{IsFit, copy_bound}

-- One copy written.
abbrev pub write_one : Geometry → ℕ → ℕ → ℕ → (ℕ → Sector) → ℕ → Sector
write_one g c value k d =
    put d (copy_lba g k (fat_sector c))
      (updated_sector (d (copy_lba g k (fat_sector c))) (entry_offset c) value)

-- The disk after `n` copies from copy `k` on.
unfoldable pub copies_disk : Geometry → ℕ → ℕ → ℕ → ℕ → (ℕ → Sector) → ℕ → Sector
copies_disk g c value zero k d = d
copies_disk g c value (suc n) k d = copies_disk g c value n (k + 1) (write_one g c value k d)

pub copy_unwrapped :
    (g : Geometry) (k i : ℕ)
    → IsFit g
    → k < g.fat_count
    → i < g.sectors_per_fat
    → (copy_lba g k i ≡ fat_lba g (k * g.sectors_per_fat + i))
      × (k * g.sectors_per_fat + i < g.fat_count * g.sectors_per_fat)
copy_unwrapped g k i fit hk hi =
    let b = copy_bound g.fat_count g.sectors_per_fat k i hk hi in
    let m = fit.copies_lt in (omega arith, b)

copies_before :
    (g : Geometry) (j k i l : ℕ)
    → IsFit g
    → j < k
    → k < g.fat_count
    → i < g.sectors_per_fat
    → l < g.sectors_per_fat
    → copy_lba g j i < copy_lba g k l
copies_before g j k i l fit h hk hi hl =
    let a = copy_unwrapped g j i fit (omega arith) hi in
    let b = copy_unwrapped g k l fit hk hl in
    let q = copy_bound k g.sectors_per_fat j i h hi in omega (arith, a.0, b.0, q)

-- Sectors of different copies, or different sectors, are different blocks.
pub copies_apart :
    (g : Geometry) (j k i l : ℕ)
    → IsFit g
    → j < g.fat_count
    → k < g.fat_count
    → i < g.sectors_per_fat
    → l < g.sectors_per_fat
    → (j ≢ k) ⊎ (i ≢ l)
    → copy_lba g j i ≢ copy_lba g k l
copies_apart g j k i l fit hj hk hi hl ne e = elim (trichotomy j k) [
  | inl lt ↦ (let q = copies_before g j k i l fit lt hk hi hl in absurd (omega (arith, q, e)))
  | inr (inl gt) ↦ (let q = copies_before g k j l i fit gt hj hl hi in absurd (omega (arith, q, e)))
  | inr (inr eq) ↦ elim ne [
    | inl n ↦ n eq
    | inr n ↦ (let q = ap (λ x. copy_lba g x i) eq in n (omega (arith, q, e)))
  ]
]
  where
    trichotomy : (j k : ℕ) → (j < k) ⊎ ((k < j) ⊎ (j ≡ k))
    trichotomy j k = omega arith

-- The loop, with what lets each transfer succeed.
pub write_copies_lem :
    (g : Geometry) (v : Volume) (c value n k : ℕ)
    → IsFit g
    → fat_sector c < g.sectors_per_fat
    → 0 < k
    → k + n ≤ g.fat_count
    → write_copies g v c value n k ≡ (true, record v { disk = copies_disk g c value n k v.disk })
unfolding write_copies copies_disk
write_copies_lem g v c value zero k fit h pos le = refl
write_copies_lem g v c value (suc n) k fit h pos le =
    let a = copy_unwrapped g k (fat_sector c) fit (omega arith) h in
    let r = subst (λ b. g.readable b ≡ true) (sym a.0) (fit.can_read _ a.1) in
    let w = subst (λ b. g.writable b ≡ true) (sym a.0) (fit.can_write _ a.1) in
    rw (r, w, ==_of_ne k 0 (omega arith))
      (write_copies_lem g (record v { disk = write_one g c value k v.disk }) c value n (k + 1) fit h
        (omega arith) (omega arith))

pub copies_disk_other :
    (g : Geometry) (c value n k : ℕ) (d : ℕ → Sector) (b : ℕ)
    → ((j : ℕ) → k ≤ j → j < k + n → b ≢ copy_lba g j (fat_sector c))
    → copies_disk g c value n k d b ≡ d b
unfolding copies_disk
copies_disk_other g c value zero k d b ne = refl
copies_disk_other g c value (suc n) k d b ne =
    copies_disk_other g c value n (k + 1) _ b (λ j lo hi. ne j (omega arith) (omega arith))
    ∙ put_other d (copy_lba g k (fat_sector c)) b _ (ne k (omega arith) (omega arith))

pub copies_disk_copy :
    (g : Geometry) (c value n k : ℕ) (d : ℕ → Sector) (j : ℕ)
    → IsFit g
    → fat_sector c < g.sectors_per_fat
    → k + n ≤ g.fat_count
    → k ≤ j
    → j < k + n
    → copies_disk g c value n k d (copy_lba g j (fat_sector c))
      ≡ updated_sector (d (copy_lba g j (fat_sector c))) (entry_offset c) value
unfolding copies_disk
copies_disk_copy g c value zero k d j fit h le lo hi = absurd (omega arith)
copies_disk_copy g c value (suc n) k d j fit h le lo hi = elim (first_or_later k j lo) [
  | inl e ↦
      copies_disk_other g c value n (k + 1) _ _ (λ l lo' hi'.
        copies_apart g j l _ _ fit (omega arith) (omega arith) h h
          (inl (λ q. absurd (omega arith))))
      ∙ put_same d _ _ _ (ap (λ x. copy_lba g x (fat_sector c)) e)
      ∙ ap (λ x. updated_sector (d (copy_lba g x (fat_sector c))) (entry_offset c) value) (sym e)
  | inr lt ↦
      copies_disk_copy g c value n (k + 1) _ j fit h (omega arith) (omega arith) (omega arith)
      ∙ ap (λ s. updated_sector s (entry_offset c) value)
          (put_other d _ _ _ (
            copies_apart g j k _ _ fit (omega arith) (omega arith) h h
              (inl (λ q. absurd (omega arith)))))
]
  where
    first_or_later : (k j : ℕ) → k ≤ j → (j ≡ k) ⊎ (k + 1 ≤ j)
    first_or_later k j h = omega arith

pub copies_disk-IsSector :
    (g : Geometry) (c value n k : ℕ) (d : ℕ → Sector)
    → ((b : ℕ) → IsSector (d b))
    → (b : ℕ) → IsSector (copies_disk g c value n k d b)
unfolding copies_disk
copies_disk-IsSector g c value zero k d h = h
copies_disk-IsSector g c value (suc n) k d h =
    copies_disk-IsSector g c value n (k + 1) _
      (put-IsSector d _ _ h (updated_sector-IsSector _ _ value (h _)))
