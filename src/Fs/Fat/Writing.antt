-- ===== src/Fs/Fat/Writing.antt =====
-- `write_fat_value` of src/fs/fat32.cpp: all copies of the table, and the cache with them.
use vkernel.Common.{
  ℕ, zero, suc, ◌-◌, ◌*◌, ◌%◌, ◌^◌, ◌≤◌, ◌<◌, ◌≡◌, ◌≢◌, ◌⊎◌, refl, sym, ap, subst, ◌∙◌, true,
  if◌then◌else◌, ==_cases, Bool-cases, inl, inr, arith,
}
use vkernel.Common.Arrays.{put, put_same, put_other}
use vkernel.Fs.Fat.Volume.{Sector, Geometry, Volume, word, fat_sector, entry_offset, fat_lba}
use vkernel.Fs.Fat.Table.{
  cache_hit, updated_sector, copy_lba, refresh_cache, write_copies, write_fat_value,
}
use vkernel.Fs.Fat.Words.{updated_sector_entry, updated_sector_other, entries_apart, sector_eq}
use vkernel.Fs.Fat.Reading.{
  IsFit, IsSound, IsCoherent, HasEntry, fat_entry, first_copy, cache_hit_of, cache_hit_bounds,
}
use vkernel.Fs.Fat.Copies.{
  copies_disk, copy_unwrapped, copies_apart, write_copies_lem, copies_disk_other, copies_disk_copy,
  copies_disk-IsSector,
}

-- What a write of an entry leaves.
pub record HasWritten (g : Geometry) (v : Volume) (c value : ℕ) (w : Volume) : Type 0 where
  pub written_sound : IsSound g w
  pub written : (k : ℕ) → k < g.fat_count → fat_entry g w k c ≡ value % 2 ^ 28
  pub others :
      (k d : ℕ) → k < g.fat_count → HasEntry g d → d ≢ c → fat_entry g w k d ≡ fat_entry g v k d
  pub outside :
      (b : ℕ)
      → (b < fat_lba g 0) ⊎ (fat_lba g (g.fat_count * g.sectors_per_fat) ≤ b)
      → w.disk b ≡ v.disk b
  pub written_count : w.free_cluster_count ≡ v.free_cluster_count
  pub written_hint : w.next_free_hint ≡ v.next_free_hint

suc_of : (n : ℕ) → 0 < n → (m : ℕ) × (n ≡ suc m)
suc_of zero h = absurd (omega arith)
suc_of (suc n) h = (n, refl)

module _ (g : Geometry) (v : Volume) (c value : ℕ) (fit : IsFit g) (h : HasEntry g c) where
  new_sector : Sector
  new_sector = updated_sector (v.disk (copy_lba g 0 (fat_sector c))) (entry_offset c) value

  all_written : Volume
  all_written = record v {
    disk = copies_disk g c value g.fat_count 0 v.disk;
    cache =
        if cache_hit v (fat_sector c)
        then put v.cache (fat_sector c - v.cache_first) new_sector
        else v.cache;
  }

  first_written :
      (n : ℕ)
      → g.fat_count ≡ suc n
      → write_copies g v c value (suc n) 0
        ≡ (true, record all_written { disk = copies_disk g c value (suc n) 0 v.disk })
  unfolding write_copies copies_disk refresh_cache all_written new_sector
  first_written n e =
      let a = copy_unwrapped g 0 (fat_sector c) fit (omega arith) h.1 in
      let r = subst (λ b. g.readable b ≡ true) (sym a.0) (fit.can_read _ a.1) in
      let w = subst (λ b. g.writable b ≡ true) (sym a.0) (fit.can_write _ a.1) in
      elim (Bool-cases (cache_hit v (fat_sector c))) [
        | inl q ↦
            rw (r, w, q) (write_copies_lem g _ c value n 1 fit h.1 (omega arith) (omega arith))
        | inr q ↦
            rw (r, w, q) (write_copies_lem g _ c value n 1 fit h.1 (omega arith) (omega arith))
      ]

  write_fat_value_lem : write_fat_value g v c value ≡ (true, all_written)
  unfolding write_fat_value all_written
  write_fat_value_lem =
      (let m = suc_of g.fat_count fit.some_copy in
        subst
          (λ n.
            write_copies g v c value n 0
            ≡ (true, record all_written { disk = copies_disk g c value n 0 v.disk }))
          (sym m.1) (first_written m.0 m.1))

  disk_copy :
      (k : ℕ)
      → k < g.fat_count
      → all_written.disk (copy_lba g k (fat_sector c))
        ≡ updated_sector (v.disk (copy_lba g k (fat_sector c))) (entry_offset c) value
  unfolding all_written
  disk_copy k hk =
      copies_disk_copy g c value g.fat_count 0 v.disk k fit h.1 (omega arith) (omega arith)
        (omega arith)

  disk_other :
      (k i : ℕ)
      → k < g.fat_count
      → i < g.sectors_per_fat
      → i ≢ fat_sector c
      → all_written.disk (copy_lba g k i) ≡ v.disk (copy_lba g k i)
  unfolding all_written
  disk_other k i hk hi ne =
      copies_disk_other g c value g.fat_count 0 v.disk _
        (λ j lo hj. copies_apart g k j i (fat_sector c) fit hk (omega arith) hi h.1 (inr ne))

  row_written :
      (i : ℕ)
      → i ≡ fat_sector c
      → cache_hit v (fat_sector c) ≡ true
      → all_written.cache (i - v.cache_first) ≡ all_written.disk (fat_lba g i)
  unfolding all_written new_sector
  row_written i e q =
      rw q (put_same v.cache _ _ new_sector (ap (λ x. x - v.cache_first) e))
      ∙ sym (disk_copy 0 fit.some_copy)
      ∙ ap all_written.disk (ap (copy_lba g 0) (sym e) ∙ sym (first_copy g i))

  row_kept :
      (i : ℕ)
      → v.cache_first ≤ i
      → i ≢ fat_sector c
      → all_written.cache (i - v.cache_first) ≡ v.cache (i - v.cache_first)
  unfolding all_written
  row_kept i lo ne = elim (Bool-cases (cache_hit v (fat_sector c))) [
    | inl q ↦
        (let b = cache_hit_bounds v (fat_sector c) q in
          rw q (put_other v.cache _ _ new_sector (λ e. ne (omega arith))))
    | inr q ↦ rw q refl
  ]

  all_written-IsCoherent : IsCoherent g v → IsCoherent g all_written
  unfolding all_written
  all_written-IsCoherent s q i lo hi =
      let old = s q i lo hi in
      (
        old.0,
        elim (==_cases i (fat_sector c)) [
          | inl e ↦ row_written i e (subst (λ x. cache_hit v x ≡ true) e (cache_hit_of v i q lo hi))
          | inr ne ↦
              row_kept i lo ne
              ∙ old.1
              ∙ ap v.disk (first_copy g i)
              ∙ sym (disk_other 0 i fit.some_copy old.0 ne)
              ∙ ap all_written.disk (sym (first_copy g i))
        ],
      )

  -- Another entry of the sector that is written.
  neighbour :
      (k d : ℕ)
      → k < g.fat_count
      → HasEntry g d
      → d ≢ c
      → fat_sector c ≡ fat_sector d
      → word (all_written.disk (copy_lba g k (fat_sector d))) (entry_offset d)
        ≡ word (v.disk (copy_lba g k (fat_sector d))) (entry_offset d)
  neighbour k d hk hd ne e =
      ap (λ i. word (all_written.disk (copy_lba g k i)) (entry_offset d)) (sym e)
      ∙ ap (λ s. word s (entry_offset d)) (disk_copy k hk)
      ∙ updated_sector_other _ (entry_offset c) value (entry_offset d)
          (entries_apart c d h.0 hd.0 (λ q. ne (sym q)) e)
      ∙ ap (λ i. word (v.disk (copy_lba g k i)) (entry_offset d)) e

  all_written-other :
      (k d : ℕ)
      → k < g.fat_count
      → HasEntry g d
      → d ≢ c
      → fat_entry g all_written k d ≡ fat_entry g v k d
  unfolding fat_entry
  all_written-other k d hk hd ne = elim (sector_eq c d) [
    | inl e ↦ ap (λ x. x % 2 ^ 28) (neighbour k d hk hd ne e)
    | inr apart ↦
        ap (λ b. word b (entry_offset d) % 2 ^ 28)
          (disk_other k (fat_sector d) hk hd.1 (λ e. apart (sym e)))
  ]

  table_apart :
      (b j : ℕ)
      → (b < fat_lba g 0) ⊎ (fat_lba g (g.fat_count * g.sectors_per_fat) ≤ b)
      → j < g.fat_count
      → b ≢ copy_lba g j (fat_sector c)
  table_apart b j out hj e =
      let a = copy_unwrapped g j (fat_sector c) fit hj h.1 in
      let q = e ∙ a.0 in let p = a.1 in absurd (omega (arith, q, p, out))

  -- With a table that fits the device, a sound volume and a cluster that has an entry, a write of the entry succeeds: in every copy of the
  -- table the entry of the cluster becomes the value's low 28 bits and the other entries are kept, no
  -- block outside the table changes, and the cache still agrees with the disk.
  pub write_fat_value-fat_entry :
      IsSound g v
      → (w : Volume) × (write_fat_value g v c value ≡ (true, w)) × HasWritten g v c value w
  unfolding all_written fat_entry
  write_fat_value-fat_entry s = (
    all_written,
    write_fat_value_lem,
    record {
      written_sound = record {
        bytes = copies_disk-IsSector g c value g.fat_count 0 v.disk s.bytes;
        coherent = all_written-IsCoherent s.coherent;
      };
      written = λ k hk.
          (ap (λ b. word b (entry_offset c) % 2 ^ 28) (disk_copy k hk)
            ∙ updated_sector_entry _ (entry_offset c) value (s.bytes _));
      others = all_written-other;
      outside = λ b out.
          copies_disk_other g c value g.fat_count 0 v.disk b
            (λ j lo hj. table_apart b j out (omega arith));
      written_count = refl;
      written_hint = refl;
    },
  )
