-- ===== src/Fs/Fat/Recording.antt =====
-- `update_fsinfo` of src/fs/fat32.cpp: the information sector stands in front of the table.
use vkernel.Common.{
  ℕ, ◌+◌, ◌%◌, ◌^◌, ◌≡◌, refl, sym, ap, ◌∙◌, true, not, ◌||◌, ◌==◌, Bool-cases, inl, inr, arith,
}
use vkernel.Common.Arrays.{put, put_other}
use vkernel.Fs.Fat.Volume.{Geometry, Volume, word, fat_sector, entry_offset}
use vkernel.Fs.Fat.Table.{copy_lba, fsinfo_bytes, update_fsinfo}
use vkernel.Fs.Fat.Words.{IsSector, put_word-IsSector, put-IsSector}
use vkernel.Fs.Fat.Reading.{IsFit, IsSound, fat_entry, first_copy}

fsinfo_bytes-IsSector : (n hint : ℕ) → IsSector (fsinfo_bytes n hint)
unfolding fsinfo_bytes
fsinfo_bytes-IsSector n hint = put_word-IsSector _ 508 0xAA55_0000 (
    put_word-IsSector _ 492 hint (
      put_word-IsSector _ 488 n (
        put_word-IsSector _ 484 0x6141_7272
          (put_word-IsSector (λ o. 0) 0 0x4161_5252 (λ o. omega arith)))))

-- The records are the new ones, and the table is as it was.
pub record HasRecorded (g : Geometry) (v : Volume) (n hint : ℕ) (w : Volume) : Type 0 where
  pub recorded_sound : IsSound g w
  pub recorded_entries : (k d : ℕ) → fat_entry g w k d ≡ fat_entry g v k d
  pub recorded_count : w.free_cluster_count ≡ n
  pub recorded_hint : w.next_free_hint ≡ hint

module _ (g : Geometry) (v : Volume) (n hint : ℕ) (fit : IsFit g) (s : IsSound g v) where
  noted : Volume
  noted = record v { free_cluster_count = n; next_free_hint = hint }

  info_written : Volume
  info_written = record noted {
    disk = put v.disk (g.partition_start + g.fs_info_sector) (fsinfo_bytes n hint);
  }

  noted-HasRecorded : HasRecorded g v n hint noted
  unfolding noted fat_entry
  noted-HasRecorded = record {
    recorded_sound = record { bytes = s.bytes; coherent = s.coherent };
    recorded_entries = λ k d. refl;
    recorded_count = refl;
    recorded_hint = refl;
  }

  table_kept : (k i : ℕ) → info_written.disk (copy_lba g k i) ≡ v.disk (copy_lba g k i)
  unfolding info_written
  table_kept k i = put_other v.disk _ _ _ (let b = fit.info_before in λ e. absurd (omega arith))

  info_written-HasRecorded : HasRecorded g v n hint info_written
  unfolding info_written noted fat_entry
  info_written-HasRecorded = record {
    recorded_sound = record {
      bytes = put-IsSector v.disk _ _ s.bytes (fsinfo_bytes-IsSector n hint);
      coherent = λ q i lo hi.
          (let old = s.coherent q i lo hi in
            (
              old.0,
              old.1
                  ∙ ap v.disk (first_copy g i)
                  ∙ sym (table_kept 0 i)
                  ∙ ap info_written.disk (sym (first_copy g i)),
            ));
    };
    recorded_entries =
        λ k d. ap (λ x. word x (entry_offset d) % 2 ^ 28) (table_kept k (fat_sector d));
    recorded_count = refl;
    recorded_hint = refl;
  }

  -- With a table that fits the device, the update succeeds.
  pub update_fsinfo_lem :
      (w : Volume) × (update_fsinfo g v n hint ≡ (true, w)) × HasRecorded g v n hint w
  unfolding update_fsinfo info_written noted
  update_fsinfo_lem = elim (Bool-cases (not g.fs_info_valid || g.fs_info_sector == 0)) [
    | inl q ↦ (noted, rw q refl, noted-HasRecorded)
    | inr q ↦ (info_written, rw (q, fit.info_writable) refl, info_written-HasRecorded)
  ]
