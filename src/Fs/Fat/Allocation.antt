-- ===== src/Fs/Fat/Allocation.antt =====
-- `allocate_cluster` of src/fs/fat32.cpp: the two passes over the table.
use vkernel.Common.{
  ℕ, zero, suc, ◌+◌, ◌-◌, ◌%◌, ◌^◌, ◌≤◌, ◌<◌, ◌≡◌, ◌≢◌, ◌⊎◌, refl, sym, ap, subst, ◌∙◌, ==_of_ne,
  ==_cases, inl, inr, arith,
}
use vkernel.Fs.Fat.Volume.{
  Geometry, Volume, word, fat_sector, entry_offset, end_of_chain, fsinfo_unknown,
}
use vkernel.Fs.Fat.Table.{
  copy_lba, Scan, max_cluster, finish_allocation, count_less, hint_behind, scan_cluster,
  scan_clusters, second_pass, start_cluster, allocate_cluster, write_fat_value,
}
use vkernel.Fs.Fat.Reading.{
  IsFit, IsSound, HasEntry, fat_entry, SameTable, read_fat_value-fat_entry,
}
use vkernel.Fs.Fat.Writing.{write_fat_value-fat_entry}
use vkernel.Fs.Fat.Recording.{update_fsinfo_lem}

-- The table has an entry for every cluster of the data area.
abbrev pub CoversData : Geometry → Type 0
CoversData g = HasEntry g (max_cluster g)

-- A cluster that was free in `v` is now the end of a chain, and nothing else of the table changed.
pub record HasTaken (g : Geometry) (v : Volume) (c : ℕ) (w : Volume) : Type 0 where
  pub was_free : fat_entry g v 0 c ≡ 0
  pub taken_sound : IsSound g w
  pub ends_chain : (k : ℕ) → k < g.fat_count → fat_entry g w k c ≡ end_of_chain
  pub taken_others :
      (k d : ℕ) → k < g.fat_count → HasEntry g d → d ≢ c → fat_entry g w k d ≡ fat_entry g v k d
  pub taken_count :
      v.free_cluster_count ≢ fsinfo_unknown
      → 0 < v.free_cluster_count
      → v.free_cluster_count < 2 ^ 32
      → w.free_cluster_count + 1 ≡ v.free_cluster_count
  pub taken_none : v.free_cluster_count ≡ 0 → w.free_cluster_count ≡ fsinfo_unknown
  pub taken_unknown : v.free_cluster_count ≡ fsinfo_unknown → w.free_cluster_count ≡ fsinfo_unknown
  pub taken_hint : 2 ≤ c → c < max_cluster g → w.next_free_hint ≡ c + 1
  pub taken_end : c ≡ max_cluster g → w.next_free_hint ≡ 2

-- What a scan of the clusters from `lo` up to `hi` comes to.
abbrev pub Scanned : Geometry → Volume → ℕ → ℕ → Scan → Type 0
Scanned g v lo hi r =
    ((c : ℕ) × (w : Volume) × (r ≡ Scan.taken c w) × (lo ≤ c) × (c < hi) × HasTaken g v c w)
    ⊎ ((w : Volume) × (r ≡ Scan.nothing w)
        × IsSound g w
        × SameTable v w
        × ((c : ℕ) → lo ≤ c → c < hi → fat_entry g v 0 c ≢ 0))

count_less_lem :
    (a b n : ℕ) → a ≡ count_less b → b ≡ n → n ≢ fsinfo_unknown → 0 < n → n < 2 ^ 32 → a + 1 ≡ n
count_less_lem a b n e q known pos lt = ground arith

count_less_none : (a b n : ℕ) → a ≡ count_less b → b ≡ n → n ≡ 0 → a ≡ fsinfo_unknown
count_less_none a b n e q empty = ground arith

count_less_unknown :
    (a b n : ℕ) → a ≡ count_less b → b ≡ n → n ≡ fsinfo_unknown → a ≡ fsinfo_unknown
count_less_unknown a b n e q unknown = ground arith

hint_behind_within : (g : Geometry) (c : ℕ) → 2 ≤ c → c < max_cluster g → hint_behind g c ≡ c + 1
hint_behind_within g c lo lt = ground arith

hint_behind_end : (g : Geometry) (c : ℕ) → c ≡ max_cluster g → hint_behind g c ≡ 2
hint_behind_end g c e = ground arith

entry_covered : (g : Geometry) (c : ℕ) → CoversData g → c ≤ max_cluster g → HasEntry g c
entry_covered g c h le = (omega arith, omega arith)

pub same_entry :
    (g : Geometry) (v w : Volume) (k d : ℕ) → SameTable v w → fat_entry g w k d ≡ fat_entry g v k d
unfolding fat_entry
same_entry g v w k d h =
    ap (λ t. word (t (copy_lba g k (fat_sector d))) (entry_offset d) % 2 ^ 28) h.same_disk

pub SameTable-trans : (u v w : Volume) → SameTable u v → SameTable v w → SameTable u w
SameTable-trans u v w e f = record {
  same_disk = f.same_disk ∙ e.same_disk;
  same_count = f.same_count ∙ e.same_count;
  same_hint = f.same_hint ∙ e.same_hint;
}

module _ (g : Geometry) (fit : IsFit g) (covers : CoversData g) where
  take_free :
      (v : Volume) (c : ℕ)
      → IsSound g v
      → c ≤ max_cluster g
      → fat_entry g v 0 c ≡ 0
      → (w : Volume) × (finish_allocation g c (write_fat_value g v c end_of_chain) ≡ Scan.taken c w)
        × HasTaken g v c w
  unfolding finish_allocation
  take_free v c s le free =
      let a = write_fat_value-fat_entry g v c end_of_chain fit (entry_covered g c covers le) s in
      let m = a.2 in
      let u =
        update_fsinfo_lem g a.0 (count_less a.0.free_cluster_count) (hint_behind g c) fit
          m.written_sound in
      let n = u.2 in
      (
        u.0,
        rw (a.1, u.1) refl,
        record {
          was_free = free;
          taken_sound = n.recorded_sound;
          ends_chain = λ k hk. n.recorded_entries k c ∙ m.written k hk;
          taken_others = λ k d hk hd ne. n.recorded_entries k d ∙ m.others k d hk hd ne;
          taken_count = λ known pos lt.
              (let e = n.recorded_count in
                let e' = m.written_count in count_less_lem _ _ _ e e' known pos lt);
          taken_none = λ empty. count_less_none _ _ _ n.recorded_count m.written_count empty;
          taken_unknown =
              λ unknown. count_less_unknown _ _ _ n.recorded_count m.written_count unknown;
          taken_hint = λ lo lt. n.recorded_hint ∙ hint_behind_within g c lo lt;
          taken_end = λ last. n.recorded_hint ∙ hint_behind_end g c last;
        },
      )

  -- Reads before it do not change what was taken.
  earlier :
      (u v : Volume) (c : ℕ) (w : Volume) → SameTable u v → HasTaken g v c w → HasTaken g u c w
  earlier u v c w e t = record {
    was_free = sym (same_entry g u v 0 c e) ∙ t.was_free;
    taken_sound = t.taken_sound;
    ends_chain = t.ends_chain;
    taken_others = λ k d hk hd ne. t.taken_others k d hk hd ne ∙ same_entry g u v k d e;
    taken_count =
        subst (λ n. n ≢ fsinfo_unknown → 0 < n → n < 2 ^ 32 → w.free_cluster_count + 1 ≡ n)
          e.same_count t.taken_count;
    taken_none = λ empty. t.taken_none (e.same_count ∙ empty);
    taken_unknown = λ unknown. t.taken_unknown (e.same_count ∙ unknown);
    taken_hint = t.taken_hint;
    taken_end = t.taken_end;
  }

  Scanned-transfer :
      (u v : Volume) (lo hi : ℕ) (r : Scan)
      → SameTable u v
      → Scanned g v lo hi r
      → Scanned g u lo hi r
  Scanned-transfer u v lo hi r e (inl (c, w, q, lo', hi', t)) =
      inl (c, w, q, lo', hi', earlier u v c w e t)
  Scanned-transfer u v lo hi r e (inr (w, q, s, same, none_free)) = inr (
    w,
    q,
    s,
    SameTable-trans u v w e same,
    λ c l h. subst (λ x. x ≢ 0) (same_entry g u v 0 c e) (none_free c l h),
  )

  -- A used cluster in front of the scanned ones.
  Scanned-extend :
      (v : Volume) (lo hi : ℕ) (r : Scan)
      → fat_entry g v 0 lo ≢ 0
      → Scanned g v (lo + 1) hi r
      → Scanned g v lo hi r
  Scanned-extend v lo hi r ne (inl (c, w, q, lo', hi', t)) = inl (c, w, q, omega arith, hi', t)
  Scanned-extend v lo hi r ne (inr (w, q, s, same, none_free)) = inr (
    w,
    q,
    s,
    same,
    λ c l h. elim (==_cases c lo) [
      | inl e ↦ subst (λ x. fat_entry g v 0 x ≢ 0) (sym e) ne
      | inr apart ↦ none_free c (omega arith) h
    ],
  )

  scan_clusters-Scanned :
      (n lo : ℕ) (v : Volume)
      → IsSound g v
      → lo + n ≤ max_cluster g + 1
      → Scanned g v lo (lo + n) (scan_clusters g n lo v)
  unfolding scan_clusters scan_cluster
  scan_clusters-Scanned zero lo v s le = inr (
    v,
    refl,
    s,
    record { same_disk = refl; same_count = refl; same_hint = refl },
    λ c l h. absurd (omega arith),
  )
  scan_clusters-Scanned (suc n) lo v s le =
      let r = read_fat_value-fat_entry g v lo fit s (entry_covered g lo covers (omega arith)) in
      elim (==_cases (fat_entry g v 0 lo) 0) [
        | inl free ↦
            (let t = take_free r.0 lo r.2 (omega arith) (same_entry g v r.0 0 lo r.3 ∙ free) in
              inl (
                lo,
                t.0,
                rw (r.1, free) t.1,
                omega arith,
                omega arith,
                earlier v r.0 lo t.0 r.3 t.2,
              ))
        | inr used ↦
            (let e : scan_clusters g (suc n) lo v ≡ scan_clusters g n (lo + 1) r.0 =
                rw (r.1, ==_of_ne _ _ used) refl in
              let rest =
                subst (λ hi. Scanned g r.0 (lo + 1) hi (scan_clusters g n (lo + 1) r.0))
                  (omega arith) (scan_clusters-Scanned n (lo + 1) r.0 r.2 (omega arith)) in
              subst (Scanned g v lo (lo + suc n)) (sym e)
                (Scanned-extend v lo _ _ used (Scanned-transfer v r.0 _ _ _ r.3 rest)))
      ]

  second_pass-Scanned :
      (v : Volume) (lo : ℕ) (r : Scan)
      → 2 ≤ lo
      → Scanned g v lo (max_cluster g + 1) r
      → Scanned g v 2 (max_cluster g + 1) (second_pass g r)
  unfolding second_pass
  second_pass-Scanned v lo r le (inl (c, w, q, lo', hi', t)) =
      inl (c, w, rw q refl, omega arith, hi', t)
  second_pass-Scanned v lo r le (inr (w, q, s, same, none_free)) =
      let again =
        subst (λ hi. Scanned g w 2 hi (scan_clusters g (max_cluster g - 1) 2 w)) (omega arith)
          (scan_clusters-Scanned (max_cluster g - 1) 2 w s (omega arith)) in
      rw q (Scanned-transfer v w _ _ _ same again)

  -- When the table fits the device and has an entry for every cluster, then on a sound volume the
  -- allocation either takes a cluster from 2 up to the last one whose entry was 0: the entry becomes the
  -- end of a chain in every copy, no other entry changes, the volume stays sound, and the
  -- hint is the next cluster, or 2 behind the last one. The number of free clusters falls by one when
  -- it is known and not 0, stays unknown when it is unknown, and becomes unknown when it is 0, where
  -- the subtraction wraps to the mark for unknown. Or there is no such cluster, and only the cache has
  -- changed. It never fails, wherever the hint points.
  pub allocate_cluster-Scanned :
      (v : Volume) → IsSound g v → Scanned g v 2 (max_cluster g + 1) (allocate_cluster g v)
  unfolding allocate_cluster
  allocate_cluster-Scanned v s =
      let start = start_bounds v in
      second_pass-Scanned v (start_cluster g v) _ start.0 (
        subst
          (λ hi.
            Scanned g v (start_cluster g v) hi
              (scan_clusters g (max_cluster g + 1 - start_cluster g v) (start_cluster g v) v))
          (let b = start.1 in omega arith)
          (scan_clusters-Scanned (max_cluster g + 1 - start_cluster g v) (start_cluster g v) v s
            (let b = start.1 in omega arith)))
    where
      start_bounds :
          (v : Volume) → (2 ≤ start_cluster g v) × (start_cluster g v ≤ max_cluster g + 1)
      start_bounds v = (ground arith, ground arith)
