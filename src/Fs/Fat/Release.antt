-- ===== src/Fs/Fat/Release.antt =====
-- `free_cluster_chain` of src/fs/fat32.cpp: its loop ends on every table, since a freed entry reads 0.
use vkernel.Common.{
  ℕ, zero, suc, ◌+◌, ◌*◌, ◌^◌, ◌≤◌, ◌<◌, ◌≡◌, ◌≢◌, ◌⊎◌, refl, sym, ap, subst, ◌∙◌, true, ◌==◌,
  if◌then◌else◌, ltb, Bool-cases, ==_of_ne, ==_cases, inl, inr, arith,
}
use vkernel.Fs.Fat.Volume.{Geometry, Volume, fat_sector, is_data_cluster}
use vkernel.Fs.Fat.Table.{Freed, free_next, free_entry, free_loop, chain_fuel, read_fat_value}
use vkernel.Fs.Fat.Reading.{
  IsFit, IsSound, HasEntry, fat_entry, read_fat_value-fat_entry, read_fat_value-out_of_range,
}
use vkernel.Fs.Fat.Writing.{HasWritten, write_fat_value-fat_entry}
use vkernel.Fs.Fat.Allocation.{same_entry}

-- The number of clusters with an entry.
abbrev pub entries : Geometry → ℕ
entries g = if ltb (2 ^ 28) (g.sectors_per_fat * 128) then 2 ^ 28 else g.sectors_per_fat * 128

entries-HasEntry : (g : Geometry) (c : ℕ) → c < entries g → HasEntry g c
entries-HasEntry g c h = (ground arith, ground arith)

pub entry_lt : (g : Geometry) (c : ℕ) → HasEntry g c → c < entries g
entry_lt g c h = ground arith

-- The used ones of the clusters below `n`.
unfoldable pub used_below : Geometry → Volume → ℕ → ℕ
used_below g v zero = 0
used_below g v (suc n) = used_below g v n + (if fat_entry g v 0 n == 0 then 0 else 1)

pub used_le : (g : Geometry) (v : Volume) (n : ℕ) → used_below g v n ≤ n
unfolding used_below
used_le g v zero = omega arith
used_le g v (suc n) = let r = used_le g v n in ground arith

-- The entries of two volumes agree but for a cluster, where the second has 0.
abbrev pub Cleared : Geometry → Volume → ℕ → Volume → Type 0
Cleared g v c w =
    (fat_entry g w 0 c ≡ 0)
    × ((d : ℕ) → HasEntry g d → d ≢ c → fat_entry g w 0 d ≡ fat_entry g v 0 d)

used_kept :
    (g : Geometry) (v w : Volume) (c n : ℕ)
    → Cleared g v c w
    → n ≤ entries g
    → n ≤ c
    → used_below g w n ≡ used_below g v n
unfolding used_below
used_kept g v w c zero h le lt = refl
used_kept g v w c (suc n) h le lt =
    let r = used_kept g v w c n h (omega arith) (omega arith) in
    let e = h.1 n (entries-HasEntry g n (omega arith)) (λ q. absurd (omega arith)) in rw (r, e) refl

pub used_drops :
    (g : Geometry) (v w : Volume) (c n : ℕ)
    → Cleared g v c w
    → n ≤ entries g
    → c < n
    → fat_entry g v 0 c ≢ 0
    → used_below g w n + 1 ≡ used_below g v n
unfolding used_below
used_drops g v w c zero h le lt ne = absurd (omega arith)
used_drops g v w c (suc n) h le lt ne = elim (==_cases n c) [
  | inl e ↦
      (let k = used_kept g v w c n h (omega arith) (omega arith) in
        let now_free = ap (fat_entry g w 0) e ∙ h.0 in
        let was_used =
          ==_of_ne (fat_entry g v 0 n) 0 (subst (λ x. fat_entry g v 0 x ≢ 0) (sym e) ne) in
        rw (k, now_free, was_used) (omega arith))
  | inr apart ↦
      (let r = used_drops g v w c n h (omega arith) (omega arith) ne in
        let e = h.1 n (entries-HasEntry g n (omega arith)) apart in rw e (omega arith))
]

pub data_ne_zero : (x : ℕ) → is_data_cluster x ≡ true → x ≢ 0
data_ne_zero x h = ground arith

pub fat_entry_lt : (g : Geometry) (v : Volume) (k c : ℕ) → fat_entry g v k c < 2 ^ 28
unfolding fat_entry
fat_entry_lt g v k c = omega arith

-- One cluster freed.
pub free_step :
    (g : Geometry) (v : Volume) (c : ℕ)
    → IsFit g
    → IsSound g v
    → HasEntry g c
    → (w : Volume) × ((count : ℕ) (rest : ℕ → Volume → Freed)
        → free_entry g c count (read_fat_value g v c) rest
          ≡ free_next (fat_entry g v 0 c) count (true, w) rest)
      × HasWritten g v c 0 w
unfolding free_entry
free_step g v c fit s h =
    let r = read_fat_value-fat_entry g v c fit s h in
    let t = write_fat_value-fat_entry g r.0 c 0 fit h r.2 in
    let m = t.2 in
    (
      t.0,
      λ count rest. rw (r.1, t.1) refl,
      record {
        written_sound = m.written_sound;
        written = m.written;
        others = λ k d hk hd ne. m.others k d hk hd ne ∙ same_entry g v r.0 k d r.3;
        outside = λ b out. m.outside b out ∙ ap (λ d. d b) r.3.same_disk;
        written_count = m.written_count ∙ r.3.same_count;
        written_hint = m.written_hint ∙ r.3.same_hint;
      },
    )

-- A cluster below 2 ^ 28 has an entry, or is not read at all.
covered : (g : Geometry) (c : ℕ) → c < 2 ^ 28 → HasEntry g c ⊎ (g.sectors_per_fat ≤ fat_sector c)
covered g c h = elim (below (fat_sector c) g.sectors_per_fat) [
  | inl lt ↦ inl (h, lt)
  | inr ge ↦ inr ge
]
  where
    below : (a b : ℕ) → (a < b) ⊎ (b ≤ a)
    below a b = omega arith

-- Each entry is as it was, or free.
abbrev pub Shrunk : Geometry → Volume → Volume → Type 0
Shrunk g v w =
    (d : ℕ) → HasEntry g d → (fat_entry g w 0 d ≡ fat_entry g v 0 d) ⊎ (fat_entry g w 0 d ≡ 0)

Shrunk-trans : (g : Geometry) (u v w : Volume) → Shrunk g u v → Shrunk g v w → Shrunk g u w
Shrunk-trans g u v w a b d h = elim (b d h) [
  | inr free ↦ inr free
  | inl e ↦ elim (a d h) [ inr free ↦ inr (e ∙ free) | inl q ↦ inl (e ∙ q) ]
]

-- The loop came to an end, and freed clusters only.
abbrev pub Ended : Geometry → Volume → Freed → Type 0
Ended g v r =
    ((w : Volume) × (r ≡ Freed.io_error w) × IsSound g w × Shrunk g v w)
    ⊎ ((n : ℕ) × (w : Volume) × (r ≡ Freed.freed n w) × IsSound g w × Shrunk g v w)

module _ (g : Geometry) (fit : IsFit g) where
  pub written-Cleared : (v : Volume) (c : ℕ) (w : Volume) → HasWritten g v c 0 w → Cleared g v c w
  written-Cleared v c w m = (m.written 0 fit.some_copy, λ d h ne. m.others 0 d fit.some_copy h ne)

  Cleared-Shrunk : (v : Volume) (c : ℕ) (w : Volume) → Cleared g v c w → Shrunk g v w
  Cleared-Shrunk v c w h d hd = elim (==_cases d c) [
    | inl e ↦ inr (ap (fat_entry g w 0) e ∙ h.0)
    | inr ne ↦ inl (h.1 d hd ne)
  ]

  Ended-later : (u v : Volume) (r : Freed) → Shrunk g u v → Ended g v r → Ended g u r
  Ended-later u v r h (inl (w, q, s, k)) = inl (w, q, s, Shrunk-trans g u v w h k)
  Ended-later u v r h (inr (n, w, q, s, k)) = inr (n, w, q, s, Shrunk-trans g u v w h k)

  free_loop-Ended :
      (fuel c count : ℕ) (v : Volume)
      → IsSound g v
      → c < 2 ^ 28
      → used_below g v (entries g) < fuel
      → Ended g v (free_loop g fuel c count v)
  unfolding free_loop free_entry free_next
  free_loop-Ended zero c count v s lt h = absurd (omega arith)
  free_loop-Ended (suc fuel) c count v s lt h = elim (covered g c lt) [
    | inr ge ↦ inl (v, rw (read_fat_value-out_of_range g v c ge) refl, s, λ d hd. inl refl)
    | inl has ↦
        (let t = free_step g v c fit s has in
          let clear = written-Cleared v c t.0 t.2 in
          elim (Bool-cases (is_data_cluster (fat_entry g v 0 c))) [
            | inl q ↦
                (let e : free_loop g (suc fuel) c count v
                      ≡ free_loop g fuel (fat_entry g v 0 c) (count + 1) t.0 =
                    t.1 count (λ next w. free_loop g fuel next (count + 1) w) ∙ rw q refl in
                  let drop =
                    used_drops g v t.0 c (entries g) clear (omega arith) (entry_lt g c has)
                      (data_ne_zero _ q) in
                  let rest =
                    free_loop-Ended fuel (fat_entry g v 0 c) (count + 1) t.0 t.2.written_sound
                      (fat_entry_lt g v 0 c) (omega arith) in
                  subst (Ended g v) (sym e)
                    (Ended-later v t.0 _ (Cleared-Shrunk v c t.0 clear) rest))
            | inr q ↦ inr (
              count + 1,
              t.0,
              t.1 count (λ next w. free_loop g fuel next (count + 1) w) ∙ rw q refl,
              t.2.written_sound,
              Cleared-Shrunk v c t.0 clear,
            )
          ])
  ]

  -- With a table that fits the device, on a sound volume, the loop of `free_cluster_chain` from a data
  -- cluster ends with the fuel that it is given, whatever the table holds, cyclic and crossing chains
  -- and chains that leave the table included: it ends in an error or after freeing some clusters, with
  -- a sound volume, and has changed no entry of the first copy but to 0.
  pub free_loop-chain_fuel :
      (c : ℕ) (v : Volume)
      → IsSound g v
      → is_data_cluster c ≡ true
      → Ended g v (free_loop g (chain_fuel g) c 0 v)
  free_loop-chain_fuel c v s h =
      let u = used_le g v (entries g) in
      free_loop-Ended (chain_fuel g) c 0 v s (ground arith) (ground arith)
