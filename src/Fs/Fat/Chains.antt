-- ===== src/Fs/Fat/Chains.antt =====
-- Chains of clusters in the table, and their release by `free_cluster_chain` of src/fs/fat32.cpp.
use vkernel.Common.{
  ℕ, zero, suc, ◌+◌, ◌%◌, ◌^◌, ◌≤◌, ◌<◌, ◌≡◌, ◌≢◌, refl, sym, ap, subst, ◌∙◌, true, false, arith,
  List, [], ◌∷◌, length,
}
use mathlib.Core.List.{Memᴰ}
use mathlib.Core.List.Memᴰ
use vkernel.Fs.Fat.Volume.{Geometry, Volume, is_data_cluster, fsinfo_unknown}
use vkernel.Fs.Fat.Table.{
  Freed, free_next, free_entry, free_loop, finish_free, free_cluster_chain, chain_fuel, count_more,
  hint_before,
}
use vkernel.Fs.Fat.Reading.{IsFit, IsSound, HasEntry, fat_entry}
use vkernel.Fs.Fat.Writing.{HasWritten}
use vkernel.Fs.Fat.Recording.{update_fsinfo_lem}
use vkernel.Fs.Fat.Release.{
  entries, used_below, used_le, used_drops, entry_lt, free_step, data_ne_zero, written-Cleared,
}

-- The clusters of a chain in order, from its first on, without a repetition.
pub data IsChain (g : Geometry) (v : Volume) : ℕ → List ℕ → Type 0 where
  last :
      {c : ℕ} → HasEntry g c → is_data_cluster (fat_entry g v 0 c) ≡ false → IsChain g v c (c ∷ [])
  link :
      {c : ℕ} {cs : List ℕ}
      → HasEntry g c
      → is_data_cluster (fat_entry g v 0 c) ≡ true
      → ((d : ℕ) → Memᴰ d cs → d ≢ c)
      → IsChain g v (fat_entry g v 0 c) cs
      → IsChain g v c (c ∷ cs)

IsChain-entry :
    (g : Geometry) (v : Volume) (c : ℕ) (cs : List ℕ)
    → IsChain g v c cs
    → (d : ℕ) → Memᴰ d cs
    → HasEntry g d
IsChain-entry g v c cs (IsChain.last h q) d (Memᴰ.head e) = subst (HasEntry g) (sym e) h
IsChain-entry g v c cs (IsChain.last h q) d (Memᴰ.tail m) = absurd (Memᴰ.not-nil m)
IsChain-entry g v c cs (IsChain.link {cs = ds} h q apart rest) d (Memᴰ.head e) =
    subst (HasEntry g) (sym e) h
IsChain-entry g v c cs (IsChain.link {cs = ds} h q apart rest) d (Memᴰ.tail m) =
    IsChain-entry g v _ ds rest d m

-- A chain is one of every volume whose table agrees on it.
IsChain-agree :
    (g : Geometry) (v w : Volume) (c : ℕ) (cs : List ℕ)
    → ((d : ℕ) → Memᴰ d cs → fat_entry g w 0 d ≡ fat_entry g v 0 d)
    → IsChain g v c cs
    → IsChain g w c cs
IsChain-agree g v w c cs agree (IsChain.last h q) =
    IsChain.last h (ap is_data_cluster (agree c (Memᴰ.head refl)) ∙ q)
IsChain-agree g v w c cs agree (IsChain.link {cs = ds} h q apart rest) =
    let e = agree c (Memᴰ.head refl) in
    IsChain.link h (ap is_data_cluster e ∙ q) apart (
      subst (λ n. IsChain g w n ds) (sym e)
        (IsChain-agree g v w _ ds (λ d m. agree d (Memᴰ.tail m)) rest))

-- The clusters of the chain are free in every copy, and the other entries and the records are kept.
record HasFreed (g : Geometry) (v : Volume) (cs : List ℕ) (w : Volume) : Type 0 where
  freed_sound : IsSound g w
  all_free : (k d : ℕ) → k < g.fat_count → Memᴰ d cs → fat_entry g w k d ≡ 0
  kept :
      (k d : ℕ)
      → k < g.fat_count
      → HasEntry g d
      → (Memᴰ d cs → ⊥)
      → fat_entry g w k d ≡ fat_entry g v k d
  freed_count : w.free_cluster_count ≡ v.free_cluster_count
  freed_hint : w.next_free_hint ≡ v.next_free_hint

module _ (g : Geometry) (fit : IsFit g) where
  written-HasFreed :
      (v : Volume) (c : ℕ) (w : Volume) → HasWritten g v c 0 w → HasFreed g v (c ∷ []) w
  written-HasFreed v c w m = record {
    freed_sound = m.written_sound;
    all_free = λ k d hk mem. elim mem [
      | Memᴰ.head e ↦ ap (fat_entry g w k) e ∙ m.written k hk
      | Memᴰ.tail none ↦ absurd (Memᴰ.not-nil none)
    ];
    kept = λ k d hk h out. m.others k d hk h (λ e. out (Memᴰ.head e));
    freed_count = m.written_count;
    freed_hint = m.written_hint;
  }

  -- The first cluster stays free while the rest of the chain is released.
  free_rest :
      (v w x : Volume) (c : ℕ) (cs : List ℕ)
      → HasWritten g v c 0 w
      → HasFreed g w cs x
      → HasEntry g c
      → (Memᴰ c cs → ⊥)
      → (k d : ℕ) → k < g.fat_count
      → Memᴰ d (c ∷ cs)
      → fat_entry g x k d ≡ 0
  free_rest v w x c cs m f h out k d hk (Memᴰ.head e) =
      ap (fat_entry g x k) e ∙ f.kept k c hk h out ∙ m.written k hk
  free_rest v w x c cs m f h out k d hk (Memᴰ.tail mem) = f.all_free k d hk mem

  free_loop-IsChain :
      (fuel c count : ℕ) (cs : List ℕ) (v : Volume)
      → IsSound g v
      → IsChain g v c cs
      → used_below g v (entries g) < fuel
      → (w : Volume) × (free_loop g fuel c count v ≡ Freed.freed (count + length cs) w)
        × HasFreed g v cs w
  unfolding free_loop free_entry free_next
  free_loop-IsChain zero c count cs v s chain h = absurd (omega arith)
  free_loop-IsChain (suc fuel) c count cs v s (IsChain.last has q) h =
      let t = free_step g v c fit s has in
      (
        t.0,
        t.1 count (λ next w. free_loop g fuel next (count + 1) w) ∙ rw q refl,
        written-HasFreed v c t.0 t.2,
      )
  free_loop-IsChain (suc fuel) c count cs v s (IsChain.link {cs = ds} has q apart rest) h =
      let t = free_step g v c fit s has in
      let clear = written-Cleared g fit v c t.0 t.2 in
      let drop =
        used_drops g v t.0 c (entries g) clear (omega arith) (entry_lt g c has)
          (data_ne_zero _ q) in
      let r =
        free_loop-IsChain fuel (fat_entry g v 0 c) (count + 1) ds t.0 t.2.written_sound
          (IsChain-agree g v t.0 _ ds
            (λ d m. clear.1 d (IsChain-entry g v _ ds rest d m) (apart d m)) rest)
          (omega arith) in
      let m = r.2 in
      (
        r.0,
        t.1 count (λ next w. free_loop g fuel next (count + 1) w)
            ∙ rw q (r.1 ∙ ap (λ n. Freed.freed n r.0) (omega arith)),
        record {
          freed_sound = m.freed_sound;
          all_free = free_rest v t.0 r.0 c ds t.2 m has (λ x. apart c x refl);
          kept = λ k d hk hd out.
              (m.kept k d hk hd (λ x. out (Memᴰ.tail x))
                ∙ t.2.others k d hk hd (λ e. out (Memᴰ.head e)));
          freed_count = m.freed_count ∙ t.2.written_count;
          freed_hint = m.freed_hint ∙ t.2.written_hint;
        },
      )

  -- With a table that fits the device, on a sound volume, the release of a chain without repetitions succeeds: the entries of its clusters
  -- become 0 in every copy, all other entries are kept, the volume stays sound, a known number of free
  -- clusters grows by the length of the chain (in 32 bits), and the hint never moves behind the chain's
  -- first cluster.
  pub free_cluster_chain-IsChain :
      (v : Volume) (c : ℕ) (cs : List ℕ)
      → IsSound g v
      → is_data_cluster c ≡ true
      → IsChain g v c cs
      → (w : Volume) × (free_cluster_chain g v c ≡ (true, w))
        × IsSound g w
        × ((k d : ℕ) → k < g.fat_count → Memᴰ d cs → fat_entry g w k d ≡ 0)
        × ((k d : ℕ)
            → k < g.fat_count
            → HasEntry g d
            → (Memᴰ d cs → ⊥)
            → fat_entry g w k d ≡ fat_entry g v k d)
        × (v.free_cluster_count ≢ fsinfo_unknown
            → w.free_cluster_count ≡ (v.free_cluster_count + length cs) % 2 ^ 32)
        × (w.next_free_hint ≤ c)
  unfolding free_cluster_chain finish_free
  free_cluster_chain-IsChain v c cs s q chain =
      let b = used_le g v (entries g) in
      let r = free_loop-IsChain (chain_fuel g) c 0 cs v s chain (ground arith) in
      let m = r.2 in
      let u =
        update_fsinfo_lem g r.0 (count_more r.0.free_cluster_count (0 + length cs))
          (hint_before r.0.next_free_hint c) fit m.freed_sound in
      let n = u.2 in
      (
        u.0,
        rw (q, r.1) u.1,
        n.recorded_sound,
        λ k d hk mem. n.recorded_entries k d ∙ m.all_free k d hk mem,
        λ k d hk hd out. n.recorded_entries k d ∙ m.kept k d hk hd out,
        λ known. count_more_lem _ _ _ _ n.recorded_count m.freed_count known,
        hint_before_lem _ _ c n.recorded_hint,
      )
    where
      count_more_lem :
          (a b n l : ℕ)
          → a ≡ count_more b (0 + l)
          → b ≡ n
          → n ≢ fsinfo_unknown
          → a ≡ (n + l) % 2 ^ 32
      count_more_lem a b n l e q known = ground arith

      hint_before_lem : (a h c : ℕ) → a ≡ hint_before h c → a ≤ c
      hint_before_lem a h c e = ground arith
