-- ===== src/Fs/Fat/Following.antt =====
-- The cluster of an offset of a file: `cluster_for_file_offset` of src/fs/fat32.cpp with the position
-- that the descriptor remembers, against the chain from the first cluster on.
use vkernel.Common.{
  ℕ, zero, suc, ◌+◌, ◌-◌, ◌≤◌, ◌<◌, ◌≡◌, ◌≢◌, refl, sym, ap, subst, ◌∙◌, true, some, leb→le,
  Bool-cases, and_parts, ==_of_ne, inl, inr, arith,
}
use vkernel.Fs.Fat.Volume.{Geometry, Volume, is_data_cluster}
use vkernel.Fs.Fat.Files.{
  FileDescriptor, follow, follow_next, may_resume, remember, cluster_for_file_offset,
}
use vkernel.Fs.Fat.Reading.{
  IsFit, IsSound, HasEntry, fat_entry, SameTable, read_fat_value-fat_entry,
}
use vkernel.Fs.Fat.Allocation.{same_entry, SameTable-trans}

-- The cluster `n` links behind a cluster.
unfoldable pub nth_cluster : Geometry → Volume → ℕ → ℕ → ℕ
nth_cluster g v c zero = c
nth_cluster g v c (suc n) = nth_cluster g v (fat_entry g v 0 c) n

-- The chain has clusters up to its `n`th link.
abbrev pub Reaches : Geometry → Volume → ℕ → ℕ → Type 0
Reaches g v c n =
    (j : ℕ)
    → j < n
    → HasEntry g (nth_cluster g v c j) × (is_data_cluster (nth_cluster g v c (suc j)) ≡ true)

pub nth_same :
    (g : Geometry) (v w : Volume) (c n : ℕ)
    → SameTable v w
    → nth_cluster g w c n ≡ nth_cluster g v c n
unfolding nth_cluster
nth_same g v w c zero h = refl
nth_same g v w c (suc n) h =
    nth_same g v w (fat_entry g w 0 c) n h ∙ ap (λ x. nth_cluster g v x n) (same_entry g v w 0 c h)

pub nth_add :
    (g : Geometry) (v : Volume) (c a b : ℕ)
    → nth_cluster g v c (a + b) ≡ nth_cluster g v (nth_cluster g v c a) b
unfolding nth_cluster
nth_add g v c zero b = let e : 0 + b ≡ b = omega arith in ap (nth_cluster g v c) e
nth_add g v c (suc a) b =
    let e : suc a + b ≡ suc (a + b) = omega arith in
    ap (nth_cluster g v c) e ∙ nth_add g v (fat_entry g v 0 c) a b

pub nth_suc :
    (g : Geometry) (v : Volume) (c n : ℕ)
    → nth_cluster g v c (suc n) ≡ fat_entry g v 0 (nth_cluster g v c n)
unfolding nth_cluster
nth_suc g v c zero = refl
nth_suc g v c (suc n) = nth_suc g v (fat_entry g v 0 c) n

Reaches-next :
    (g : Geometry) (v : Volume) (c n : ℕ)
    → Reaches g v c (suc n)
    → Reaches g v (fat_entry g v 0 c) n
unfolding nth_cluster
Reaches-next g v c n h j lt = h (suc j) (omega arith)

pub Reaches-same :
    (g : Geometry) (v w : Volume) (c n : ℕ) → SameTable v w → Reaches g v c n → Reaches g w c n
Reaches-same g v w c n e h j lt = (
  subst (HasEntry g) (sym (nth_same g v w c j e)) (h j lt).0,
  ap is_data_cluster (nth_same g v w c (suc j) e) ∙ (h j lt).1,
)

follow_lem :
    (g : Geometry) (n c : ℕ) (v : Volume)
    → IsFit g
    → IsSound g v
    → Reaches g v c n
    → (w : Volume) × (follow g n c v ≡ (some (nth_cluster g v c n), w))
      × IsSound g w
      × SameTable v w
unfolding follow follow_next nth_cluster
follow_lem g zero c v fit s h =
    (v, refl, s, record { same_disk = refl; same_count = refl; same_hint = refl })
follow_lem g (suc n) c v fit s h =
    let r = read_fat_value-fat_entry g v c fit s (h 0 (omega arith)).0 in
    let t =
      follow_lem g n (fat_entry g v 0 c) r.0 fit r.2
        (Reaches-same g v r.0 _ n r.3 (Reaches-next g v c n h)) in
    (
      t.0,
      rw (r.1, (h 0 (omega arith)).1) (t.1 ∙ ap (λ x. (some x, t.0)) (nth_same g v r.0 _ n r.3)),
      t.2,
      SameTable-trans v r.0 t.0 r.3 t.3,
    )

Reaches-less : (g : Geometry) (v : Volume) (c m n : ℕ) → m ≤ n → Reaches g v c n → Reaches g v c m
Reaches-less g v c m n le h j lt = h j (omega arith)

-- The chain from its `a`th cluster on.
pub Reaches-from :
    (g : Geometry) (v : Volume) (c a n : ℕ)
    → Reaches g v c (a + n)
    → Reaches g v (nth_cluster g v c a) n
Reaches-from g v c a n h j lt =
    let r = h (a + j) (omega arith) in
    let e : a + suc j ≡ suc (a + j) = omega arith in
    (
      subst (HasEntry g) (nth_add g v c a j) r.0,
      ap is_data_cluster (sym (nth_add g v c a (suc j)) ∙ ap (nth_cluster g v c) e) ∙ r.1,
    )

-- The descriptor's position is one of its chain.
abbrev pub IsPlaced : Geometry → Volume → FileDescriptor → Type 0
IsPlaced g v file =
    file.cluster_cache_valid ≡ true
    → file.cluster_cache_value ≡ nth_cluster g v file.first_cluster file.cluster_cache_index

-- The descriptor once the cluster is found.
abbrev pub placed_at : FileDescriptor → ℕ → ℕ → FileDescriptor
placed_at file index cluster = record file {
  cluster_cache_valid = true;
  cluster_cache_index = index;
  cluster_cache_value = cluster;
}

-- For a file that is not empty, whose remembered position is one of its chain, and whose chain goes on
-- for `index` links, the cluster of the index is found, from the remembered position or from the start:
-- it is the one that `index` links lead to, and the descriptor remembers it. Only the volume's cache
-- changes.
pub cluster_for_file_offset-nth_cluster :
    (g : Geometry) (v : Volume) (file : FileDescriptor) (index : ℕ)
    → IsFit g
    → IsSound g v
    → file.valid ≡ true
    → file.size ≢ 0
    → IsPlaced g v file
    → Reaches g v file.first_cluster index
    → (w : Volume) × (cluster_for_file_offset g v file index ≡ (
      some (
        nth_cluster g v file.first_cluster index,
        placed_at file index (nth_cluster g v file.first_cluster index),
      ),
      w,
    ))
      × IsSound g w
      × SameTable v w
unfolding cluster_for_file_offset remember
cluster_for_file_offset-nth_cluster g v file index fit s valid size placed h =
    let nonzero = ==_of_ne file.size 0 size in
    elim (Bool-cases (may_resume file index)) [
      | inl q ↦
          (let b = and_parts file.cluster_cache_valid _ q in
            let le = leb→le file.cluster_cache_index index b.1 in
            let e : file.cluster_cache_index + (index - file.cluster_cache_index) ≡ index =
              omega arith in
            let at = placed b.0 in
            let rest =
              Reaches-from g v file.first_cluster file.cluster_cache_index
                (index - file.cluster_cache_index)
                (subst (Reaches g v file.first_cluster) (sym e) h) in
            let t =
              follow_lem g (index - file.cluster_cache_index) file.cluster_cache_value v fit s
                (subst (λ c. Reaches g v c (index - file.cluster_cache_index)) (sym at) rest) in
            let same =
              ap (λ c. nth_cluster g v c (index - file.cluster_cache_index)) at
              ∙ sym (
                  nth_add g v file.first_cluster file.cluster_cache_index
                    (index - file.cluster_cache_index))
              ∙ ap (nth_cluster g v file.first_cluster) e in
            (t.0, rw (valid, nonzero, q, t.1, same) refl, t.2, t.3))
      | inr q ↦
          (let t = follow_lem g index file.first_cluster v fit s h in
            (t.0, rw (valid, nonzero, q, t.1) refl, t.2, t.3))
    ]
