-- ===== src/Fs/Fat/Ranges.antt =====
-- One round of `read_file_range` of src/fs/fat32.cpp: a part of a cluster, or a run of clusters.
use vkernel.Common.{
  ℕ, ◌+◌, ◌-◌, ◌*◌, ◌/◌, ◌%◌, ◌^◌, ◌≤◌, ◌<◌, ◌≡◌, refl, sym, ap, subst, ◌∙◌, Bool, true, false,
  ◌&&◌, ◌==◌, some, if◌then◌else◌, ltb, leb, ==_iff, leb→le, Bool-cases, and_parts, inl, inr, arith,
  true-ne-false,
}
use native.Mathlib.Nat.{
  mod-lt, div-add-mod, mul_comm, mul-le-mul_right, div-mul-le_self, add-mul, mul_left_comm,
  div-lt_iff_lt-mul, le-div_iff_mul-le,
}
use vkernel.Fs.Fat.Volume.{Geometry, Volume, is_data_cluster, sector_bytes, cluster_first_lba}
use vkernel.Fs.Fat.Files.{
  FileDescriptor, ClusterRun, Buffer, cluster_size_bytes, read_sectors, read_run, read_chunk,
  range_round, behind_run,
}
use vkernel.Fs.Fat.Reading.{IsFit, IsSound, SameTable}
use vkernel.Fs.Fat.Allocation.{SameTable-trans}
use vkernel.Fs.Fat.Following.{
  nth_cluster, nth_same, nth_add, Reaches, Reaches-from, Reaches-same, IsPlaced, placed_at,
}
use vkernel.Fs.Fat.Runs.{IsRun, KnowsNext, collect_cluster_run-Collected}
use vkernel.Fs.Fat.Fills.{IsFilled, IsFilled-bytes, disk_bytes, read_sectors-IsFilled}
use vkernel.Fs.Fat.ClusterBytes.{read_cluster_bytes-IsFilled}
use vkernel.Fs.Fat.Windows.{div_within, div_behind, sector_of_run}
use vkernel.Fs.Fat.Stored.{file_byte, IsStored, stored-Reaches, Advance, data_le, window_pos}

module _ (g : Geometry) (v : Volume) (file : FileDescriptor) (offset out remaining : ℕ)
    (buffer : Buffer) (fit : IsFit g) (stored : IsStored g v file.first_cluster file.size)
    (more : out < remaining) (inside : offset + remaining ≤ file.size) (u : Volume)
    (same : SameTable v u) (s : IsSound g u) where
  abbrev pub index : ℕ
  index = (offset + out) / cluster_size_bytes g

  abbrev pub start : ℕ
  start = (offset + out) % cluster_size_bytes g

  abbrev pub cluster : ℕ
  cluster = nth_cluster g v file.first_cluster index

  abbrev pub left : ℕ
  left = remaining - out

  pub index_inside : index * cluster_size_bytes g < file.size
  index_inside = let m = div-mul-le_self (offset + out) (cluster_size_bytes g) in omega arith

  abbrev chunk : ℕ
  chunk = if ltb left (cluster_size_bytes g - start) then left else cluster_size_bytes g - start

  start_lt : start < cluster_size_bytes g
  start_lt = mod-lt (offset + out) (window_pos g stored.some_sector)

  chunk_bounds : (0 < chunk) × (start + chunk ≤ cluster_size_bytes g) × (out + chunk ≤ remaining)
  chunk_bounds = let l = start_lt in chunk_facts start (cluster_size_bytes g) out remaining l more
    where
      chunk_facts :
          (r n o t : ℕ)
          → r < n
          → o < t
          → (0 < (if ltb (t - o) (n - r) then t - o else n - r))
            × (r + (if ltb (t - o) (n - r) then t - o else n - r) ≤ n)
            × (o + (if ltb (t - o) (n - r) then t - o else n - r) ≤ t)
      chunk_facts r n o t h q = (ground arith, ground arith, ground arith)

  chunk_byte :
      (k : ℕ)
      → k < chunk
      → disk_bytes u (cluster_first_lba g cluster) start k
        ≡ file_byte g v file.first_cluster (offset + out + k)
  unfolding file_byte
  chunk_byte k lt =
      let c = chunk_bounds in
      let b =
        div_within (offset + out) k (cluster_size_bytes g) (window_pos g stored.some_sector)
          (omega arith) in
      ap
        (λ d.
          d (cluster_first_lba g cluster + (start + k) / sector_bytes) ((start + k) % sector_bytes))
        same.same_disk
      ∙ ap (λ r. v.disk (cluster_first_lba g cluster + r / sector_bytes) (r % sector_bytes))
          (sym b.1)
      ∙ ap
          (λ q.
            v.disk
              (cluster_first_lba g (nth_cluster g v file.first_cluster q)
                + (offset + out + k) % cluster_size_bytes g / sector_bytes)
              ((offset + out + k) % cluster_size_bytes g % sector_bytes))
          (sym b.0)

  abbrev pub placed_here : FileDescriptor
  placed_here = placed_at file index cluster

  pub chunk-Advance :
      (start == 0 && leb (cluster_size_bytes g) left) ≡ false
      → Advance g v file offset out remaining buffer
          (range_round g offset remaining buffer out (some (cluster, placed_here), u))
  unfolding range_round read_chunk
  chunk-Advance q =
      let b = chunk_bounds in
      let r =
        read_cluster_bytes-IsFilled g u cluster start buffer out chunk
          (stored.is_data index index_inside) (λ i li. stored.can_read_data index i index_inside li)
          b.1 b.0 in
      (
        out + chunk,
        placed_here,
        r.0,
        u,
        λ rest. rw (q, r.1) refl,
        omega arith,
        b.2,
        record {
          same_valid = refl;
          same_first = refl;
          same_size = refl;
          placed = λ h. sym (nth_same g v u file.first_cluster index same);
          sound = s;
          same_table = same;
          filled =
              subst
                (λ n.
                  IsFilled buffer out n (λ k. file_byte g v file.first_cluster (offset + out + k))
                    r.0)
                (omega arith) (IsFilled-bytes buffer out chunk _ _ _ r.2 (λ k lt. chunk_byte k lt));
        },
      )

  abbrev most : ℕ
  most = left / cluster_size_bytes g

  -- A run of `count` clusters of the chain, adjacent on the disk, from the round's cluster on.
  module _ (aligned : start ≡ 0) (w : Volume) (same_w : SameTable v w) (count : ℕ)
      (fits : count ≤ most)
      (adjacent : (j : ℕ) → j < count → nth_cluster g v cluster j ≡ cluster + j) where
    run_bytes : count * cluster_size_bytes g ≤ left
    run_bytes =
        let a = mul-le-mul_right (cluster_size_bytes g) fits in
        let b = div-mul-le_self left (cluster_size_bytes g) in omega (arith, a, b)

    run_index_inside : (j : ℕ) → j < count → (index + j) * cluster_size_bytes g < file.size
    run_index_inside j lt =
        let n = cluster_size_bytes g in
        let a = add-mul index j n in
        let b = mul-le-mul_right n (let q : j + 1 ≤ count = omega arith in q) in
        let c = add-mul j 1 n in
        let d = div-mul-le_self (offset + out) n in
        let e = run_bytes in
        let p = window_pos g stored.some_sector in omega (arith, a, b, c, d, e, p)

    run_cluster : (j : ℕ) → j < count → nth_cluster g v file.first_cluster (index + j) ≡ cluster + j
    run_cluster j lt = nth_add g v file.first_cluster index j ∙ adjacent j lt

    two_le : 2 ≤ cluster
    two_le = data_le cluster (stored.is_data index index_inside)

    sector_count : count * g.sectors_per_cluster % 2 ^ 32 ≡ count * g.sectors_per_cluster
    sector_count =
        let a = mul_left_comm count 512 g.sectors_per_cluster in
        let e = run_bytes in let z = stored.size_lt in omega (arith, a, e, z)

    sector_bytes_of_run :
        count * g.sectors_per_cluster * sector_bytes ≡ count * cluster_size_bytes g
    sector_bytes_of_run = let a = mul_left_comm count 512 g.sectors_per_cluster in omega (arith, a)

    run_readable :
        (i : ℕ)
        → cluster_first_lba g cluster ≤ i
        → i < cluster_first_lba g cluster + count * g.sectors_per_cluster
        → g.readable i ≡ true
    run_readable i lo hi =
        let n = g.sectors_per_cluster in
        let x = i - cluster_first_lba g cluster in
        let lt =
          (div-lt_iff_lt-mul stored.some_sector).1 (let q : x < count * n = omega arith in q) in
        let r =
          stored.can_read_data (index + x / n) (x % n) (run_index_inside (x / n) lt)
            (mod-lt x stored.some_sector) in
        let here = ap (λ c. g.readable (cluster_first_lba g c + x % n)) (run_cluster (x / n) lt) in
        let d = div-add-mod x n in
        let m = mul_comm n (x / n) in
        let q = add-mul (cluster - 2) (x / n) n in
        let t = two_le in
        let z : (cluster + x / n - 2) * n ≡ (cluster - 2 + x / n) * n =
          ap (λ y. y * n) (let e : cluster + x / n - 2 ≡ cluster - 2 + x / n = omega arith in e) in
        let at : cluster_first_lba g (cluster + x / n) + x % n ≡ i =
          omega (arith, d, m, q, z, lo) in
        ap g.readable (sym at) ∙ sym here ∙ r

    run_byte :
        (k : ℕ)
        → k < count * g.sectors_per_cluster * sector_bytes
        → disk_bytes w (cluster_first_lba g cluster) 0 k
          ≡ file_byte g v file.first_cluster (offset + out + k)
    unfolding file_byte
    run_byte k lt =
        let n = cluster_size_bytes g in
        let b = div_behind (offset + out) k n (window_pos g stored.some_sector) aligned in
        let e = sector_bytes_of_run in
        let j_lt =
          (div-lt_iff_lt-mul (window_pos g stored.some_sector)).1
            (let q : k < count * n = omega (arith, e, lt) in q) in
        let t = sector_of_run g cluster k two_le in
        let zk : 0 + k ≡ k = omega arith in
        ap (λ x. w.disk (cluster_first_lba g cluster + x / sector_bytes) (x % sector_bytes)) zk
        ∙ ap (λ d. d (cluster_first_lba g cluster + k / sector_bytes) (k % sector_bytes))
            same_w.same_disk
        ∙ ap (λ l. v.disk l (k % sector_bytes)) t.0
        ∙ ap (v.disk (cluster_first_lba g (cluster + k / n) + k % n / sector_bytes)) t.1
        ∙ ap (λ c. v.disk (cluster_first_lba g c + k % n / sector_bytes) (k % n % sector_bytes))
            (sym (run_cluster (k / n) j_lt))
        ∙ ap
            (λ r.
              v.disk
                (cluster_first_lba g (nth_cluster g v file.first_cluster (index + k / n))
                  + r / sector_bytes)
                (r % sector_bytes))
            (sym b.1)
        ∙ ap
            (λ q.
              v.disk
                (cluster_first_lba g (nth_cluster g v file.first_cluster q)
                  + (offset + out + k) % n / sector_bytes)
                ((offset + out + k) % n % sector_bytes))
            (sym b.0)

  pub most_pos : leb (cluster_size_bytes g) left ≡ true → 0 < most
  most_pos h =
      let a = leb→le (cluster_size_bytes g) left h in
      let b : 1 * cluster_size_bytes g ≤ left = omega arith in
      let c = (le-div_iff_mul-le (window_pos g stored.some_sector)).1 b in omega arith

  pub run-Reaches : 0 < most → Reaches g u cluster (most - 1)
  run-Reaches pos =
      let n = cluster_size_bytes g in
      let a = add-mul index (most - 1) n in
      let b = add-mul (most - 1) 1 n in
      let e : most - 1 + 1 ≡ most = omega arith in
      let e' = ap (λ x. x * n) e in
      let c = div-mul-le_self left n in
      let d = div-mul-le_self (offset + out) n in
      let p = window_pos g stored.some_sector in
      let r =
        stored-Reaches g v file.first_cluster file.size (index + (most - 1)) stored
          (omega (arith, a, b, e', c, d, p)) in
      Reaches-same g v u cluster (most - 1) same
        (Reaches-from g v file.first_cluster index (most - 1) r)

  pub chain_nth :
      (w : Volume)
      → SameTable u w
      → (n : ℕ) → nth_cluster g w file.first_cluster (index + n) ≡ nth_cluster g u cluster n
  chain_nth w e n =
      nth_same g v w file.first_cluster (index + n) (SameTable-trans v u w same e)
      ∙ nth_add g v file.first_cluster index n
      ∙ sym (nth_same g v u cluster n same)

  -- The descriptor behind a run is placed on the chain.
  behind_run-IsPlaced :
      (run : ClusterRun) (w : Volume) (more_left : Bool)
      → SameTable u w
      → IsRun g u cluster run
      → KnowsNext g u cluster run
      → let f = behind_run g placed_here index run more_left in
        (f.valid ≡ file.valid)
        × (f.first_cluster ≡ file.first_cluster)
        × (f.size ≡ file.size)
        × IsPlaced g w f
  behind_run-IsPlaced run w more_left e h next =
      let whole = SameTable-trans v u w same e in
      elim (Bool-cases (is_data_cluster run.next_cluster && more_left)) [
        | inl q ↦ rw q (
          refl,
          refl,
          refl,
          λ p. elim next [
            | inl eoc ↦ absurd (
                true-ne-false (
                  sym (and_parts (is_data_cluster run.next_cluster) more_left q).0
                  ∙ ap is_data_cluster eoc))
            | inr e' ↦ e' ∙ sym (chain_nth w e run.cluster_count)
          ],
        )
        | inr q ↦ rw q (
          refl,
          refl,
          refl,
          λ p.
              (let n = h.ends in
                let pos = h.some_cluster in
                let a : run.last_cluster ≡ cluster + (run.cluster_count - 1) = omega arith in
                let b : index + (run.cluster_count - 1) ≡ index + run.cluster_count - 1 =
                  omega arith in
                a
                ∙ sym (h.adjacent (run.cluster_count - 1) (omega arith))
                ∙ sym (chain_nth w e (run.cluster_count - 1))
                ∙ ap (nth_cluster g w file.first_cluster) b),
        )
      ]

  -- The sectors of a run hold the file's bytes from the round's offset on.
  pub run_filled :
      (run : ClusterRun) (w : Volume)
      → start ≡ 0
      → IsRun g u cluster run
      → run.cluster_count ≤ most
      → SameTable u w
      → (b : Buffer) × (read_sectors g w
            (cluster_first_lba g run.first_cluster)
            (run.cluster_count * g.sectors_per_cluster % 2 ^ 32)
            buffer
            out
          ≡ some b)
        × IsFilled buffer out
            (run.cluster_count * cluster_size_bytes g)
            (λ k. file_byte g v file.first_cluster (offset + out + k))
            b
        × (cluster_size_bytes g ≤ run.cluster_count * cluster_size_bytes g)
        × (run.cluster_count * cluster_size_bytes g ≤ left)
  run_filled run w aligned h few e =
      let same_w = SameTable-trans v u w same e in
      let adjacent : (j : ℕ) → j < run.cluster_count → nth_cluster g v cluster j ≡ cluster + j =
        λ j lt. sym (nth_same g v u cluster j same) ∙ h.adjacent j lt in
      let r =
        read_sectors-IsFilled g w (cluster_first_lba g cluster)
          (run.cluster_count * g.sectors_per_cluster) buffer out
          (run_readable aligned w same_w run.cluster_count few adjacent) in
      let sectors = sector_count aligned w same_w run.cluster_count few adjacent in
      let bytes = sector_bytes_of_run aligned w same_w run.cluster_count few adjacent in
      let one = mul-le-mul_right (cluster_size_bytes g) h.some_cluster in
      (
        r.0,
        ap
              (λ x.
                read_sectors g w (cluster_first_lba g x)
                  (run.cluster_count * g.sectors_per_cluster % 2 ^ 32) buffer out)
              h.begins
            ∙ ap (λ n. read_sectors g w (cluster_first_lba g cluster) n buffer out) sectors
            ∙ r.1,
        subst
            (λ n.
              IsFilled buffer out n (λ k. file_byte g v file.first_cluster (offset + out + k)) r.0)
            bytes
            (IsFilled-bytes buffer out (run.cluster_count * g.sectors_per_cluster * sector_bytes) _
              _ _ r.2 (λ k lt. run_byte aligned w same_w run.cluster_count few adjacent k lt)),
        omega (arith, one),
        run_bytes aligned w same_w run.cluster_count few adjacent,
      )

  -- A run that was collected is read, and the round goes on behind it.
  run_read :
      (run : ClusterRun) (w : Volume)
      → start ≡ 0
      → IsRun g u cluster run
      → run.cluster_count ≤ most
      → KnowsNext g u cluster run
      → IsSound g w
      → SameTable u w
      → Advance g v file offset out remaining buffer
          (read_run g placed_here index remaining buffer out (some run, w))
  unfolding read_run read_chunk
  run_read run w aligned h few next sound e =
      let r = run_filled run w aligned h few e in
      let grows = r.3 in
      let within = r.4 in
      let pos = window_pos g stored.some_sector in
      let got = out + run.cluster_count * cluster_size_bytes g in
      let p = behind_run-IsPlaced run w (ltb got remaining) e h next in
      (
        got,
        behind_run g placed_here index run (ltb got remaining),
        r.0,
        w,
        λ rest.
            ap
              (λ o.
                read_chunk (behind_run g placed_here index run (ltb got remaining)) got o w rest)
              r.1,
        omega (arith, grows, pos),
        omega (arith, within),
        record {
          same_valid = p.0;
          same_first = p.1;
          same_size = p.2;
          placed = p.3;
          sound = sound;
          same_table = SameTable-trans v u w same e;
          filled =
              subst
                (λ n.
                  IsFilled buffer out n (λ k. file_byte g v file.first_cluster (offset + out + k))
                    r.0)
                (omega arith) r.2;
        },
      )

  pub run-Advance :
      (start == 0 && leb (cluster_size_bytes g) left) ≡ true
      → Advance g v file offset out remaining buffer
          (range_round g offset remaining buffer out (some (cluster, placed_here), u))
  unfolding range_round
  run-Advance q =
      let b = and_parts (start == 0) _ q in
      let pos = most_pos b.1 in
      let c =
        collect_cluster_run-Collected g u cluster most fit s (stored.is_data index index_inside) pos
          (run-Reaches pos) in
      let t = run_read c.0 c.1 ((==_iff start 0).0 b.0) c.3 c.4 c.5 c.6 c.7 in
      (t.0, t.1, t.2, t.3, λ rest. rw (q, c.2) (t.4 rest), t.5, t.6, t.7)
