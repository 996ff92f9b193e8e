-- ===== src/Fs/Fat/WholeReads.antt =====
-- `read_file_data` of src/fs/fat32.cpp against the bytes of the file's chain.
use vkernel.Common.{
  ==_cases, ℕ, zero, suc, ◌+◌, ◌-◌, ◌*◌, ◌/◌, ◌%◌, ◌≤◌, ◌<◌, ◌≡◌, refl, sym, ap, subst, ◌∙◌, true,
  false, some, if◌then◌else◌, leb, ==_refl, ==_iff, ==_of_ne, lt→ltb, leb→le, Bool-cases,
  true-ne-false, inl, inr, arith,
}
use native.Mathlib.Nat.{mul-div_left, mul-mod_left, add-mul}
use vkernel.Fs.Fat.Volume.{Geometry, Volume, is_data_cluster, sector_bytes, cluster_first_lba}
use vkernel.Fs.Fat.Table.{read_fat_value}
use vkernel.Fs.Fat.Files.{
  FileDescriptor, ClusterRun, Buffer, cluster_size_bytes, collect_cluster_run, read_cluster_bytes,
}
use vkernel.Fs.Fat.WholeFiles.{
  DataRead, go_on, behind_data, data_run, data_tail, data_loop, read_file_data,
}
use vkernel.Fs.Fat.Reading.{
  IsFit, IsSound, HasEntry, fat_entry, SameTable, read_fat_value-fat_entry,
}
use vkernel.Fs.Fat.Allocation.{SameTable-trans, same_entry}
use vkernel.Fs.Fat.Following.{nth_cluster, nth_same, nth_add, nth_suc}
use vkernel.Fs.Fat.Runs.{IsRun, KnowsNext, collect_cluster_run-Collected}
use vkernel.Fs.Fat.Fills.{IsFilled, IsFilled-append, IsFilled-bytes, disk_bytes}
use vkernel.Fs.Fat.ClusterBytes.{read_cluster_bytes-IsFilled}
use vkernel.Fs.Fat.Windows.{div_within}
use vkernel.Fs.Fat.Stored.{file_byte, IsStored, file_byte-same, IsStored-same, window_pos}
use vkernel.Fs.Fat.Ranges.{run_filled, most_pos, run-Reaches}

-- A descriptor for the file that is read.
abbrev as_file : ℕ → ℕ → FileDescriptor
as_file first size = record {
  valid = true;
  first_cluster = first;
  size = size;
  cluster_cache_valid = false;
  cluster_cache_index = 0;
  cluster_cache_value = 0;
}

-- The bytes of the file from `copied` on are in the buffer.
abbrev HasData : Geometry → Volume → ℕ → ℕ → ℕ → Buffer → DataRead → Type 0
HasData g v first size copied buffer r =
    (b : Buffer) × (w : Volume) × (r ≡ (some b, w))
    × IsFilled buffer copied (size - copied) (λ k. file_byte g v first (copied + k)) b
    × IsSound g w
    × SameTable v w

leb→lt : (a b : ℕ) → leb a b ≡ false → b < a
leb→lt a b h = ground arith

module _ (g : Geometry) (fit : IsFit g) (first size : ℕ) where
  -- The last part of the file.
  tail_byte :
      (v : Volume) (n copied k : ℕ)
      → IsStored g v first size
      → copied ≡ n * cluster_size_bytes g
      → k < cluster_size_bytes g
      → disk_bytes v (cluster_first_lba g (nth_cluster g v first n)) 0 k
        ≡ file_byte g v first (copied + k)
  unfolding file_byte
  tail_byte v n copied k stored e lt =
      let m = cluster_size_bytes g in
      let pos = window_pos g stored.some_sector in
      let no_rest : copied % m ≡ 0 = ap (λ x. x % m) e ∙ mul-mod_left n m in
      let at_n : copied / m ≡ n = ap (λ x. x / m) e ∙ mul-div_left n pos in
      let b = div_within copied k m pos (omega arith) in
      let low : (copied + k) % m ≡ 0 + k = b.1 ∙ ap (λ x. x + k) no_rest in
      ap
        (λ r.
          v.disk (cluster_first_lba g (nth_cluster g v first n) + r / sector_bytes)
            (r % sector_bytes))
        (sym low)
      ∙ ap
          (λ q.
            v.disk (cluster_first_lba g (nth_cluster g v first q) + (copied + k) % m / sector_bytes)
              ((copied + k) % m % sector_bytes))
          (sym at_n ∙ sym b.0)

  tail_HasData :
      (v : Volume) (n copied : ℕ) (cluster : ℕ) (buffer : Buffer)
      → IsSound g v
      → IsStored g v first size
      → cluster ≡ nth_cluster g v first n
      → copied ≡ n * cluster_size_bytes g
      → copied < size
      → leb (cluster_size_bytes g) (size - copied) ≡ false
      → HasData g v first size copied buffer
          (data_tail size (read_cluster_bytes g v cluster 0 buffer copied (size - copied)) v)
  unfolding data_tail
  tail_HasData v n copied cluster buffer s stored e at lt q =
      let within : n * cluster_size_bytes g < size = omega arith in
      let short : size - copied < cluster_size_bytes g = ground arith in
      let r =
        read_cluster_bytes-IsFilled g v cluster 0 buffer copied (size - copied)
          (ap is_data_cluster e ∙ stored.is_data n within)
          (λ i li.
            ap (λ c. g.readable (cluster_first_lba g c + i)) e ∙ stored.can_read_data n i within li)
          (omega arith) (omega arith) in
      (
        r.0,
        v,
        rw (r.1, ==_refl size) refl,
        IsFilled-bytes buffer copied (size - copied) _ _ _ r.2 (λ k l.
            ap (λ c. disk_bytes v (cluster_first_lba g c) 0 k) e
            ∙ tail_byte v n copied k stored at (omega arith)),
        s,
        record { same_disk = refl; same_count = refl; same_hint = refl },
      )

  -- The cluster behind a run, whether the run knows it or not.
  next_found :
      (v w : Volume) (c : ℕ) (run : ClusterRun)
      → IsSound g w
      → SameTable v w
      → IsRun g v c run
      → KnowsNext g v c run
      → HasEntry g (nth_cluster g v c (run.cluster_count - 1))
      → (x : Volume) × ((if is_data_cluster run.next_cluster
            then (some run.next_cluster, w)
            else read_fat_value g w run.last_cluster)
          ≡ (some (nth_cluster g v c run.cluster_count), x))
        × IsSound g x
        × SameTable w x
  next_found v w c run s e h next has = elim (Bool-cases (is_data_cluster run.next_cluster)) [
    | inl q ↦ (
      w,
      rw q (
          ap (λ x. (some x, w))
            (elim next [
              | inl eoc ↦ absurd (true-ne-false (sym q ∙ ap is_data_cluster eoc))
              | inr known ↦ known
            ])),
      s,
      record { same_disk = refl; same_count = refl; same_hint = refl },
    )
    | inr q ↦
        (let pos = h.some_cluster in
          let ends = h.ends in
          let adj = h.adjacent (run.cluster_count - 1) (omega arith) in
          let last_is : nth_cluster g v c (run.cluster_count - 1) ≡ run.last_cluster =
            omega arith in
          let whole : suc (run.cluster_count - 1) ≡ run.cluster_count = omega arith in
          let r =
            read_fat_value-fat_entry g w run.last_cluster fit s (subst (HasEntry g) last_is has) in
          let value =
            same_entry g v w 0 run.last_cluster e
            ∙ ap (fat_entry g v 0) (sym last_is)
            ∙ sym (nth_suc g v c (run.cluster_count - 1))
            ∙ ap (nth_cluster g v c) whole in
          (r.0, rw q (r.1 ∙ ap (λ x. (some x, r.0)) value), r.2, r.3))
  ]

  -- A run of the file was read, and the rest of the file is.
  join_HasData :
      (v w : Volume) (copied n : ℕ) (buffer b : Buffer) (r : DataRead)
      → SameTable v w
      → copied + n ≤ size
      → IsFilled buffer copied n (λ k. file_byte g v first (copied + k)) b
      → HasData g w first size (copied + n) b r
      → HasData g v first size copied buffer r
  join_HasData v w copied n buffer b r e le here (b', x, q, later, s, e') =
      let total : n + (size - (copied + n)) ≡ size - copied = omega arith in
      (
        b',
        x,
        q,
        subst (λ m. IsFilled buffer copied m (λ k. file_byte g v first (copied + k)) b') total
            (IsFilled-append buffer copied n (size - (copied + n))
              (λ k. file_byte g v first (copied + k)) b b' here
              (IsFilled-bytes b (copied + n) (size - (copied + n)) _
                (λ k. file_byte g v first (copied + (n + k))) b' later
                (λ k lt.
                  file_byte-same g v w first (copied + n + k) e
                  ∙ ap (file_byte g v first)
                      (let z : copied + n + k ≡ copied + (n + k) = omega arith in z)))),
        s,
        SameTable-trans v w x e e',
      )

  -- The loop is right with some fuel.
  abbrev LoopReads : ℕ → Type 0
  LoopReads fuel =
      (n copied cluster : ℕ) (buffer : Buffer) (v : Volume)
      → IsSound g v
      → IsStored g v first size
      → cluster ≡ nth_cluster g v first n
      → copied ≡ n * cluster_size_bytes g
      → copied < size
      → size ≤ copied + fuel
      → HasData g v first size copied buffer (data_loop g fuel size cluster copied buffer v)

  -- Behind a run of the chain the loop is at its end, or goes on with the rest of the chain.
  after_run :
      (fuel n copied c : ℕ) (buffer b : Buffer) (v w : Volume) (run : ClusterRun)
      → LoopReads fuel
      → IsSound g w
      → IsStored g v first size
      → c ≡ nth_cluster g v first n
      → copied ≡ n * cluster_size_bytes g
      → SameTable v w
      → IsRun g v c run
      → KnowsNext g v c run
      → copied + run.cluster_count * cluster_size_bytes g ≤ size
      → size ≤ copied + suc fuel
      → cluster_size_bytes g ≤ run.cluster_count * cluster_size_bytes g
      → IsFilled buffer copied
          (run.cluster_count * cluster_size_bytes g)
          (λ k. file_byte g v first (copied + k))
          b
      → HasData g v first size copied buffer (
          behind_data g size run
            (copied + run.cluster_count * cluster_size_bytes g)
            (some b)
            w
            (λ c o b w. data_loop g fuel size c o b w))
  unfolding behind_data go_on
  after_run fuel n copied c buffer b v w run ih s stored on_chain at e h known fits enough grows
        filled =
      let m = cluster_size_bytes g in
      let cnt = run.cluster_count in
      let got = copied + cnt * m in
      let pos = window_pos g stored.some_sector in
      elim (Bool-cases (leb size got)) [
        | inl full ↦
            (let z = leb→le size got full in
              let all : got ≡ size = omega arith in
              (
                b,
                w,
                rw (full, (==_iff got size).1 all) refl,
                subst (λ x. IsFilled buffer copied x (λ k. file_byte g v first (copied + k)) b)
                    (let y : cnt * m ≡ size - copied = omega arith in y) filled,
                s,
                e,
              ))
        | inr part ↦
            (let some_cluster = h.some_cluster in
              let less = leb→lt size got part in
              let split = add-mul n cnt m in
              let placed : got ≡ (n + cnt) * m = omega (arith, split, at) in
              let before : n + (cnt - 1) + 1 ≡ n + cnt = omega (arith, some_cluster) in
              let before_m = ap (λ x. x * m) before in
              let has =
                subst (HasEntry g)
                  (nth_add g v first n (cnt - 1)
                    ∙ ap (λ y. nth_cluster g v y (cnt - 1)) (sym on_chain))
                  (stored.has_entry (n + (cnt - 1)) (omega (arith, before_m, placed, less))) in
              let nf = next_found v w c run s e h known has in
              let tv = SameTable-trans v w nf.0 e nf.3 in
              let behind =
                ap (λ y. nth_cluster g v y cnt) on_chain ∙ sym (nth_add g v first n cnt) in
              let data_next =
                ap is_data_cluster behind
                ∙ stored.is_data (n + cnt) (omega (arith, placed, less)) in
              let rest =
                ih (n + cnt) got (nth_cluster g v c cnt) b nf.0 nf.2
                  (IsStored-same g v nf.0 first size tv stored)
                  (behind ∙ sym (nth_same g v nf.0 first (n + cnt) tv)) placed less
                  (omega (arith, grows, pos, enough)) in
              let joined = join_HasData v nf.0 copied (cnt * m) buffer b _ tv fits filled rest in
              (
                joined.0,
                joined.1,
                rw (part, nf.1, data_next) joined.2,
                joined.3,
                joined.4,
                joined.5,
              ))
      ]

  run_HasData :
      (fuel n copied cluster : ℕ) (buffer : Buffer) (v : Volume)
      → LoopReads fuel
      → IsSound g v
      → IsStored g v first size
      → cluster ≡ nth_cluster g v first n
      → copied ≡ n * cluster_size_bytes g
      → copied < size
      → size ≤ copied + suc fuel
      → leb (cluster_size_bytes g) (size - copied) ≡ true
      → HasData g v first size copied buffer (
          data_run g size copied buffer
            (collect_cluster_run g v cluster ((size - copied) / cluster_size_bytes g))
            (λ c o b w. data_loop g fuel size c o b w))
  unfolding data_run
  run_HasData fuel n copied cluster buffer v ih s stored e at lt enough q =
      let m = cluster_size_bytes g in
      let pos = window_pos g stored.some_sector in
      let file = as_file first size in
      let same : SameTable v v = record { same_disk = refl; same_count = refl; same_hint = refl } in
      let place : 0 + copied ≡ n * m = omega arith in
      let at_n : (0 + copied) / m ≡ n = ap (λ x. x / m) place ∙ mul-div_left n pos in
      let start : (0 + copied) % m ≡ 0 = ap (λ x. x % m) place ∙ mul-mod_left n m in
      let c = nth_cluster g v first ((0 + copied) / m) in
      let is_c : cluster ≡ c = e ∙ ap (nth_cluster g v first) (sym at_n) in
      let inside : 0 + size ≤ size = omega arith in
      let within : (0 + copied) / m * m < size = (let z = ap (λ x. x * m) at_n in omega arith) in
      let few = most_pos g v file 0 copied size buffer fit stored lt inside v same s q in
      let r =
        collect_cluster_run-Collected g v c ((size - copied) / m) fit s (stored.is_data _ within)
          few (run-Reaches g v file 0 copied size buffer fit stored lt inside v same s few) in
      let run = r.0 in
      let w = r.1 in
      let t =
        run_filled g v file 0 copied size buffer fit stored lt inside v same s run w start r.3 r.4
          r.7 in
      let grows = t.3 in
      let fits = t.4 in
      let filled =
        subst
          (λ x.
            IsFilled buffer copied (run.cluster_count * m) (λ k. file_byte g v first (x + k)) t.0)
          (let z : 0 + copied ≡ copied = omega arith in z) t.2 in
      let found : collect_cluster_run g v cluster ((size - copied) / m) ≡ (some run, w) =
        ap (λ x. collect_cluster_run g v x ((size - copied) / m)) is_c ∙ r.2 in
      let on_chain : c ≡ nth_cluster g v first n = ap (nth_cluster g v first) at_n in
      let done =
        after_run fuel n copied c buffer t.0 v w run ih r.6 stored on_chain at r.7 r.3 r.5
          (omega (arith, fits, lt)) enough grows filled in
      (done.0, done.1, rw (found, t.1) done.2, done.3, done.4, done.5)

  data_loop_lem : (fuel : ℕ) → LoopReads fuel
  unfolding data_loop
  data_loop_lem zero n copied cluster buffer v s stored e at lt enough = absurd (omega arith)
  data_loop_lem (suc fuel) n copied cluster buffer v s stored e at lt enough =
      let m = cluster_size_bytes g in
      let within : n * m < size = omega arith in
      let data_here = ap is_data_cluster e ∙ stored.is_data n within in
      let more = lt→ltb copied size lt in
      elim (Bool-cases (leb m (size - copied))) [
        | inr q ↦
            (let t = tail_HasData v n copied cluster buffer s stored e at lt q in
              (t.0, t.1, rw (data_here, more, q) t.2, t.3, t.4, t.5))
        | inl q ↦
            (let t =
                run_HasData fuel n copied cluster buffer v (data_loop_lem fuel) s stored e at lt
                  enough q in
              (t.0, t.1, rw (data_here, more, q) t.2, t.3, t.4, t.5))
      ]

-- On a sound volume whose table fits the device, the read of a whole file whose chain reaches as far as its size, over sectors that can be read, into
-- a block that the heap has: it succeeds, and the block holds the file's bytes in order, however the
-- clusters are spread over the disk. Only the volume's cache changes.
pub read_file_data-file_byte :
    (g : Geometry) (v : Volume) (first size : ℕ) (block : Buffer)
    → IsFit g
    → IsSound g v
    → IsStored g v first size
    → (b : Buffer) × (w : Volume) × (read_file_data g v size first (some block) ≡ (some b, w))
      × ((k : ℕ) → k < size → b k ≡ file_byte g v first k)
      × IsSound g w
      × SameTable v w
unfolding read_file_data nth_cluster
read_file_data-file_byte g v first size block fit s stored = elim (==_cases size 0) [
  | inl none_left ↦ (
    (λ i. 0),
    v,
    rw ((==_iff size 0).1 none_left) refl,
    λ k lt. absurd (omega arith),
    s,
    record { same_disk = refl; same_count = refl; same_hint = refl },
  )
  | inr some_left ↦
      (let data_first : is_data_cluster first ≡ true = stored.is_data 0 (omega arith) in
        let t =
          data_loop_lem g fit first size size 0 0 first block v s stored refl (omega arith)
            (omega arith) (omega arith) in
        (
          t.0,
          t.1,
          rw (==_of_ne size 0 some_left, data_first) t.2,
          λ k lt.
              (let z : 0 + k ≡ k = omega arith in
                subst (λ i. t.0 i ≡ file_byte g v first i) z (t.3.0 k (omega arith))),
          t.4,
          t.5,
        ))
]
