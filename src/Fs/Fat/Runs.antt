-- ===== src/Fs/Fat/Runs.antt =====
-- Runs of adjacent clusters: `collect_cluster_run` of src/fs/fat32.cpp.
use vkernel.Common.{
  ℕ, zero, suc, ◌+◌, ◌-◌, ◌%◌, ◌^◌, ◌≤◌, ◌<◌, ◌≡◌, ◌⊎◌, refl, sym, ap, subst, ◌∙◌, true, Option,
  some, ==_cases, ==_of_ne, ==_iff, inl, inr, arith,
}
use vkernel.Fs.Fat.Volume.{Geometry, Volume, is_data_cluster, end_of_chain}
use vkernel.Fs.Fat.Files.{ClusterRun, run_next, run_loop, collect_cluster_run}
use vkernel.Fs.Fat.Reading.{
  IsFit, IsSound, HasEntry, fat_entry, SameTable, read_fat_value-fat_entry,
}
use vkernel.Fs.Fat.Allocation.{same_entry, SameTable-trans}
use vkernel.Fs.Fat.Following.{nth_cluster, nth_same, nth_suc, Reaches}

-- The first clusters of the chain from `c` on are adjacent, and the run ends with them.
pub record IsRun (g : Geometry) (v : Volume) (c : ℕ) (run : ClusterRun) : Type 0 where
  pub begins : run.first_cluster ≡ c
  pub some_cluster : 0 < run.cluster_count
  pub adjacent : (j : ℕ) → j < run.cluster_count → nth_cluster g v c j ≡ c + j
  pub ends : run.last_cluster + 1 ≡ c + run.cluster_count

-- Where the run stops short of its bound, its next cluster is the one behind it.
abbrev pub KnowsNext : Geometry → Volume → ℕ → ClusterRun → Type 0
KnowsNext g v c run =
    (run.next_cluster ≡ end_of_chain) ⊎ (run.next_cluster ≡ nth_cluster g v c run.cluster_count)

abbrev longer : ClusterRun → ℕ → ClusterRun
longer run last = record run { last_cluster = last; cluster_count = run.cluster_count + 1 }

longer-IsRun :
    (g : Geometry) (v : Volume) (c : ℕ) (run : ClusterRun) (last : ℕ)
    → IsRun g v c run
    → last ≡ run.last_cluster + 1
    → last ≡ nth_cluster g v c run.cluster_count
    → IsRun g v c (longer run last)
longer-IsRun g v c run last h e q =
    let n = h.ends in
    record {
      begins = h.begins;
      some_cluster = omega arith;
      adjacent = λ j lt. elim (==_cases j run.cluster_count) [
        | inl r ↦ ap (nth_cluster g v c) r ∙ sym q ∙ e ∙ n ∙ ap (λ x. c + x) (sym r)
        | inr ne ↦ h.adjacent j (omega arith)
      ];
      ends = omega arith;
    }

IsRun-same :
    (g : Geometry) (v w : Volume) (c : ℕ) (run : ClusterRun)
    → SameTable v w
    → IsRun g v c run
    → IsRun g w c run
IsRun-same g v w c run e h = record {
  begins = h.begins;
  some_cluster = h.some_cluster;
  adjacent = λ j lt. nth_same g v w c j e ∙ h.adjacent j lt;
  ends = h.ends;
}

start-IsRun :
    (g : Geometry) (v : Volume) (c : ℕ)
    → IsRun g v c record {
      first_cluster = c;
      last_cluster = c;
      cluster_count = 1;
      next_cluster = end_of_chain;
    }
unfolding nth_cluster
start-IsRun g v c = record {
  begins = refl;
  some_cluster = omega arith;
  adjacent = λ j lt.
      (let e : j ≡ 0 = omega arith in
        ap (nth_cluster g v c) e ∙ (let z : c ≡ c + j = omega arith in z));
  ends = refl;
}

-- What the loop makes of a run.
abbrev pub Collected : Geometry → Volume → ℕ → ℕ → Option ClusterRun × Volume → Type 0
Collected g v c most r =
    (run : ClusterRun) × (w : Volume) × (r ≡ (some run, w))
    × IsRun g v c run
    × (run.cluster_count ≤ most)
    × KnowsNext g v c run
    × IsSound g w
    × SameTable v w

run_loop-Collected :
    (g : Geometry) (v : Volume) (c n : ℕ) (run : ClusterRun) (u : Volume)
    → IsFit g
    → IsSound g u
    → SameTable v u
    → IsRun g v c run
    → run.next_cluster ≡ end_of_chain
    → ((j : ℕ) → j + 1 < run.cluster_count + n → HasEntry g (nth_cluster g v c j))
    → Collected g v c (run.cluster_count + n) (run_loop g n run u)
unfolding run_loop run_next
run_loop-Collected g v c zero run u fit s e h eoc has =
    (run, u, refl, h, omega arith, inl eoc, s, e)
run_loop-Collected g v c (suc n) run u fit s e h eoc has =
    let lst = h.adjacent (run.cluster_count - 1) (let p = h.some_cluster in omega arith) in
    let last_is : nth_cluster g v c (run.cluster_count - 1) ≡ run.last_cluster =
      (let p = h.some_cluster in let q = h.ends in omega arith) in
    let entry =
      subst (HasEntry g) last_is
        (has (run.cluster_count - 1) (let p = h.some_cluster in omega arith)) in
    let whole : suc (run.cluster_count - 1) ≡ run.cluster_count =
      (let p = h.some_cluster in omega arith) in
    let r = read_fat_value-fat_entry g u run.last_cluster fit s entry in
    let behind : fat_entry g u 0 run.last_cluster ≡ nth_cluster g v c run.cluster_count =
      same_entry g v u 0 run.last_cluster e
      ∙ ap (fat_entry g v 0) (sym last_is)
      ∙ sym (nth_suc g v c (run.cluster_count - 1))
      ∙ ap (nth_cluster g v c) whole in
    elim (==_cases (fat_entry g u 0 run.last_cluster) ((run.last_cluster + 1) % 2 ^ 32)) [
      | inr ne ↦ (
        record run { next_cluster = fat_entry g u 0 run.last_cluster },
        r.0,
        rw (r.1, ==_of_ne _ _ ne) refl,
        record {
          begins = h.begins;
          some_cluster = h.some_cluster;
          adjacent = h.adjacent;
          ends = h.ends;
        },
        omega arith,
        inr behind,
        r.2,
        SameTable-trans v u r.0 e r.3,
      )
      | inl q ↦
          (let x = fat_entry g u 0 run.last_cluster in
            let lt = entry.0 in
            let next : x ≡ run.last_cluster + 1 = omega arith in
            let t =
              run_loop-Collected g v c n (longer run x) r.0 fit r.2 (SameTable-trans v u r.0 e r.3)
                (longer-IsRun g v c run x h next behind) eoc (λ j l. has j (omega arith)) in
            let same = (==_iff x ((run.last_cluster + 1) % 2 ^ 32)).1 q in
            (t.0, t.1, rw (r.1, same) t.2, t.3, (let le = t.4 in omega arith), t.5, t.6, t.7))
    ]

-- With a first data cluster and a chain that goes on for `most - 1` links, the run is found: it has from
-- one to `most` clusters, which are the first ones of the chain and follow each other on the disk, and
-- its next cluster is the one behind it in the chain, or the end mark. Only the volume's cache changes.
pub collect_cluster_run-Collected :
    (g : Geometry) (v : Volume) (c most : ℕ)
    → IsFit g
    → IsSound g v
    → is_data_cluster c ≡ true
    → 0 < most
    → Reaches g v c (most - 1)
    → Collected g v c most (collect_cluster_run g v c most)
unfolding collect_cluster_run
collect_cluster_run-Collected g v c most fit s data_first pos h =
    let start : ClusterRun = record {
      first_cluster = c;
      last_cluster = c;
      cluster_count = 1;
      next_cluster = end_of_chain;
    } in
    let t =
      run_loop-Collected g v c (most - 1) start v fit s
        (record { same_disk = refl; same_count = refl; same_hint = refl }) (start-IsRun g v c) refl
        (λ j l. (h j (omega arith)).0) in
    (
      t.0,
      t.1,
      rw (data_first, ==_of_ne most 0 (omega arith)) t.2,
      t.3,
      (let le = t.4 in omega arith),
      t.5,
      t.6,
      t.7,
    )
