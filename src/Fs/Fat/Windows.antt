-- ===== src/Fs/Fat/Windows.antt =====
-- Clusters and sectors as windows of a file: divisions by the size of a cluster.
use vkernel.Common.{ℕ, ◌+◌, ◌-◌, ◌*◌, ◌/◌, ◌%◌, ◌≤◌, ◌<◌, ◌≡◌, ap, ◌∙◌, arith}
use native.Mathlib.Nat.{
  div-add-mod, mul-add-div, mul-add-mod_self_left, div-eq_of_lt, mod-eq_of_lt, mul_assoc, mul_comm,
  add-mul,
}
use vkernel.Fs.Fat.Volume.{Geometry, sector_bytes, cluster_first_lba}
use vkernel.Fs.Fat.Files.{cluster_size_bytes}

-- Bytes of one window.
pub div_within :
    (a k n : ℕ) → 0 < n → a % n + k < n → ((a + k) / n ≡ a / n) × ((a + k) % n ≡ a % n + k)
div_within a k n pos lt =
    let d = div-add-mod a n in
    let e : a + k ≡ n * (a / n) + (a % n + k) = omega arith in
    let zero_quotient = div-eq_of_lt lt in
    (
      ap (λ x. x / n) e
          ∙ mul-add-div pos (a / n) (a % n + k)
          ∙ (let r : a / n + (a % n + k) / n ≡ a / n = omega arith in r),
      ap (λ x. x % n) e ∙ mul-add-mod_self_left n (a / n) (a % n + k) ∙ mod-eq_of_lt lt,
    )

-- Bytes behind the start of a window.
pub div_behind :
    (a k n : ℕ) → 0 < n → a % n ≡ 0 → ((a + k) / n ≡ a / n + k / n) × ((a + k) % n ≡ k % n)
div_behind a k n pos h =
    let d = div-add-mod a n in
    let e : a + k ≡ n * (a / n) + k = omega arith in
    (
      ap (λ x. x / n) e ∙ mul-add-div pos (a / n) k,
      ap (λ x. x % n) e ∙ mul-add-mod_self_left n (a / n) k,
    )

-- The sectors of adjacent clusters follow each other.
pub sector_of_run :
    (g : Geometry) (c k : ℕ)
    → 2 ≤ c
    → (cluster_first_lba g c + k / sector_bytes
        ≡ cluster_first_lba g (c + k / cluster_size_bytes g)
          + k % cluster_size_bytes g / sector_bytes)
      × (k % sector_bytes ≡ k % cluster_size_bytes g % sector_bytes)
sector_of_run g c k h =
    let n = cluster_size_bytes g in
    let d = div-add-mod k n in
    let m = mul_assoc 512 g.sectors_per_cluster (k / n) in
    let m' = mul_comm g.sectors_per_cluster (k / n) in
    let q = add-mul (c - 2) (k / n) g.sectors_per_cluster in
    let r : (c + k / n - 2) * g.sectors_per_cluster ≡ (c - 2 + k / n) * g.sectors_per_cluster =
      ap (λ x. x * g.sectors_per_cluster)
        (let e : c + k / n - 2 ≡ c - 2 + k / n = omega arith in e) in
    (omega (arith, d, m, m', q, r), omega (arith, d, m))
