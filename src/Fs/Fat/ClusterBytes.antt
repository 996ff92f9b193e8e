-- ===== src/Fs/Fat/ClusterBytes.antt =====
-- `read_cluster_bytes` of src/fs/fat32.cpp: the part of a sector, whole sectors, and the tail.
use vkernel.Common.{
  ℕ, ◌+◌, ◌-◌, ◌*◌, ◌/◌, ◌%◌, ◌≤◌, ◌<◌, ◌≡◌, ◌≢◌, ◌⊎◌, refl, sym, ap, subst, ◌∙◌, true, false, ◌==◌,
  none, some, if◌then◌else◌, ltb, leb, ==_cases, ==_of_ne, ==_iff, inl, inr, arith,
}
use vkernel.Fs.Fat.Volume.{Geometry, Volume, is_data_cluster, sector_bytes, cluster_first_lba}
use vkernel.Fs.Fat.Files.{
  Buffer, fill, read_sectors, read_part, head_bytes, read_head, read_whole, read_tail,
  read_cluster_bytes, cluster_size_bytes,
}
use vkernel.Fs.Fat.Fills.{
  IsFilled, fill-IsFilled, IsFilled-append, IsFilled-bytes, IsFilled-none, disk_bytes,
  read_sectors-IsFilled,
}

byte_at : (v : Volume) (a b c d : ℕ) → a ≡ c → b ≡ d → v.disk a b ≡ v.disk c d
byte_at v a b c d e q = ap (λ x. v.disk x b) e ∙ ap (v.disk c) q

aligned_sector :
    (s f a k : ℕ)
    → a % sector_bytes ≡ 0
    → s ≡ f + a / sector_bytes
    → (s + (0 + k) / sector_bytes ≡ f + (a + k) / sector_bytes)
      × ((0 + k) % sector_bytes ≡ (a + k) % sector_bytes)
aligned_sector s f a k e q = (omega arith, omega arith)

whole_inside :
    (s f a rest n i : ℕ)
    → s ≡ f + a / sector_bytes
    → a + rest ≤ sector_bytes * n
    → s ≤ i
    → i < s + rest / sector_bytes
    → (i - f < n) × (f + (i - f) ≡ i)
whole_inside s f a rest n i q fits lo hi = (omega arith, omega arith)

-- The last sector of a read that ends inside it.
tail_sector :
    (s f a rest k n : ℕ)
    → a % sector_bytes ≡ 0
    → s ≡ f + a / sector_bytes
    → a + rest ≤ sector_bytes * n
    → k < rest - rest / sector_bytes * sector_bytes
    → (s + rest / sector_bytes ≡ f + (a + rest / sector_bytes * sector_bytes + k) / sector_bytes)
      × (k ≡ (a + rest / sector_bytes * sector_bytes + k) % sector_bytes)
      × (a / sector_bytes + rest / sector_bytes < n)
tail_sector s f a rest k n e q fits lt = (omega arith, omega arith, omega arith)

regroup : (a b c d : ℕ) → a + b + c + d ≡ a + (b + c + d)
regroup a b c d = omega arith

parts_sum :
    (h size : ℕ)
    → h ≤ size
    → h
        + (size - h) / sector_bytes * sector_bytes
        + (size - h - (size - h) / sector_bytes * sector_bytes)
      ≡ size
parts_sum h size le = omega arith

module _ (g : Geometry) (v : Volume) (first offset size : ℕ)
    (can : (i : ℕ) → i < g.sectors_per_cluster → g.readable (first + i) ≡ true)
    (fits : offset + size ≤ cluster_size_bytes g) (some_bytes : 0 < size) where
  abbrev head : ℕ
  head = head_bytes (offset % sector_bytes) size

  abbrev second : ℕ
  second =
      if offset % sector_bytes == 0
      then first + offset / sector_bytes
      else first + offset / sector_bytes + 1

  abbrev whole : ℕ
  whole = (size - head) / sector_bytes

  head_bound : head ≤ size
  head_bound = ground arith

  head_lt : (k : ℕ) → k < head → offset % sector_bytes + k < sector_bytes
  head_lt k h = ground arith

  head_none : offset % sector_bytes ≡ 0 → head ≡ 0
  head_none h = ground arith

  -- Behind the head a sector begins, unless nothing is left.
  head_aligned :
      (size - head ≡ 0)
      ⊎ (((offset + head) % sector_bytes ≡ 0) × (second ≡ first + (offset + head) / sector_bytes))
  head_aligned = ground arith

  head_filled :
      (buffer : Buffer) (out : ℕ)
      → (b : Buffer) × (read_head g v
            (first + offset / sector_bytes)
            (offset % sector_bytes)
            size
            buffer
            out
          ≡ some b)
        × IsFilled buffer out head (disk_bytes v first offset) b
  unfolding read_head read_part
  head_filled buffer out = elim (==_cases (offset % sector_bytes) 0) [
    | inl e ↦ (
      buffer,
      rw ((==_iff (offset % sector_bytes) 0).1 e) refl,
      IsFilled-none buffer out head _ (head_none e),
    )
    | inr ne ↦ (
      fill buffer out head
          (λ k. v.disk (first + offset / sector_bytes) (offset % sector_bytes + k)),
      rw (==_of_ne _ 0 ne, can (offset / sector_bytes) (omega arith)) refl,
      IsFilled-bytes buffer out head
          (λ k. v.disk (first + offset / sector_bytes) (offset % sector_bytes + k))
          (disk_bytes v first offset) _ (fill-IsFilled buffer out head _)
          (λ k lt. (let b = head_lt k lt in byte_at v _ _ _ _ (omega arith) (omega arith))),
    )
  ]

  inside : offset + head + (size - head) ≤ cluster_size_bytes g
  inside = let b = head_bound in omega arith

  aligned :
      0 < size - head
      → ((offset + head) % sector_bytes ≡ 0) × (second ≡ first + (offset + head) / sector_bytes)
  aligned pos = elim head_aligned [ inl e ↦ absurd (omega arith) | inr a ↦ a ]

  whole_filled :
      (buffer : Buffer) (out : ℕ)
      → (b : Buffer) × (read_whole g v second (size - head) out (some buffer) ≡ some b)
        × IsFilled buffer out (whole * sector_bytes) (disk_bytes v first (offset + head)) b
  unfolding read_whole
  whole_filled buffer out = elim (==_cases whole 0) [
    | inl e ↦ (buffer, rw ((==_iff whole 0).1 e) refl, IsFilled-none buffer out _ _ (whole_none e))
    | inr ne ↦
        (let a = aligned (whole_some ne) in
          let r = read_sectors-IsFilled g v second whole buffer out (λ i lo hi.
            (let b =
                whole_inside second first (offset + head) (size - head) g.sectors_per_cluster i a.1
                  inside lo hi in
              subst (λ x. g.readable x ≡ true) b.1 (can (i - first) b.0))) in
          (
            r.0,
            subst
                (λ t.
                  (if t then some buffer else read_sectors g v second whole buffer out) ≡ some r.0)
                (sym (==_of_ne whole 0 ne)) r.1,
            IsFilled-bytes buffer out _ (disk_bytes v second 0) (disk_bytes v first (offset + head))
                _ r.2
                (λ k lt.
                  (let b = aligned_sector second first (offset + head) k a.0 a.1 in
                    byte_at v _ _ _ _ b.0 b.1)),
          ))
  ]
    where
      whole_none : whole ≡ 0 → whole * sector_bytes ≡ 0
      whole_none e = ap (λ n. n * sector_bytes) e

      whole_some : whole ≢ 0 → 0 < size - head
      whole_some ne = omega arith

  abbrev left_over : ℕ
  left_over = size - head - whole * sector_bytes

  tail_filled :
      (buffer : Buffer) (out : ℕ)
      → (b : Buffer) × (read_tail g v (second + whole) left_over out (some buffer) ≡ some b)
        × IsFilled buffer out left_over
            (disk_bytes v first (offset + head + whole * sector_bytes))
            b
  unfolding read_tail read_part
  tail_filled buffer out = elim (==_cases left_over 0) [
    | inl e ↦ (buffer, rw ((==_iff left_over 0).1 e) refl, IsFilled-none buffer out _ _ e)
    | inr ne ↦
        (let a = aligned (tail_some ne) in
          let t = λ (k : ℕ) (lt : k < left_over).
            tail_sector second first (offset + head) (size - head) k g.sectors_per_cluster a.0 a.1
              inside lt in
          let lba : first + ((offset + head) / sector_bytes + whole) ≡ second + whole =
            tail_lba second first (offset + head) whole a.1 in
          let readable = subst (λ x. g.readable x ≡ true) lba (can _ (t 0 (tail_pos ne)).2) in
          (
            fill buffer out left_over (λ k. v.disk (second + whole) (0 + k)),
            subst
                (λ t.
                  (if t
                    then some buffer
                    else (if g.readable (second + whole)
                        then some (fill buffer out left_over (λ k. v.disk (second + whole) (0 + k)))
                        else none))
                  ≡ some (fill buffer out left_over (λ k. v.disk (second + whole) (0 + k))))
                (sym (==_of_ne left_over 0 ne)) (rw readable refl),
            IsFilled-bytes buffer out left_over (λ k. v.disk (second + whole) (0 + k)) _ _
                (fill-IsFilled buffer out left_over _)
                (λ k lt. byte_at v _ _ _ _ (t k lt).0 (zero_plus k ∙ (t k lt).1)),
          ))
  ]
    where
      tail_some : left_over ≢ 0 → 0 < size - head
      tail_some ne = omega arith

      tail_pos : left_over ≢ 0 → 0 < left_over
      tail_pos ne = omega arith

      zero_plus : (k : ℕ) → 0 + k ≡ k
      zero_plus k = omega arith

      tail_lba : (s f a w : ℕ) → s ≡ f + a / sector_bytes → f + (a / sector_bytes + w) ≡ s + w
      tail_lba s f a w e = omega arith

  shifted : (a k : ℕ) → disk_bytes v first (offset + a) k ≡ disk_bytes v first offset (a + k)
  shifted a k =
      let e : offset + a + k ≡ offset + (a + k) = omega arith in
      ap (λ x. v.disk (first + x / sector_bytes) (x % sector_bytes)) e

  shifted_twice :
      (k : ℕ)
      → disk_bytes v first (offset + head + whole * sector_bytes) k
        ≡ disk_bytes v first offset (head + whole * sector_bytes + k)
  shifted_twice k =
      ap (λ x. v.disk (first + x / sector_bytes) (x % sector_bytes))
        (regroup offset head (whole * sector_bytes) k)

  pub parts_filled :
      (buffer : Buffer) (out : ℕ)
      → (b : Buffer) × (read_tail g v
            (second + whole)
            left_over
            (out + head + whole * sector_bytes)
            (read_whole g v second (size - head) (out + head) (
              read_head g v
                (first + offset / sector_bytes)
                (offset % sector_bytes)
                size
                buffer
                out))
          ≡ some b)
        × IsFilled buffer out size (disk_bytes v first offset) b
  parts_filled buffer out =
      let a = head_filled buffer out in
      let b = whole_filled a.0 (out + head) in
      let c = tail_filled b.0 (out + head + whole * sector_bytes) in
      let bytes = disk_bytes v first offset in
      let two =
        IsFilled-append buffer out head (whole * sector_bytes) bytes a.0 b.0 a.2
          (IsFilled-bytes a.0 _ _ _ (λ k. bytes (head + k)) _ b.2 (λ k lt. shifted head k)) in
      let three =
        IsFilled-append buffer out (head + whole * sector_bytes) left_over bytes b.0 c.0 two (
          subst (λ o. IsFilled b.0 o left_over (λ k. bytes (head + whole * sector_bytes + k)) c.0)
            (omega arith)
            (IsFilled-bytes b.0 _ _ _ (λ k. bytes (head + whole * sector_bytes + k)) _ c.2
              (λ k lt. shifted_twice k))) in
      (
        c.0,
        rw (a.1, b.1) c.1,
        subst (λ n. IsFilled buffer out n bytes c.0) (parts_sum head size head_bound) three,
      )

-- A read inside a data cluster all of whose sectors can be read, of one byte at least, succeeds: the
-- bytes of the buffer from `out` on become the cluster's from `offset` on, over the part of a sector at
-- the start, the whole sectors and the part at the end, and the others are kept.
pub read_cluster_bytes-IsFilled :
    (g : Geometry) (v : Volume) (cluster offset : ℕ) (buffer : Buffer) (out size : ℕ)
    → is_data_cluster cluster ≡ true
    → ((i : ℕ) → i < g.sectors_per_cluster → g.readable (cluster_first_lba g cluster + i) ≡ true)
    → offset + size ≤ cluster_size_bytes g
    → 0 < size
    → (b : Buffer) × (read_cluster_bytes g v cluster offset buffer out size ≡ some b)
      × IsFilled buffer out size (disk_bytes v (cluster_first_lba g cluster) offset) b
unfolding read_cluster_bytes
read_cluster_bytes-IsFilled g v cluster offset buffer out size dc can fits pos =
    let r = parts_filled g v (cluster_first_lba g cluster) offset size can fits pos buffer out in
    let some_size = ==_of_ne size 0 (λ e. absurd (omega arith)) in
    let inside_left : leb (cluster_size_bytes g) offset ≡ false = ground arith in
    let inside_right : ltb (cluster_size_bytes g - offset) size ≡ false = ground arith in
    (r.0, rw (some_size, dc, inside_left, inside_right) r.1, r.2)
