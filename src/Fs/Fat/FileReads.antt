-- ===== src/Fs/Fat/FileReads.antt =====
-- The loop of `read_file_range` of src/fs/fat32.cpp.
use vkernel.Common.{
  ℕ, zero, suc, ◌+◌, ◌-◌, ◌*◌, ◌/◌, ◌%◌, ◌≤◌, ◌<◌, ◌≡◌, refl, sym, ap, subst, ◌∙◌, true, ◌&&◌, ◌==◌,
  some, ltb, leb, ltb→lt, ltb→le, le→ltb, Bool-cases, ◌||◌, false, inl, inr, arith,
}
use vkernel.Fs.Fat.Volume.{Geometry, Volume}
use vkernel.Fs.Fat.Files.{
  FileDescriptor, Buffer, cluster_size_bytes, cluster_for_file_offset, range_round, range_loop,
  read_file_range, range_size,
}
use vkernel.Fs.Fat.Reading.{IsFit, IsSound, SameTable}
use vkernel.Fs.Fat.Allocation.{SameTable-trans}
use vkernel.Fs.Fat.Following.{IsPlaced, cluster_for_file_offset-nth_cluster}
use vkernel.Fs.Fat.Fills.{IsFilled, IsFilled-append, IsFilled-bytes}
use native.Mathlib.Nat.{div-mul-le_self}
use vkernel.Fs.Fat.Stored.{
  file_byte, IsStored, stored-Reaches, file_byte-same, IsStored-same, HasAdvanced, Advance,
}
use vkernel.Fs.Fat.Ranges.{run-Advance, chunk-Advance}

module _ (g : Geometry) (fit : IsFit g) (offset remaining : ℕ) where
  -- One round, from the search of its cluster on.
  round-Advance :
      (v : Volume) (file : FileDescriptor) (buffer : Buffer) (out : ℕ)
      → IsSound g v
      → file.valid ≡ true
      → IsPlaced g v file
      → IsStored g v file.first_cluster file.size
      → offset + remaining ≤ file.size
      → out < remaining
      → Advance g v file offset out remaining buffer (
          range_round g offset remaining buffer out
            (cluster_for_file_offset g v file ((offset + out) / cluster_size_bytes g)))
  round-Advance v file buffer out s valid at stored inside more =
      let n = cluster_size_bytes g in
      let i = (offset + out) / n in
      let d = div-mul-le_self (offset + out) n in
      let within : i * n < file.size = omega (arith, d) in
      let t =
        cluster_for_file_offset-nth_cluster g v file i fit s valid (λ e. absurd (omega arith)) at
          (stored-Reaches g v file.first_cluster file.size i stored within) in
      subst
        (λ x.
          Advance g v file offset out remaining buffer
            (range_round g offset remaining buffer out x))
        (sym t.1)
        (elim (Bool-cases ((offset + out) % n == 0 && leb n (remaining - out))) [
          | inl q ↦
              run-Advance g v file offset out remaining buffer fit stored more inside t.0 t.3 t.2 q
          | inr q ↦
              chunk-Advance g v file offset out remaining buffer fit stored more inside t.0 t.3 t.2
                q
        ])

  here :
      (v : Volume) (file : FileDescriptor) (buffer : Buffer) (out : ℕ)
      → IsSound g v
      → IsPlaced g v file
      → out ≡ remaining
      → HasAdvanced g v file offset out remaining buffer file buffer v
  here v file buffer out s at e = record {
    same_valid = refl;
    same_first = refl;
    same_size = refl;
    placed = at;
    sound = s;
    same_table = record { same_disk = refl; same_count = refl; same_hint = refl };
    filled = (λ k lt. absurd (omega arith), λ i o. refl);
  }

  HasAdvanced-trans :
      (u v w : Volume) (f1 f2 f3 : FileDescriptor) (b1 b2 b3 : Buffer) (out got : ℕ)
      → out ≤ got
      → got ≤ remaining
      → HasAdvanced g u f1 offset out got b1 f2 b2 v
      → HasAdvanced g v f2 offset got remaining b2 f3 b3 w
      → HasAdvanced g u f1 offset out remaining b1 f3 b3 w
  HasAdvanced-trans u v w f1 f2 f3 b1 b2 b3 out got lo hi a b =
      let later : (k : ℕ)
          → file_byte g v f2.first_cluster (offset + got + k)
            ≡ file_byte g u f1.first_cluster (offset + out + (got - out + k)) =
        λ k.
          file_byte-same g u v f2.first_cluster (offset + got + k) a.same_table
          ∙ ap (λ c. file_byte g u c (offset + got + k)) a.same_first
          ∙ ap (file_byte g u f1.first_cluster)
              (let e : offset + got + k ≡ offset + out + (got - out + k) = omega arith in e) in
      record {
        same_valid = b.same_valid ∙ a.same_valid;
        same_first = b.same_first ∙ a.same_first;
        same_size = b.same_size ∙ a.same_size;
        placed = b.placed;
        sound = b.sound;
        same_table = SameTable-trans u v w a.same_table b.same_table;
        filled =
            (let e : got - out + (remaining - got) ≡ remaining - out = omega arith in
              let o : out + (got - out) ≡ got = omega arith in
              subst
                (λ n. IsFilled b1 out n (λ k. file_byte g u f1.first_cluster (offset + out + k)) b3)
                e
                (IsFilled-append b1 out (got - out) (remaining - got)
                  (λ k. file_byte g u f1.first_cluster (offset + out + k)) b2 b3 a.filled
                  (subst
                    (λ x.
                      IsFilled b2 x (remaining - got)
                        (λ k. file_byte g u f1.first_cluster (offset + out + (got - out + k))) b3)
                    (sym o)
                    (IsFilled-bytes b2 got (remaining - got) _ _ b3 b.filled (λ k lt. later k)))));
      }

  range_loop_lem :
      (fuel : ℕ) (v : Volume) (file : FileDescriptor) (buffer : Buffer) (out : ℕ)
      → IsSound g v
      → file.valid ≡ true
      → IsPlaced g v file
      → IsStored g v file.first_cluster file.size
      → offset + remaining ≤ file.size
      → out ≤ remaining
      → remaining ≤ out + fuel
      → (file' : FileDescriptor) × (buffer' : Buffer) × (w : Volume) × (range_loop g fuel offset
            remaining file buffer out v
          ≡ (some (file', buffer'), w))
        × HasAdvanced g v file offset out remaining buffer file' buffer' w
  unfolding range_loop
  range_loop_lem zero v file buffer out s valid at stored inside le enough = (
    file,
    buffer,
    v,
    rw (le→ltb out remaining (omega arith)) refl,
    here v file buffer out s at (omega arith),
  )
  range_loop_lem (suc fuel) v file buffer out s valid at stored inside le enough =
      elim (Bool-cases (ltb out remaining)) [
        | inr q ↦ (
          file,
          buffer,
          v,
          rw q refl,
          here v file buffer out s at (let b = ltb→le out remaining q in omega arith),
        )
        | inl q ↦
            (let a =
                round-Advance v file buffer out s valid at stored inside (ltb→lt out remaining q) in
              let m = a.7 in
              let f = a.1 in
              let grew = a.5 in
              let t =
                range_loop_lem fuel a.3 f a.2 a.0 m.sound (m.same_valid ∙ valid) m.placed
                  (subst (λ c. IsStored g a.3 c f.size) (sym m.same_first)
                    (subst (IsStored g a.3 file.first_cluster) (sym m.same_size)
                      (IsStored-same g v a.3 file.first_cluster file.size m.same_table stored)))
                  (subst (λ n. offset + remaining ≤ n) (sym m.same_size) inside) a.6
                  (omega arith) in
              (
                t.0,
                t.1,
                t.2,
                rw q (a.4 (λ f b o w. range_loop g fuel offset remaining f b o w) ∙ t.3),
                HasAdvanced-trans v a.3 t.2 file f t.0 buffer a.2 t.1 out a.0 (omega arith) a.6 m
                    t.4,
              ))
      ]

none_asked :
    (file : FileDescriptor) (offset size : ℕ)
    → (size == 0 || leb file.size offset) ≡ true
    → range_size file offset size ≡ 0
none_asked file offset size h = ground arith

some_asked :
    (file : FileDescriptor) (offset size : ℕ)
    → (size == 0 || leb file.size offset) ≡ false
    → offset + range_size file offset size ≤ file.size
some_asked file offset size h = ground arith

range_starts :
    (g : Geometry) (v : Volume) (file : FileDescriptor) (offset : ℕ) (buffer : Buffer) (size : ℕ)
    → file.valid ≡ true
    → (size == 0 || leb file.size offset) ≡ false
    → read_file_range g v file offset buffer size
      ≡ range_loop g
          (range_size file offset size)
          offset
          (range_size file offset size)
          file
          buffer
          0
          v
unfolding read_file_range
range_starts g v file offset buffer size valid q = rw (valid, q) refl

-- On a sound volume whose table fits the device, for an open file whose chain reaches as far as its size, over sectors that can be read, and whose
-- remembered position is one of the chain, a read succeeds at every offset and with every size: the
-- buffer holds the file's bytes from the offset on, as many as were asked for or as the file has left,
-- its other bytes are kept, and the new descriptor's remembered position is one of the chain again. Runs
-- of adjacent clusters that are read at once do not change what is read, and only the volume's cache
-- changes.
pub read_file_range-file_byte :
    (g : Geometry) (v : Volume) (file : FileDescriptor) (offset : ℕ) (buffer : Buffer) (size : ℕ)
    → IsFit g
    → IsSound g v
    → file.valid ≡ true
    → IsPlaced g v file
    → IsStored g v file.first_cluster file.size
    → (file' : FileDescriptor) × (buffer' : Buffer) × (w : Volume) × (read_file_range g v file
          offset buffer size
        ≡ (some (file', buffer'), w))
      × IsFilled buffer 0
          (range_size file offset size)
          (λ k. file_byte g v file.first_cluster (offset + k))
          buffer'
      × IsPlaced g w file'
      × IsSound g w
      × SameTable v w
unfolding read_file_range
read_file_range-file_byte g v file offset buffer size fit s valid at stored =
    let n = range_size file offset size in
    elim (Bool-cases (size == 0 || leb file.size offset)) [
      | inl q ↦
          (let z = none_asked file offset size q in
            (
              file,
              buffer,
              v,
              rw (valid, q) refl,
              (λ k lt. absurd (omega arith), λ i o. refl),
              at,
              s,
              record { same_disk = refl; same_count = refl; same_hint = refl },
            ))
      | inr q ↦
          (let t =
              range_loop_lem g fit offset n n v file buffer 0 s valid at stored
                (some_asked file offset size q) (omega arith) (omega arith) in
            let m = t.4 in
            let e : offset + 0 ≡ offset = omega arith in
            (
              t.0,
              t.1,
              t.2,
              range_starts g v file offset buffer size valid q ∙ t.3,
              subst (λ a. IsFilled buffer 0 n (λ k. file_byte g v file.first_cluster (a + k)) t.1) e
                  (subst
                    (λ l.
                      IsFilled buffer 0 l (λ k. file_byte g v file.first_cluster (offset + 0 + k))
                        t.1)
                    (let z : n - 0 ≡ n = omega arith in z) m.filled),
              m.placed,
              m.sound,
              m.same_table,
            ))
    ]
