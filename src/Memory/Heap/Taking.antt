-- ===== src/Memory/Heap/Taking.antt =====
-- What `take_first` does to the blocks: a fresh pointer comes into use, and no byte is lost.
use vkernel.Common.{
  ℕ, ◌+◌, ◌%◌, ◌≤◌, ◌<◌, ◌≡◌, ◌≢◌, true, false, none, some, List, [], ◌∷◌, ◌++◌, arith, refl,
  Bool-cases, Option-cases, inl, inr, ltb,
}
use vkernel.Memory.Heap.Types.{
  HeapBlock, header_size, data_of, block, min_alignment, min_split_data_size,
}
use vkernel.Common.Words.{add64, sub64}
use vkernel.Memory.Heap.Allocate.{take_block, can_hold, Found, take_first}
use vkernel.Memory.Heap.Layout.{Layout, Placed, Placed-flag, block_end, Merged}
use vkernel.Memory.Heap.Live.{live_at, none_below}

pub record Takes (size lo : ℕ) (bs : List HeapBlock) (f : Found) : Type 0 where
  pub merged : Merged lo bs f.blocks
  pub aligned : f.address % min_alignment ≡ 0
  pub low : lo + header_size ≤ f.address
  pub fresh : live_at f.address bs ≡ none
  pub capacity : (s : ℕ) × (size ≤ s) × (live_at f.address f.blocks ≡ some s)

-- The pieces of a free block that can hold the size.
module _ (size lo : ℕ) (b : HeapBlock) (bs : List HeapBlock) (al : size % min_alignment ≡ 0)
    (h : can_hold size b ≡ true) (l : Layout lo (b ∷ bs)) where
  abbrev rest : HeapBlock
  rest = block (add64 (data_of b) size) (sub64 (sub64 b.size size) header_size) false

  fits : size ≤ b.size
  unfolding can_hold
  fits = ground arith

  split-Merged :
      ltb (add64 (add64 size header_size) min_split_data_size) b.size ≡ true
      → Merged lo (b ∷ bs) (block b.address size true ∷ rest ∷ bs)
  split-Merged worth =
      let p = l.0 in
      let room : size + 48 < b.size = ground (arith, fits, p.within) in
      let fin : block_end rest ≡ block_end b = omega (arith, p.within) in
      record {
        layout = (
          record {
            above = p.above;
            aligned = p.aligned;
            size_aligned = al;
            within = omega (arith, p.within);
          },
          (
            record {
              above = omega (arith, p.within);
              aligned = omega (arith, p.within, p.aligned);
              size_aligned = omega (arith, p.within, p.size_aligned);
              within = omega (arith, fin, p.within);
            },
            rw fin l.1,
          ),
        );
        bytes = omega (arith, p.within);
      }

  take_block-Takes :
      Takes size lo (b ∷ bs) (record { address = data_of b; blocks = take_block size b ++ bs })
  unfolding take_block can_hold
  take_block-Takes =
      let p = l.0 in
      let at : data_of b ≡ b.address + header_size = omega (arith, p.within) in
      let old : live_at (data_of b) (b ∷ bs) ≡ none =
        ground (arith, none_below (block_end b) (data_of b) bs l.1) in
      elim (Bool-cases (ltb (add64 (add64 size header_size) min_split_data_size) b.size)) [
        | inl worth ↦
            rw (worth, take_block)
              (record {
                merged = split-Merged worth;
                aligned = omega (arith, at, p.aligned);
                low = omega (arith, at, p.above);
                fresh = old;
                capacity = (size, omega arith, ground arith);
              })
        | inr small ↦
            rw (small, take_block)
              (record {
                merged = record { layout = (Placed-flag lo b true p, l.1); bytes = refl };
                aligned = omega (arith, at, p.aligned);
                low = omega (arith, at, p.above);
                fresh = old;
                capacity = (b.size, fits, ground arith);
              })
      ]

take_block-others :
    (size lo ptr : ℕ) (b : HeapBlock) (bs : List HeapBlock)
    → can_hold size b ≡ true
    → Layout lo (b ∷ bs)
    → ptr ≢ data_of b
    → live_at ptr (take_block size b ++ bs) ≡ live_at ptr (b ∷ bs)
unfolding take_block can_hold
take_block-others size lo ptr b bs h (p, l) ne = ground (arith, p.within)

Takes-cons :
    (size lo : ℕ) (b : HeapBlock) (bs : List HeapBlock) (f : Found)
    → Placed lo b
    → Takes size (block_end b) bs f
    → Takes size lo (b ∷ bs) (record f { blocks = b ∷ f.blocks })
Takes-cons size lo b bs f p t =
    let (s, le, at) = t.capacity in
    record {
      merged = record { layout = (p, t.merged.layout); bytes = omega (arith, t.merged.bytes) };
      aligned = t.aligned;
      low = omega (arith, t.low, p.above);
      fresh = ground (arith, t.fresh, t.low);
      capacity = (s, le, ground (arith, t.low));
    }

pub take_first-Takes :
    (size lo : ℕ) (bs : List HeapBlock) (f : Found)
    → size % min_alignment ≡ 0
    → Layout lo bs
    → take_first size bs ≡ some f
    → Takes size lo bs f
unfolding take_first
take_first-Takes size lo [] f al l e = absurd (cc)
take_first-Takes size lo (b ∷ bs) f al l e = elim (Bool-cases (can_hold size b)) [
  | inl hit ↦
      let g : f ≡ record { address = data_of b; blocks = take_block size b ++ bs } = ground arith in
      rw g (take_block-Takes size lo b bs al hit l)
  | inr miss ↦ elim (Option-cases (take_first size bs)) [
    | inl nothing ↦ absurd (ground arith)
    | inr (d, found) ↦
        let g : f ≡ record d { blocks = b ∷ d.blocks } = ground arith in
        rw g (Takes-cons size lo b bs d l.0 (take_first-Takes size (block_end b) bs d al l.1 found))
  ]
]

-- Every other pointer keeps its state.
pub take_first-others :
    (size lo ptr : ℕ) (bs : List HeapBlock) (f : Found)
    → Layout lo bs
    → take_first size bs ≡ some f
    → ptr ≢ f.address
    → live_at ptr f.blocks ≡ live_at ptr bs
unfolding take_first
take_first-others size lo ptr [] f l e ne = absurd (cc)
take_first-others size lo ptr (b ∷ bs) f l e ne = elim (Bool-cases (can_hold size b)) [
  | inl hit ↦
      let g : f ≡ record { address = data_of b; blocks = take_block size b ++ bs } = ground arith in
      rw g (take_block-others size lo ptr b bs hit l (ground arith))
  | inr miss ↦ elim (Option-cases (take_first size bs)) [
    | inl nothing ↦ absurd (ground arith)
    | inr (d, found) ↦
        let g : f ≡ record d { blocks = b ∷ d.blocks } = ground arith in
        let ih = take_first-others size (block_end b) ptr bs d l.1 found (ground arith) in
        rw g (ground (arith, ih))
  ]
]
