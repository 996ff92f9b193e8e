-- ===== src/Memory/Heap/Layout.antt =====
-- The heap's blocks are ascending, disjoint and 16-byte aligned.
use vkernel.Common.{
  ℕ, ◌+◌, ◌%◌, ◌^◌, ◌≤◌, ◌≡◌, Bool, not, ◌&&◌, List, [], ◌∷◌, ◌++◌, arith, Bool-cases, inl, inr,
  ◌==◌, refl,
}
use vkernel.Memory.Heap.Types.{HeapBlock, header_size, coalesce_next, coalesce_prev, absorb, end_of}

abbrev pub address_limit : ℕ
address_limit = 2 ^ 62

abbrev pub block_end : HeapBlock → ℕ
block_end b = b.address + header_size + b.size

pub record Placed (lo : ℕ) (b : HeapBlock) : Type 0 where
  pub above : lo ≤ b.address
  pub aligned : b.address % 16 ≡ 0
  pub size_aligned : b.size % 16 ≡ 0
  pub within : block_end b ≤ address_limit

abbrev pub Layout : ℕ → List HeapBlock → Type 0
Layout lo [] = Unit {0}
Layout lo (b ∷ bs) = Placed lo b × Layout (block_end b) bs

-- The bytes that the blocks take up, headers included.
abbrev pub footprint : List HeapBlock → ℕ
footprint [] = 0
footprint (b ∷ bs) = header_size + b.size + footprint bs

pub footprint-append : (xs ys : List HeapBlock) → footprint (xs ++ ys) ≡ footprint xs + footprint ys
footprint-append [] ys = omega arith
footprint-append (b ∷ xs) ys = omega (arith, footprint-append xs ys)

pub Layout-mono : (lo hi : ℕ) (bs : List HeapBlock) → lo ≤ hi → Layout hi bs → Layout lo bs
Layout-mono lo hi [] h l = tt
Layout-mono lo hi (b ∷ bs) h l =
    let p = l.0 in
    (
      record {
        above = omega (arith, p.above);
        aligned = p.aligned;
        size_aligned = p.size_aligned;
        within = p.within;
      },
      l.1,
    )

-- The flag does not matter.
pub Placed-flag :
    (lo : ℕ) (b : HeapBlock) (u : Bool) → Placed lo b → Placed lo (record b { used = u })
Placed-flag lo b u p = record {
  above = p.above;
  aligned = p.aligned;
  size_aligned = p.size_aligned;
  within = p.within;
}

-- A block lies above any end that it is known to be behind.
pub Placed-raise : (lo hi : ℕ) (b : HeapBlock) → hi ≤ b.address → Placed lo b → Placed hi b
Placed-raise lo hi b h p = record {
  above = h;
  aligned = p.aligned;
  size_aligned = p.size_aligned;
  within = p.within;
}

-- A block grown over its neighbour.
pub absorb-Layout :
    (lo : ℕ) (b n : HeapBlock) (bs : List HeapBlock)
    → end_of b ≡ n.address
    → Layout lo (b ∷ n ∷ bs)
    → Layout lo (absorb b n ∷ bs)
absorb-Layout lo b n bs e (p, (q, l)) =
    let fin : block_end (absorb b n) ≡ block_end n = omega (arith, p.within, q.within) in
    (
      record {
        above = p.above;
        aligned = p.aligned;
        size_aligned = omega (arith, p.within, q.within, p.size_aligned, q.size_aligned);
        within = omega (arith, fin, q.within);
      },
      rw fin l,
    )

-- Merging keeps the order and the bytes.
pub record Merged (lo : ℕ) (bs bs' : List HeapBlock) : Type 0 where
  pub layout : Layout lo bs'
  pub bytes : footprint bs' ≡ footprint bs

pub coalesce_next-Merged :
    (lo : ℕ) (b : HeapBlock) (bs : List HeapBlock)
    → Layout lo (b ∷ bs)
    → Merged lo (b ∷ bs) (coalesce_next b bs)
unfolding coalesce_next
coalesce_next-Merged lo b [] l = record { layout = l; bytes = refl }
coalesce_next-Merged lo b (n ∷ bs) l = elim (Bool-cases (not n.used && end_of b == n.address)) [
  | inl join ↦
      let e : end_of b ≡ n.address = ground arith in
      rw (join, coalesce_next)
        (record {
          layout = absorb-Layout lo b n bs e l;
          bytes = omega (arith, l.0.within, l.1.0.within);
        })
  | inr apart ↦ rw (apart, coalesce_next) (record { layout = l; bytes = refl })
]

pub coalesce_prev-Merged :
    (lo : ℕ) (prev : HeapBlock) (bs : List HeapBlock)
    → Layout lo (prev ∷ bs)
    → Merged lo (prev ∷ bs) (coalesce_prev prev bs)
unfolding coalesce_prev
coalesce_prev-Merged lo prev [] l = record { layout = l; bytes = refl }
coalesce_prev-Merged lo prev (b ∷ bs) l =
    elim (Bool-cases (not prev.used && end_of prev == b.address)) [
      | inl join ↦
          let e : end_of prev ≡ b.address = ground arith in
          rw (join, coalesce_prev)
            (record {
              layout = absorb-Layout lo prev b bs e l;
              bytes = omega (arith, l.0.within, l.1.0.within);
            })
      | inr apart ↦ rw (apart, coalesce_prev) (record { layout = l; bytes = refl })
    ]

-- The bytes fit between the ends.
pub footprint-le :
    (lo : ℕ) (bs : List HeapBlock)
    → Layout lo bs
    → lo ≤ address_limit
    → lo + footprint bs ≤ address_limit
footprint-le lo [] l h = omega arith
footprint-le lo (b ∷ bs) l h =
    let p = l.0 in omega (arith, p.above, footprint-le (block_end b) bs l.1 p.within)
