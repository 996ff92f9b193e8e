-- ===== src/Memory/Phys/Layout.antt =====
-- The region list is ascending and without overlaps, and no address of it is near the end of the
-- address space. What an allocation and a release keep of it.
use vkernel.Common.{
  ℕ, ◌+◌, ◌-◌, ◌%◌, ◌^◌, ◌≤◌, ◌<◌, ◌≡◌, ◌⊎◌, Bool, true, false, some, List, [], ◌∷◌, ◌++◌, arith,
  ◌==◌, not, ◌&&◌, Bool-cases, inl, inr,
}
use vkernel.Common.Words.{align_up, align_up_bounds, add64, sub64}
use vkernel.Memory.Phys.Types.{
  MemoryRegion, region_pool_size, region, claim_node, alloc_region_node,
}
use vkernel.Memory.Phys.Allocate.{Request, fits, carve, aligned_start, aligned_end}

abbrev pub address_limit : ℕ
address_limit = 2 ^ 62

abbrev pub Placed : ℕ → MemoryRegion → Type 0
Placed lo r = (lo ≤ r.start) × (0 < r.size) × (r.start + r.size ≤ address_limit)

abbrev pub Layout : ℕ → List MemoryRegion → Type 0
Layout lo [] = Unit {0}
Layout lo (r ∷ rs) = Placed lo r × Layout (r.start + r.size) rs

-- A request that the kernel makes: some pages, at an alignment that is a power of two of 32 bits.
pub record IsRequest (q : Request) (k : ℕ) : Type 0 where
  pub some_pages : 0 < q.size
  pub small : q.size ≤ 2 ^ 44
  pub power : q.alignment ≡ 2 ^ k
  pub word : 2 ^ k ≤ 2 ^ 32

-- What the guards of the loop establish.
pub record Fit (q : Request) (r : MemoryRegion) : Type 0 where
  pub free : r.used ≡ false
  pub low : r.start ≤ aligned_start q r
  pub high : aligned_start q r + q.size ≤ r.start + r.size
  pub below : (q.max_addr ≡ 0) ⊎ (aligned_start q r + q.size ≤ q.max_addr)
  pub aligned : aligned_start q r % q.alignment ≡ 0

pub fits-Fit :
    (q : Request) (k lo : ℕ) (r : MemoryRegion)
    → k < 64
    → IsRequest q k
    → Placed lo r
    → fits q r ≡ true
    → Fit q r
unfolding fits
fits-Fit q k lo r lt v p h =
    let e = v.power in
    let w = v.word in
    let b : (r.start ≤ align_up r.start q.alignment)
        × (align_up r.start q.alignment < r.start + q.alignment)
        × (align_up r.start q.alignment % q.alignment ≡ 0) =
      rw e (align_up_bounds k r.start lt (omega arith)) in
    record {
      free = ground arith;
      low = b.0;
      high = ground arith;
      below = ground arith;
      aligned = b.2;
    }

-- The gaps before and behind the chunk, and the pieces that a cut can leave.
abbrev pub gap_before : Request → MemoryRegion → ℕ
gap_before q r = aligned_start q r - r.start

abbrev pub gap_behind : Request → MemoryRegion → ℕ
gap_behind q r = r.start + r.size - (aligned_start q r + q.size)

abbrev pub front : Request → MemoryRegion → MemoryRegion
front q r = region r.start (gap_before q r) false

abbrev pub chunk : Request → MemoryRegion → MemoryRegion
chunk q r = region (aligned_start q r) q.size true

abbrev pub behind : Request → MemoryRegion → MemoryRegion
behind q r = region (aligned_start q r + q.size) (gap_behind q r) false

-- Without a piece for it the gap behind the chunk is empty, or the node pool was about full.
abbrev pub NoRoom : ℕ → Request → MemoryRegion → Type 0
NoRoom pool q r = (gap_behind q r ≡ 0) ⊎ (region_pool_size ≤ pool + 1)

pub data Pieces (pool : ℕ) (q : Request) (r : MemoryRegion) (cut : List MemoryRegion) : Type 0 where
  whole :
      aligned_start q r ≡ r.start
      → NoRoom pool q r
      → cut ≡ region r.start r.size true ∷ []
      → Pieces pool q r cut
  head :
      aligned_start q r ≡ r.start
      → 0 < gap_behind q r
      → cut ≡ chunk q r ∷ behind q r ∷ []
      → Pieces pool q r cut
  last :
      0 < gap_before q r → NoRoom pool q r → cut ≡ front q r ∷ chunk q r ∷ [] → Pieces pool q r cut
  middle :
      0 < gap_before q r
      → 0 < gap_behind q r
      → cut ≡ front q r ∷ chunk q r ∷ behind q r ∷ []
      → Pieces pool q r cut

-- `carve` leaves such pieces: no arithmetic of it wraps.
pub carve-Pieces :
    (pool : ℕ) (q : Request) (lo : ℕ) (r : MemoryRegion) (cut : List MemoryRegion) (pool' : ℕ)
    → Fit q r
    → 0 < q.size
    → Placed lo r
    → carve pool q r ≡ some (cut, pool')
    → Pieces pool q r cut
unfolding carve
carve-Pieces pool q lo r cut pool' f pos p e =
    elim (Bool-cases (sub64 (aligned_start q r) r.start == 0)) [
      | inl at_start ↦ elim (Bool-cases has_tail) [
        | inl tail ↦ head (ground arith) (ground arith) (ground arith)
        | inr full ↦ whole (ground arith) (ground arith) (ground arith)
      ]
      | inr later ↦ elim (Bool-cases has_tail') [
        | inl tail ↦ middle (ground arith) (ground arith) (ground arith)
        | inr full ↦ last (ground arith) (ground arith) (ground arith)
      ]
    ]
  where
    post : ℕ
    post = sub64 (add64 r.start r.size) (aligned_end q r)

    has_tail : Bool
    has_tail = not (post == 0) && alloc_region_node pool

    has_tail' : Bool
    has_tail' = not (post == 0) && alloc_region_node (claim_node pool q.size)

-- A later lower end is a lower end.
pub Layout-mono : (lo hi : ℕ) (rs : List MemoryRegion) → lo ≤ hi → Layout hi rs → Layout lo rs
Layout-mono lo hi [] h l = tt
Layout-mono lo hi (r ∷ rs) h l = ((omega arith, l.0.1, l.0.2), l.1)

-- The pieces of a region lie where the region lay.
pub Pieces-Layout :
    (pool : ℕ) (q : Request) (lo : ℕ) (r : MemoryRegion) (rs cut : List MemoryRegion)
    → Fit q r
    → 0 < q.size
    → Placed lo r
    → Layout (r.start + r.size) rs
    → Pieces pool q r cut
    → Layout lo (cut ++ rs)
Pieces-Layout pool q lo r rs cut f pos p l c = pieces c
  where
    rest : (e : ℕ) → e ≤ r.start + r.size → Layout e rs
    rest e h = Layout-mono e (r.start + r.size) rs h l

    pieces : Pieces pool q r cut → Layout lo (cut ++ rs)
    pieces (whole s n e) = rw e (p, l)
    pieces (head s b e) = rw e (
      omega (arith, f.low, f.high),
      (omega (arith, f.low, f.high), rest _ (omega (arith, f.low, f.high))),
    )
    pieces (last a n e) = rw e (
      omega (arith, f.low, f.high),
      (omega (arith, f.low, f.high), rest _ (omega (arith, f.low, f.high))),
    )
    pieces (middle a b e) = rw e (
      omega (arith, f.low, f.high),
      (
        omega (arith, f.low, f.high),
        (omega (arith, f.low, f.high), rest _ (omega (arith, f.low, f.high))),
      ),
    )
