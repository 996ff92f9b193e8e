-- ===== src/Memory/Phys/Taken.antt =====
-- What a successful walk of `allocate_pages` does to the list: one region is cut up in place.
use vkernel.Common.{
  ℕ, ◌+◌, ◌%◌, ◌≤◌, ◌<◌, ◌≡◌, ◌⊎◌, inl, inr, Option-cases, true, some, List, [], ◌∷◌, ◌++◌, arith,
}
use vkernel.Memory.Phys.Types.{MemoryRegion}
use vkernel.Memory.Phys.Allocate.{
  Request, Carved, fits, carve, try_region, allocate_loop, aligned_start,
}
use vkernel.Memory.Phys.Layout.{
  Layout, IsRequest, Fit, fits-Fit, Pieces, carve-Pieces, Pieces-Layout,
}

pub data Taken (pool : ℕ) (q : Request) (address : ℕ)
    : List MemoryRegion → List MemoryRegion → Type 0 where
  here :
      {r : MemoryRegion} {rs cut rs' : List MemoryRegion}
      → Fit q r
      → Pieces pool q r cut
      → address ≡ aligned_start q r
      → rs' ≡ cut ++ rs
      → Taken pool q address (r ∷ rs) rs'
  there :
      {r : MemoryRegion} {rs rs' : List MemoryRegion}
      → Taken pool q address rs rs'
      → Taken pool q address (r ∷ rs) (r ∷ rs')

-- The chunk is aligned and below the ceiling.
pub Taken-bounds :
    (pool : ℕ) (q : Request) (a : ℕ) {rs rs' : List MemoryRegion}
    → Taken pool q a rs rs'
    → (a % q.alignment ≡ 0) × ((q.max_addr ≡ 0) ⊎ (a + q.size ≤ q.max_addr))
Taken-bounds pool q a (here f p e s) = rw e (f.aligned, f.below)
Taken-bounds pool q a (there t) = Taken-bounds pool q a t

pub Taken-low :
    (pool : ℕ) (q : Request) (a lo : ℕ) {rs rs' : List MemoryRegion}
    → Layout lo rs
    → Taken pool q a rs rs'
    → lo ≤ a
Taken-low pool q a lo l (here f p e s) = omega (arith, f.low)
Taken-low pool q a lo l (there {r} t) = omega (arith, Taken-low pool q a (r.start + r.size) l.1 t)

try_region-fits :
    (pool : ℕ) (q : Request) (r : MemoryRegion) (p : List MemoryRegion × ℕ)
    → try_region pool q r ≡ some p
    → (fits q r ≡ true) × (carve pool q r ≡ some p)
unfolding try_region
try_region-fits pool q r p e = ground arith

module _ (pool : ℕ) (q : Request) (k : ℕ) (lt : k < 64) (v : IsRequest q k) where
  pub allocate_loop-Taken :
      (lo : ℕ) (rs : List MemoryRegion) (c : Carved)
      → Layout lo rs
      → allocate_loop pool q rs ≡ some c
      → Taken pool q c.address rs c.regions
  unfolding allocate_loop
  allocate_loop-Taken lo [] c l e = absurd (cc)
  allocate_loop-Taken lo (r ∷ rs) c l e = elim (Option-cases (try_region pool q r)) [
    | inl stay ↦ elim (Option-cases (allocate_loop pool q rs)) [
      | inl nothing ↦ absurd (ground arith)
      | inr (d, found) ↦
          let a : c.address ≡ d.address = ground arith in
          let s : c.regions ≡ r ∷ d.regions = ground arith in
          rw (a, s) (there (allocate_loop-Taken (r.start + r.size) rs d l.1 found))
    ]
    | inr (p, cut) ↦
        let f = try_region-fits pool q r p cut in
        let fit = fits-Fit q k lo r lt v l.0 f.0 in
        let a : c.address ≡ aligned_start q r = ground arith in
        here fit (carve-Pieces pool q lo r p.0 p.1 fit v.some_pages l.0 f.1) a (ground arith)
  ]

  pub Taken-Layout :
      (address lo : ℕ) {rs rs' : List MemoryRegion}
      → Layout lo rs
      → Taken pool q address rs rs'
      → Layout lo rs'
  Taken-Layout a lo l (here {r} {rs} {cut} f p e s) =
      rw s (Pieces-Layout pool q lo r rs cut f v.some_pages l.0 l.1 p)
  Taken-Layout a lo l (there {r} t) = (l.0, Taken-Layout a (r.start + r.size) l.1 t)
