-- ===== src/Memory/Phys/Coverage.antt =====
-- Which addresses the region list holds as used and as free: the abstract view of the allocator.
use vkernel.Common.{
  ℕ, ◌+◌, ◌≤◌, ◌<◌, ◌≡◌, refl, Bool, true, false, not, ◌&&◌, ◌||◌, List, [], ◌∷◌, ◌++◌, arith, leb,
  ltb,
}
use vkernel.Memory.Phys.Types.{MemoryRegion, region_pool_size}
use vkernel.Memory.Phys.Allocate.{Request, aligned_start}
use vkernel.Memory.Phys.Layout.{Fit, Layout, Pieces, whole, head, last, middle}
use vkernel.Memory.Phys.Taken.{Taken, here, there}

-- `x` is one of the `n` addresses from `a` on.
abbrev pub in_range : ℕ → ℕ → ℕ → Bool
in_range a n x = leb a x && ltb x (a + n)

-- Where the first test passes, so does the second.
abbrev pub Within : Bool → Bool → Type 0
Within b c = (b && c) ≡ b

abbrev pub holds : MemoryRegion → ℕ → Bool
holds r x = in_range r.start r.size x

abbrev pub used_at : List MemoryRegion → ℕ → Bool
used_at [] x = false
used_at (r ∷ rs) x = (r.used && holds r x) || used_at rs x

abbrev pub free_at : List MemoryRegion → ℕ → Bool
free_at [] x = false
free_at (r ∷ rs) x = (not r.used && holds r x) || free_at rs x

pub used_at-append :
    (xs ys : List MemoryRegion) (x : ℕ) → used_at (xs ++ ys) x ≡ (used_at xs x || used_at ys x)
used_at-append [] ys x = refl
used_at-append (r ∷ xs) ys x = ground (arith, used_at-append xs ys x)

pub free_at-append :
    (xs ys : List MemoryRegion) (x : ℕ) → free_at (xs ++ ys) x ≡ (free_at xs x || free_at ys x)
free_at-append [] ys x = refl
free_at-append (r ∷ xs) ys x = ground (arith, free_at-append xs ys x)

-- Below the list's lower end there is nothing.
pub nothing_below :
    (lo : ℕ) (rs : List MemoryRegion) (x : ℕ)
    → Layout lo rs
    → x < lo
    → (used_at rs x ≡ false) × (free_at rs x ≡ false)
nothing_below lo [] x l h = (refl, refl)
nothing_below lo (r ∷ rs) x l h =
    ground (arith, nothing_below (r.start + r.size) rs x l.1 (omega arith))

-- No address is both used and free.
pub not_both :
    (lo : ℕ) (rs : List MemoryRegion) (x : ℕ)
    → Layout lo rs
    → used_at rs x ≡ true
    → free_at rs x ≡ false
not_both lo [] x l h = refl
not_both lo (r ∷ rs) x l h =
    ground (arith, not_both (r.start + r.size) rs x l.1, nothing_below (r.start + r.size) rs x l.1)

-- The pieces of a free region: the chunk is used, and nothing is free that was not.
record Cuts (q : Request) (r : MemoryRegion) (cut : List MemoryRegion) (x : ℕ) : Type 0 where
  takes : in_range (aligned_start q r) q.size x ≡ true → used_at cut x ≡ true
  within : used_at cut x ≡ true → holds r x ≡ true
  frees : free_at cut x ≡ true → holds r x ≡ true

Pieces-Cuts :
    (pool : ℕ) (q : Request) (r : MemoryRegion) (cut : List MemoryRegion) (x : ℕ)
    → Fit q r
    → Pieces pool q r cut
    → Cuts q r cut x
Pieces-Cuts pool q r cut x f (whole s n e) =
    rw e (record { takes = ground arith; within = ground arith; frees = ground arith })
Pieces-Cuts pool q r cut x f (head s b e) =
    rw e (record { takes = ground arith; within = ground arith; frees = ground arith })
Pieces-Cuts pool q r cut x f (last a n e) =
    rw e (record { takes = ground arith; within = ground arith; frees = ground arith })
Pieces-Cuts pool q r cut x f (middle a b e) =
    rw e (record { takes = ground arith; within = ground arith; frees = ground arith })

-- With two pool nodes to spare the cut is exact.
record CutsExactly (q : Request) (r : MemoryRegion) (cut : List MemoryRegion) (x : ℕ) : Type 0 where
  used : used_at cut x ≡ in_range (aligned_start q r) q.size x
  free : free_at cut x ≡ (holds r x && not (in_range (aligned_start q r) q.size x))

Pieces-CutsExactly :
    (pool : ℕ) (q : Request) (r : MemoryRegion) (cut : List MemoryRegion) (x : ℕ)
    → pool + 2 ≤ region_pool_size
    → Fit q r
    → Pieces pool q r cut
    → CutsExactly q r cut x
Pieces-CutsExactly pool q r cut x h f (whole s n e) =
    rw e (record { used = ground arith; free = ground arith })
Pieces-CutsExactly pool q r cut x h f (head s b e) =
    rw e (record { used = ground arith; free = ground arith })
Pieces-CutsExactly pool q r cut x h f (last a n e) =
    rw e (record { used = ground arith; free = ground arith })
Pieces-CutsExactly pool q r cut x h f (middle a b e) =
    rw e (record { used = ground arith; free = ground arith })

-- What a client gets: the chunk was free and is now used, what was used stays used, and only what
-- was free is free.
pub record Serves (a n : ℕ) (rs rs' : List MemoryRegion) (x : ℕ) : Type 0 where
  pub was_free : Within (in_range a n x) (free_at rs x)
  pub now_used : Within (in_range a n x) (used_at rs' x)
  pub still_used : Within (used_at rs x) (used_at rs' x)
  pub only_free : Within (free_at rs' x) (free_at rs x)

pub Taken-Serves :
    (pool : ℕ) (q : Request) (a x : ℕ) {rs rs' : List MemoryRegion}
    → Taken pool q a rs rs'
    → Serves a q.size rs rs' x
Taken-Serves pool q a x (here {r} {rs} {cut} f p e s) =
    let c = Pieces-Cuts pool q r cut x f p in
    rw (e, s)
      (record {
        was_free = ground arith;
        now_used = ground (arith, used_at-append cut rs x, c.takes);
        still_used = ground (arith, used_at-append cut rs x);
        only_free = ground (arith, free_at-append cut rs x, c.frees);
      })
Taken-Serves pool q a x (there {r} {rs} {rs'} t) =
    let c = Taken-Serves pool q a x t in
    record {
      was_free = ground (arith, c.was_free);
      now_used = ground (arith, c.now_used);
      still_used = ground (arith, c.still_used);
      only_free = ground (arith, c.only_free);
    }

-- With two pool nodes to spare, the chunk moves from the free addresses to the used ones and
-- nothing else changes.
pub record MovesChunk (a n : ℕ) (rs rs' : List MemoryRegion) (x : ℕ) : Type 0 where
  pub used : used_at rs' x ≡ (used_at rs x || in_range a n x)
  pub free : free_at rs' x ≡ (free_at rs x && not (in_range a n x))

pub Taken-MovesChunk :
    (pool : ℕ) (q : Request) (a lo x : ℕ) {rs rs' : List MemoryRegion}
    → pool + 2 ≤ region_pool_size
    → Layout lo rs
    → Taken pool q a rs rs'
    → MovesChunk a q.size rs rs' x
Taken-MovesChunk pool q a lo x h l (here {r} {rs} {cut} f p e s) =
    let c = Pieces-CutsExactly pool q r cut x h f p in
    rw (e, s)
      (record {
        used = ground (arith, used_at-append cut rs x, c.used);
        free =
            ground
              (arith, free_at-append cut rs x, c.free, nothing_below (r.start + r.size) rs x l.1);
      })
Taken-MovesChunk pool q a lo x h l (there {r} {rs} {rs'} t) =
    let c = Taken-MovesChunk pool q a (r.start + r.size) x h l.1 t in
    let d = Taken-Serves pool q a x t in
    record {
      used = ground (arith, c.used);
      free = ground (arith, c.free, d.was_free, nothing_below (r.start + r.size) rs x l.1);
    }
