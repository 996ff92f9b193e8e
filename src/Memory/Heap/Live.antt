-- ===== src/Memory/Heap/Live.antt =====
-- The abstract view of the heap: a finite map from the pointers in use to their sizes.
use vkernel.Common.{
  ℕ, ◌+◌, ◌≤◌, ◌<◌, ◌≡◌, false, ◌&&◌, Option, none, some, List, [], ◌∷◌, arith, refl, ◌==◌,
  if◌then◌else◌,
}
use vkernel.Memory.Heap.Types.{HeapBlock, header_size, coalesce_next, coalesce_prev}
use vkernel.Memory.Heap.Layout.{Layout, block_end, address_limit}

abbrev pub live_at : ℕ → List HeapBlock → Option ℕ
live_at ptr [] = none
live_at ptr (b ∷ bs) =
    if b.used && b.address + header_size == ptr then some b.size else live_at ptr bs

-- No pointer in use lies below the first header.
pub none_below :
    (lo ptr : ℕ) (bs : List HeapBlock)
    → Layout lo bs
    → ptr < lo + header_size
    → live_at ptr bs ≡ none
none_below lo ptr [] l h = refl
none_below lo ptr (b ∷ bs) l h = ground (arith, l.0.above, none_below (block_end b) ptr bs l.1)

pub live_at-coalesce_next :
    (ptr : ℕ) (b : HeapBlock) (bs : List HeapBlock)
    → b.used ≡ false
    → live_at ptr (coalesce_next b bs) ≡ live_at ptr bs
unfolding coalesce_next
live_at-coalesce_next ptr b [] f = ground arith
live_at-coalesce_next ptr b (n ∷ bs) f = ground arith

abbrev pub HeadIsFree : List HeapBlock → Type 0
HeadIsFree [] = Unit {0}
HeadIsFree (b ∷ bs) = b.used ≡ false

pub live_at-coalesce_prev :
    (ptr : ℕ) (prev : HeapBlock) (bs : List HeapBlock)
    → HeadIsFree bs
    → live_at ptr (coalesce_prev prev bs) ≡ live_at ptr (prev ∷ bs)
unfolding coalesce_prev
live_at-coalesce_prev ptr prev [] f = refl
live_at-coalesce_prev ptr prev (b ∷ bs) f = ground arith

-- A pointer in use lies above the first header, and its data ends below the limit.
pub live_at_bounds :
    (lo p s : ℕ) (bs : List HeapBlock)
    → Layout lo bs
    → live_at p bs ≡ some s
    → (lo + header_size ≤ p) × (p + s ≤ address_limit)
live_at_bounds lo p s [] l a = absurd (cc)
live_at_bounds lo p s (b ∷ bs) l a =
    ground (arith, l.0.above, l.0.within, live_at_bounds (block_end b) p s bs l.1)

-- Two pointers in use are apart by the first one's size and a header.
pub live_at_apart :
    (lo p q s t : ℕ) (bs : List HeapBlock)
    → Layout lo bs
    → live_at p bs ≡ some s
    → live_at q bs ≡ some t
    → p < q
    → p + s + header_size ≤ q
live_at_apart lo p q s t [] l a b h = absurd (cc)
live_at_apart lo p q s t (r ∷ bs) l a b h = ground (
  arith,
  live_at_apart (block_end r) p q s t bs l.1,
  none_below (block_end r) q bs l.1,
  none_below (block_end r) p bs l.1,
)
