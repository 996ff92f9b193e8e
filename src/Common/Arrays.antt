-- ===== src/Common/Arrays.antt =====
-- Arrays and memories as functions from indices, and writes to them.
use Prim.Native.Nat.{ℕ}
use mathlib.Core.Path.{◌≡◌, refl}
use mathlib.Core.Logic.{◌≢◌}
use mathlib.Core.Bool.{true}
use vkernel.Common.Tests.{◌==◌, if◌then◌else◌, ==_iff, ==_of_ne}

-- A write to one element.
abbrev pub put {ℓ} : {A : Type ℓ} → (ℕ → A) → ℕ → A → ℕ → A
put f i a j = if j == i then a else f j

pub put_same {ℓ} : {A : Type ℓ} (f : ℕ → A) (i j : ℕ) (a : A) → j ≡ i → put f i a j ≡ a
put_same f i j a e = let q : (j == i) ≡ true = (==_iff j i).1 e in rw q refl

pub put_other {ℓ} : {A : Type ℓ} (f : ℕ → A) (i j : ℕ) (a : A) → j ≢ i → put f i a j ≡ f j
put_other f i j a ne = rw (==_of_ne j i ne) refl
