-- ===== src/Common/Words.antt =====
-- 64-bit words as numbers below 2 ^ 64, and `align_up` of include/vkernel/types.h.
use Prim.Native.Nat.{
  ℕ, zero, suc, ◌+◌, ◌-◌, ◌*◌, ◌/◌, ◌%◌, ◌^◌, ◌≤◌, ◌<◌, min, bit_and, digits, bit_and-bitwise,
}
use mathlib.Core.Path.{◌≡◌, refl, ap}
use native.Mathlib.Omega.{arith}
use native.Mathlib.Nat.{
  mul_comm, mod-lt, div-add-mod, mul-mod_right, pow-suc, div-div-eq-div-mul, div-lt_iff_lt-mul,
}

abbrev pub u64_mod : ℕ
u64_mod = 2 ^ 64

abbrev pub add64 : ℕ → ℕ → ℕ
add64 a b = (a + b) % 2 ^ 64

abbrev pub sub64 : ℕ → ℕ → ℕ
sub64 a b = (a + 2 ^ 64 - b) % 2 ^ 64

abbrev pub mul64 : ℕ → ℕ → ℕ
mul64 a b = (a * b) % 2 ^ 64

-- `~a`
abbrev pub not64 : ℕ → ℕ
not64 a = 2 ^ 64 - 1 - a

unfoldable pub align_up : ℕ → ℕ → ℕ
align_up val align = bit_and (sub64 (add64 val align) 1) (not64 (sub64 align 1))

-- One binary digit at a time: `bit_and` on the halves, and on the lowest digits.
abbrev conj : ℕ → ℕ → ℕ → ℕ
conj fuel a b = digits (λ b. zero) min fuel a b

conj_fuel : (m n a b : ℕ) → a ≤ m → a ≤ n → conj m a b ≡ conj n a b
conj_fuel zero zero a b p q = refl
conj_fuel zero (suc n) zero b p q = refl
conj_fuel (suc m) zero zero b p q = refl
conj_fuel (suc m) (suc n) zero b p q = refl
conj_fuel zero n (suc a) b p q = absurd (omega arith)
conj_fuel (suc m) zero (suc a) b p q = absurd (omega arith)
conj_fuel (suc m) (suc n) (suc a) b p q =
    omega (arith, conj_fuel m n (suc a / 2) (b / 2) (omega arith) (omega arith))

bit_and-halves : (a b : ℕ) → bit_and a b ≡ 2 * bit_and (a / 2) (b / 2) + min (a % 2) (b % 2)
bit_and-halves zero b = omega (arith, bit_and-bitwise 0 b, bit_and-bitwise 0 (b / 2))
bit_and-halves (suc a) b = omega (
  arith,
  bit_and-bitwise (suc a) b,
  bit_and-bitwise (suc a / 2) (b / 2),
  conj_fuel a (suc a / 2) (suc a / 2) (b / 2) (omega arith) (omega arith),
)

-- The same, with the mask's half named.
bit_and-half : (a b c : ℕ) → b / 2 ≡ c → bit_and a b ≡ 2 * bit_and (a / 2) c + min (a % 2) (b % 2)
bit_and-half a b c e = rw (← e) (bit_and-halves a b)

pub pow2_pos : (k : ℕ) → 0 < 2 ^ k
pow2_pos zero = omega arith
pow2_pos (suc k) = omega (arith, pow-suc 2 k, pow2_pos k)

pub pow2_add : (k j : ℕ) → 2 ^ (k + j) ≡ 2 ^ k * 2 ^ j
pow2_add zero j = let e : 0 + j ≡ j = omega arith in rw e (omega arith)
pow2_add (suc k) j =
    let e : suc k + j ≡ suc (k + j) = omega arith in
    rw (e, pow-suc 2 (k + j), pow-suc 2 k, pow2_add k j) (grind arith)

pow2_suc-mul : (k m : ℕ) → 2 ^ suc k * m ≡ 2 * (2 ^ k * m)
pow2_suc-mul k m = rw (pow-suc 2 k) (grind arith)

bit_and-shift : (k a m : ℕ) → bit_and a (2 ^ k * m) ≡ 2 ^ k * bit_and (a / 2 ^ k) m
bit_and-shift zero a m =
    let e : 1 * m ≡ m = omega arith in let d : a / 1 ≡ a = omega arith in rw (e, d) (omega arith)
bit_and-shift (suc k) a m =
    let d : a / 2 ^ suc k ≡ a / 2 / 2 ^ k =
      rw (div-div-eq-div-mul, pow-suc) (ap (λ t. a / t) (omega arith)) in
    rw (pow2_suc-mul k m, d, pow2_suc-mul k (bit_and (a / 2 / 2 ^ k) m))
      (omega (
        arith,
        bit_and-half a (2 * (2 ^ k * m)) (2 ^ k * m) (omega arith),
        bit_and-shift k (a / 2) m,
      ))

bit_and-ones : (j a : ℕ) → a < 2 ^ j → bit_and a (2 ^ j - 1) ≡ a
bit_and-ones zero a h = let e : a ≡ 0 = omega arith in rw e
bit_and-ones (suc j) a h = omega (
  arith,
  pow-suc 2 j,
  pow2_pos j,
  bit_and-half a (2 ^ suc j - 1) (2 ^ j - 1) (omega (arith, pow-suc 2 j)),
  bit_and-ones j (a / 2) (omega (arith, pow-suc 2 j)),
)

mul-pred : (a b : ℕ) → a * (b - 1) ≡ a * b - a
mul-pred a zero = omega arith
mul-pred a (suc b) = let e : suc b - 1 ≡ b = omega arith in rw e (omega arith)

-- Clearing the low `k` bits of a `(k + j)`-bit word.
pub bit_and-mask :
    (k j x : ℕ) → x < 2 ^ (k + j) → bit_and x (2 ^ (k + j) - 2 ^ k) ≡ 2 ^ k * (x / 2 ^ k)
bit_and-mask k j x h =
    let e : 2 ^ (k + j) - 2 ^ k ≡ 2 ^ k * (2 ^ j - 1) =
      rw (pow2_add k j, mul-pred (2 ^ k) (2 ^ j)) in
    rw (e, bit_and-shift k x (2 ^ j - 1))
      (ap (λ t. 2 ^ k * t)
        (bit_and-ones j (x / 2 ^ k)
          ((div-lt_iff_lt-mul (pow2_pos k)).1 (rw (mul_comm (2 ^ j) (2 ^ k), ← pow2_add k j) h))))

-- `align_up` rounds up to a multiple of a power of two, as long as `val + align` fits a word.
pub align_up_lem :
    (k val : ℕ)
    → k < 64
    → val + 2 ^ k ≤ 2 ^ 64
    → align_up val (2 ^ k) ≡ 2 ^ k * ((val + 2 ^ k - 1) / 2 ^ k)
unfolding align_up
align_up_lem k val lt fits =
    let j : ℕ = 64 - k in
    let e : k + j ≡ 64 = omega arith in
    let p : 0 < 2 ^ k = pow2_pos k in
    let q : 2 ^ k ≤ 2 ^ 64 = omega arith in
    let x : sub64 (add64 val (2 ^ k)) 1 ≡ val + 2 ^ k - 1 = omega arith in
    let m : not64 (sub64 (2 ^ k) 1) ≡ 2 ^ 64 - 2 ^ k = omega arith in
    rw (x, m, ← ap (λ t. 2 ^ t) e)
      (bit_and-mask k j (val + 2 ^ k - 1) (omega (arith, ap (λ t. 2 ^ t) e)))

-- So the result is the least multiple of `2 ^ k` from `val` on.
pub align_up_bounds :
    (k val : ℕ)
    → k < 64
    → val + 2 ^ k ≤ 2 ^ 64
    → (val ≤ align_up val (2 ^ k))
      × (align_up val (2 ^ k) < val + 2 ^ k)
      × (align_up val (2 ^ k) % 2 ^ k ≡ 0)
align_up_bounds k val lt fits =
    let p : 0 < 2 ^ k = pow2_pos k in
    rw (align_up_lem k val lt fits) (
      omega (arith, div-add-mod (val + 2 ^ k - 1) (2 ^ k), mod-lt (val + 2 ^ k - 1) p),
      omega (arith, div-add-mod (val + 2 ^ k - 1) (2 ^ k)),
      mul-mod_right (2 ^ k) ((val + 2 ^ k - 1) / 2 ^ k),
    )

-- A multiple of `p` that is not below `x` is not below the first such multiple.
le_of_multiple : (p x c : ℕ) → 0 < p → x ≤ p * c → p * ((x + p - 1) / p) ≤ p * c
le_of_multiple p x c h le =
    let q : (x + p - 1) / p < c + 1 = (div-lt_iff_lt-mul h).1 (grind arith) in grind arith

pub align_up-le :
    (k val m : ℕ)
    → k < 64
    → val + 2 ^ k ≤ 2 ^ 64
    → m % 2 ^ k ≡ 0
    → val ≤ m
    → align_up val (2 ^ k) ≤ m
align_up-le k val m lt fits mul le =
    let e : 2 ^ k * (m / 2 ^ k) ≡ m = omega (arith, div-add-mod m (2 ^ k)) in
    rw (align_up_lem k val lt fits)
      (omega (arith, le_of_multiple (2 ^ k) val (m / 2 ^ k) (pow2_pos k) (omega (arith, e))))
