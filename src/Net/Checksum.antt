-- ===== src/Net/Checksum.antt =====
-- `internet_checksum` of include/vkernel/net.h, and why a packet that carries it sums up to zero.
use vkernel.Common.{
  ℕ, ◌+◌, ◌-◌, ◌*◌, ◌%◌, ◌^◌, ◌≤◌, ◌<◌, ◌≡◌, refl, List, [], ◌∷◌, arith, if◌then◌else◌, ltb, All,
  ap, ◌∙◌,
}

-- `sum += word`, with the carry brought around.
unfoldable pub add_word : ℕ → ℕ → ℕ
add_word sum word = if ltb 0xFFFF (sum + word) then (sum + word) % 2 ^ 16 + 1 else sum + word

unfoldable pub sum_from : ℕ → List ℕ → ℕ
sum_from sum [] = sum
sum_from sum (b ∷ []) = add_word sum (b * 256)
sum_from sum (b ∷ c ∷ bs) = sum_from (add_word sum (b * 256 + c)) bs

unfoldable pub internet_checksum : List ℕ → ℕ
internet_checksum bytes = 0xFFFF - sum_from 0 bytes % 2 ^ 16

abbrev pub Bytes : List ℕ → Type 0
Bytes bs = All (λ b. b < 256) bs

add_word_le : (a w : ℕ) → a ≤ 0xFFFF → w ≤ 0xFFFF → add_word a w ≤ 0xFFFF
unfolding add_word
add_word_le a w p q = ground arith

-- The order of two words does not matter.
add_word_swap :
    (a v w : ℕ)
    → a ≤ 0xFFFF
    → v ≤ 0xFFFF
    → w ≤ 0xFFFF
    → add_word (add_word a v) w ≡ add_word (add_word a w) v
unfolding add_word
add_word_swap a v w p q r = ground arith

pub sum_from_le : (a : ℕ) (bs : List ℕ) → a ≤ 0xFFFF → Bytes bs → sum_from a bs ≤ 0xFFFF
unfolding sum_from
sum_from_le a [] p h = p
sum_from_le a (b ∷ []) p h = add_word_le a (b * 256) p (omega (arith, h.0))
sum_from_le a (b ∷ c ∷ bs) p h =
    sum_from_le (add_word a (b * 256 + c)) bs
      (add_word_le a (b * 256 + c) p (omega (arith, h.0, h.1.0))) h.1.1

-- A word counts alike at the front and at the end.
sum_from-add_word :
    (a w : ℕ) (bs : List ℕ)
    → a ≤ 0xFFFF
    → w ≤ 0xFFFF
    → Bytes bs
    → sum_from (add_word a w) bs ≡ add_word (sum_from a bs) w
unfolding sum_from
sum_from-add_word a w [] p q h = refl
sum_from-add_word a w (b ∷ []) p q h = add_word_swap a w (b * 256) p q (omega (arith, h.0))
sum_from-add_word a w (b ∷ c ∷ bs) p q h =
    let v : b * 256 + c ≤ 0xFFFF = omega (arith, h.0, h.1.0) in
    ap (λ s. sum_from s bs) (add_word_swap a w (b * 256 + c) p q v)
    ∙ sum_from-add_word (add_word a (b * 256 + c)) w bs (add_word_le a (b * 256 + c) p v) q h.1.1

add_word_complement : (t : ℕ) → t ≤ 0xFFFF → add_word t (0xFFFF - t) ≡ 0xFFFF
unfolding add_word
add_word_complement t p = ground arith

add_word_zero : (a : ℕ) → a ≤ 0xFFFF → add_word a 0 ≡ a
unfolding add_word
add_word_zero a p = ground arith

-- The complement of a sum, counted with it, makes all ones.
pub sum_from_complement :
    (a w : ℕ) (bs : List ℕ)
    → a ≤ 0xFFFF
    → Bytes bs
    → w ≡ 0xFFFF - sum_from (add_word a 0) bs
    → sum_from (add_word a w) bs ≡ 0xFFFF
sum_from_complement a w bs p h e =
    let z = add_word_zero a p in
    let le = sum_from_le a bs p h in
    let w' : w ≡ 0xFFFF - sum_from a bs = e ∙ ap (λ t. 0xFFFF - sum_from t bs) z in
    sum_from-add_word a w bs p (omega arith) h
    ∙ ap (add_word (sum_from a bs)) w'
    ∙ add_word_complement (sum_from a bs) le
