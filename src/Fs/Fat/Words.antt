-- ===== src/Fs/Fat/Words.antt =====
-- Words of 32 bits in a sector, and the entries of the table among them.
use vkernel.Common.{
  ℕ, ◌+◌, ◌*◌, ◌/◌, ◌%◌, ◌^◌, ◌≤◌, ◌<◌, ◌≡◌, ◌≢◌, ◌⊎◌, inl, inr, sym, subst, ==_cases, arith,
}
use vkernel.Common.Arrays.{put, put_same, put_other}
use vkernel.Fs.Fat.Volume.{Sector, word, put_word, fat_sector, entry_offset}
use vkernel.Fs.Fat.Table.{updated_sector}

put_word_bytes :
    (s : Sector) (o v : ℕ)
    → (put_word s o v o ≡ v % 256)
      × (put_word s o v (o + 1) ≡ v / 256 % 256)
      × (put_word s o v (o + 2) ≡ v / 65536 % 256)
      × (put_word s o v (o + 3) ≡ v / 16777216 % 256)
unfolding put_word
put_word_bytes s o v = (ground arith, ground arith, ground arith, ground arith)

put_word_other : (s : Sector) (o v a : ℕ) → (a < o) ⊎ (o + 4 ≤ a) → put_word s o v a ≡ s a
unfolding put_word
put_word_other s o v a h = ground arith

pub word-put_word : (s : Sector) (o v : ℕ) → v < 2 ^ 32 → word (put_word s o v) o ≡ v
unfolding word
word-put_word s o v h = omega (arith, put_word_bytes s o v)

pub word-put_word_other :
    (s : Sector) (o v p : ℕ) → (p + 4 ≤ o) ⊎ (o + 4 ≤ p) → word (put_word s o v) p ≡ word s p
unfolding word
word-put_word_other s o v p (inl h) = omega (
  arith,
  put_word_other s o v p (inl (omega arith)),
  put_word_other s o v (p + 1) (inl (omega arith)),
  put_word_other s o v (p + 2) (inl (omega arith)),
  put_word_other s o v (p + 3) (inl (omega arith)),
)
word-put_word_other s o v p (inr h) = omega (
  arith,
  put_word_other s o v p (inr (omega arith)),
  put_word_other s o v (p + 1) (inr (omega arith)),
  put_word_other s o v (p + 2) (inr (omega arith)),
  put_word_other s o v (p + 3) (inr (omega arith)),
)

-- Bytes make words of 32 bits.
abbrev pub IsSector : Sector → Type 0
IsSector s = (o : ℕ) → s o < 256

pub word_lt : (s : Sector) (o : ℕ) → IsSector s → word s o < 2 ^ 32
unfolding word
word_lt s o h = omega (arith, h o, h (o + 1), h (o + 2), h (o + 3))

pub put_word-IsSector : (s : Sector) (o v : ℕ) → IsSector s → IsSector (put_word s o v)
unfolding put_word
put_word-IsSector s o v h a = ground (arith, h a)

-- A disk of bytes stays one when a sector of bytes is written.
pub put-IsSector :
    (d : ℕ → Sector) (a : ℕ) (t : Sector)
    → ((b : ℕ) → IsSector (d b))
    → IsSector t
    → (b : ℕ) → IsSector (put d a t b)
put-IsSector d a t h ht b = elim (==_cases b a) [
  | inl e ↦ subst IsSector (sym (put_same d a b t e)) ht
  | inr ne ↦ subst IsSector (sym (put_other d a b t ne)) (h b)
]

-- An entry that is written reads back in its low 28 bits, and the others of its sector are kept.
pub updated_sector_entry :
    (s : Sector) (o value : ℕ)
    → IsSector s
    → word (updated_sector s o value) o % 2 ^ 28 ≡ value % 2 ^ 28
unfolding updated_sector
updated_sector_entry s o value h =
    let w = word_lt s o h in
    omega
      (arith, word-put_word s o (word s o / 2 ^ 28 * 2 ^ 28 + value % 2 ^ 28) (omega (arith, w)))

pub updated_sector_other :
    (s : Sector) (o value p : ℕ)
    → (p + 4 ≤ o) ⊎ (o + 4 ≤ p)
    → word (updated_sector s o value) p ≡ word s p
unfolding updated_sector
updated_sector_other s o value p h = word-put_word_other s o _ p h

pub updated_sector-IsSector :
    (s : Sector) (o value : ℕ) → IsSector s → IsSector (updated_sector s o value)
unfolding updated_sector
updated_sector-IsSector s o value h = put_word-IsSector s o _ h

pub sector_eq : (c d : ℕ) → (fat_sector c ≡ fat_sector d) ⊎ (fat_sector c ≢ fat_sector d)
sector_eq c d = ground arith

-- Two clusters with entries in one sector have them four bytes apart.
pub entries_apart :
    (c d : ℕ)
    → c < 2 ^ 28
    → d < 2 ^ 28
    → c ≢ d
    → fat_sector c ≡ fat_sector d
    → (entry_offset d + 4 ≤ entry_offset c) ⊎ (entry_offset c + 4 ≤ entry_offset d)
entries_apart c d hc hd ne e = omega arith
