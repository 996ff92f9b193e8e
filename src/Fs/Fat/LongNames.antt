-- ===== src/Fs/Fat/LongNames.antt =====
-- Long names of src/fs/fat32.cpp: what `create_lfn_entries` writes, `decode_lfn_name` reads.
use mathlib.Core.List.{reverse, reverse-cons, reverse-reverse, append-nil, append_assoc}
use vkernel.Common.{
  ℕ, zero, suc, ◌+◌, ◌-◌, ◌*◌, ◌/◌, ◌≤◌, ◌<◌, ◌≡◌, inl, inr, refl, true, false, some, List, [], ◌∷◌,
  ◌++◌, ◌==◌, ltb, ltb→lt, ltb→le, true-ne-false, lt→ltb, ==_refl, leb, length, take, drop, arith,
  All, length-append, Bool-cases, ap, sym, ◌∙◌,
}
use vkernel.Fs.Fat.Names.{
  LongEntry, max_lfn_entries, lfn_chars, lfn_entries, create_lfn_entries, append_chars,
  decode_entries, checksums_match, decode_lfn_name,
}

-- The characters that a long name keeps: ASCII, and not 0.
abbrev pub IsAscii : ℕ → Type 0
IsAscii c = (0 < c) × (c < 128)

append_chars-full :
    (name out : List ℕ)
    → append_chars (lfn_chars zero name) out ≡ (ltb (length name) zero, out ++ take zero name)
unfolding append_chars lfn_chars
append_chars-full name out =
    let e : ltb (length name) 0 ≡ false = ground arith in rw (e, append-nil out) refl

append_chars-lfn_chars :
    (n : ℕ) (name out : List ℕ)
    → All IsAscii name
    → length out + length name ≤ 255
    → append_chars (lfn_chars n name) out ≡ (ltb (length name) n, out ++ take n name)
unfolding append_chars lfn_chars
append_chars-lfn_chars zero name out a h = append_chars-full name out
append_chars-lfn_chars (suc n) [] out a h =
    let e : ltb 0 (suc n) ≡ true = ground arith in rw (e, append-nil out) refl
append_chars-lfn_chars (suc n) (c ∷ cs) out a h =
    let p : (c == 0) ≡ false = ground (arith, a.0.0) in
    let q : (c == 0xFFFF) ≡ false = ground (arith, a.0.1) in
    let r : leb 256 (length out + 1) ≡ false = ground arith in
    let s : ltb c 128 ≡ true = lt→ltb c 128 a.0.1 in
    let l : ltb (suc (length cs)) (suc n) ≡ ltb (length cs) n = ground arith in
    let m : length (out ++ (c ∷ [])) ≡ length out + 1 = length-append out (c ∷ []) in
    rw (p, q, r, s, l)
      (append_chars-lfn_chars n cs (out ++ (c ∷ [])) a.1 (omega (arith, m))
        ∙ ap (λ t. (ltb (length cs) n, t)) (append_assoc out (c ∷ []) (take n cs)))

All-drop : (n : ℕ) (name : List ℕ) → All IsAscii name → All IsAscii (drop n name)
All-drop zero name a = a
All-drop (suc n) [] a = a
All-drop (suc n) (c ∷ cs) a = All-drop n cs a.1

length-drop : (n : ℕ) (name : List ℕ) → length (drop n name) ≡ length name - n
length-drop zero name = omega arith
length-drop (suc n) [] = omega arith
length-drop (suc n) (c ∷ cs) = omega (arith, length-drop n cs)

length-take : (n : ℕ) (name : List ℕ) → length (take n name) ≤ n
length-take zero name = omega arith
length-take (suc n) [] = omega arith
length-take (suc n) (c ∷ cs) = omega (arith, length-take n cs)

take_all : (n : ℕ) (name : List ℕ) → length name < n → take n name ≡ name
take_all zero name h = absurd (omega arith)
take_all (suc n) [] h = refl
take_all (suc n) (c ∷ cs) h = ap (λ t. c ∷ t) (take_all n cs (omega arith))

take-drop : (n : ℕ) (name : List ℕ) → take n name ++ drop n name ≡ name
take-drop zero name = refl
take-drop (suc n) [] = refl
take-drop (suc n) (c ∷ cs) = ap (λ t. c ∷ t) (take-drop n cs)

decode_entries-lfn_entries :
    (n index sum : ℕ) (name out : List ℕ)
    → All IsAscii name
    → length name ≤ 13 * n
    → length out + length name ≤ 255
    → decode_entries (lfn_entries n index sum name) out ≡ out ++ name
unfolding decode_entries lfn_entries
decode_entries-lfn_entries zero index sum [] out a fits h = sym (append-nil out)
decode_entries-lfn_entries zero index sum (c ∷ cs) out a fits h = absurd (omega arith)
decode_entries-lfn_entries (suc n) index sum name out a fits h =
    let e = append_chars-lfn_chars 13 name out a h in
    elim (Bool-cases (ltb (length name) 13)) [
      | inl last ↦
          rw (e, last) (ap (λ t. out ++ t) (take_all 13 name (ltb→lt (length name) 13 last)))
      | inr more ↦
          let l = length-append out (take 13 name) in
          let d = length-drop 13 name in
          let t = length-take 13 name in
          let m : 13 ≤ length name = ltb→le (length name) 13 more in
          rw (e, more)
            (decode_entries-lfn_entries n (index + 1) sum (drop 13 name) (out ++ take 13 name)
                (All-drop 13 name a) (omega arith) (omega arith)
              ∙ append_assoc out (take 13 name) (drop 13 name)
              ∙ ap (λ t. out ++ t) (take-drop 13 name))
    ]

checksums_match-append :
    (sum : ℕ) (es fs : List LongEntry)
    → checksums_match sum es ≡ true
    → checksums_match sum fs ≡ true
    → checksums_match sum (es ++ fs) ≡ true
unfolding checksums_match
checksums_match-append sum [] fs p q = q
checksums_match-append sum (e ∷ es) fs p q = elim (Bool-cases (e.checksum == sum)) [
  | inl h ↦ rw h (checksums_match-append sum es fs (rw h at p) q)
  | inr h ↦ absurd (true-ne-false (sym (rw h at p)))
]

checksums_match-lfn_entries :
    (n index sum : ℕ) (name : List ℕ)
    → checksums_match sum (reverse (lfn_entries n index sum name)) ≡ true
unfolding lfn_entries checksums_match
checksums_match-lfn_entries zero index sum name = refl
checksums_match-lfn_entries (suc n) index sum name =
    rw (reverse-cons _ (lfn_entries n (index + 1) sum (drop 13 name))) (
      checksums_match-append sum (reverse (lfn_entries n (index + 1) sum (drop 13 name))) _
        (checksums_match-lfn_entries n (index + 1) sum (drop 13 name))
        (let s = ==_refl sum in rw s refl))

lfn_entries_some :
    (n index sum : ℕ) (name : List ℕ) → 0 < n → 0 < length (reverse (lfn_entries n index sum name))
unfolding lfn_entries
lfn_entries_some zero index sum name h = absurd (omega arith)
lfn_entries_some (suc n) index sum name h =
    let rest = lfn_entries n (index + 1) sum (drop 13 name) in
    rw (reverse-cons _ rest) (rw (length-append (reverse rest) (_ ∷ [])) (omega arith))

decode_lfn_name-nonempty :
    (sum : ℕ) (pending : List LongEntry)
    → 0 < length pending
    → checksums_match sum pending ≡ true
    → decode_lfn_name sum pending ≡ some (decode_entries (reverse pending) [])
unfolding decode_lfn_name
decode_lfn_name-nonempty sum [] h m = absurd (omega arith)
decode_lfn_name-nonempty sum (e ∷ es) h m = rw m refl

length-lfn_entries : (n index sum : ℕ) (name : List ℕ) → length (lfn_entries n index sum name) ≡ n
unfolding lfn_entries
length-lfn_entries zero index sum name = omega arith
length-lfn_entries (suc n) index sum name =
    omega (arith, length-lfn_entries n (index + 1) sum (drop 13 name))

-- A name of 1 to 255 ASCII characters other than 0 is written as long entries, one for each 13
-- characters and one for the rest, at most 20; read back in the order of the disk, the last entry first, under the checksum that they carry, they give the
-- name again.
pub decode_lfn_name-create_lfn_entries :
    (name : List ℕ) (sum : ℕ)
    → All IsAscii name
    → 0 < length name
    → length name ≤ 255
    → (entries : List LongEntry) × (create_lfn_entries name sum ≡ some entries)
      × (length entries ≡ (length name + 12) / 13)
      × (length entries ≤ 20)
      × (decode_lfn_name sum (reverse entries) ≡ some name)
unfolding create_lfn_entries
decode_lfn_name-create_lfn_entries name sum a lo hi =
    let n : ℕ = (length name + 12) / 13 in
    let z : (n == 0) ≡ false = ground arith in
    let b : ltb max_lfn_entries n ≡ false = ground arith in
    let es = lfn_entries n 0 sum name in
    (
      es,
      rw (z, b) refl,
      length-lfn_entries n 0 sum name,
      omega (arith, length-lfn_entries n 0 sum name),
      decode_lfn_name-nonempty sum (reverse es) (lfn_entries_some n 0 sum name (omega arith))
            (checksums_match-lfn_entries n 0 sum name)
          ∙ ap (λ t. some (decode_entries t [])) (reverse-reverse es)
          ∙ ap some (decode_entries-lfn_entries n 0 sum name [] a (omega arith) (omega arith)),
    )
