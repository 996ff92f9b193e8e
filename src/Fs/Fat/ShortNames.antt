-- ===== src/Fs/Fat/ShortNames.antt =====
-- Short names of src/fs/fat32.cpp: what `encode_sfn` stores, `decode_short_name` reads.
use vkernel.Common.{
  ℕ, zero, suc, ◌+◌, ◌/◌, ◌%◌, ◌≤◌, ◌<◌, ◌≡◌, ◌≢◌, ◌⊎◌, inl, inr, refl, Bool, true, false, ◌&&◌,
  ◌||◌, not, List, [], ◌∷◌, ◌++◌, ◌==◌, if◌then◌else◌, ltb, length, take, drop, arith, All,
  Bool-cases, ap, sym, ◌∙◌, true-ne-false, and_parts, ==_iff, ==_of_ne,
}
use vkernel.Fs.Fat.Names.{
  ShortName, is_lower, is_upper, ascii_upper, ascii_lower, is_separator, is_valid_sfn_char, is_dot,
  last_index, split_name, all_chars, count_dots, is_valid_sfn_name, upper_field, has_lowercase,
  encode_case_info, encode_sfn, until_space, starts_with_space, decode_short_name,
}

abbrev pub has_uppercase : List ℕ → Bool
has_uppercase [] = false
has_uppercase (c ∷ cs) = is_upper c || has_uppercase cs

-- Not both small letters and capitals.
abbrev pub OneCase : List ℕ → Type 0
OneCase cs = has_lowercase cs && has_uppercase cs ≡ false

abbrev pub last_char : List ℕ → ℕ
last_char [] = 0
last_char (c ∷ []) = c
last_char (c ∷ d ∷ cs) = last_char (d ∷ cs)

-- The field of a part of the name reads back, if the case byte says `lower`.
abbrev recased : Bool → ℕ → ℕ
recased lower c = if lower then ascii_lower c else c

valid_char : (c : ℕ) → is_valid_sfn_char c ≡ true → ascii_upper c ≢ 32
unfolding ascii_upper is_valid_sfn_char
valid_char c v e = let q : c ≡ 32 = ground arith in true-ne-false (sym v ∙ ap is_valid_sfn_char q)

until_space-upper_field :
    (n : ℕ) (lower : Bool) (cs : List ℕ)
    → length cs ≤ n
    → all_chars is_valid_sfn_char cs ≡ true
    → All (λ c. recased lower (ascii_upper c) ≡ c) cs
    → until_space lower (upper_field n cs) ≡ cs
unfolding until_space upper_field all_chars
until_space-upper_field zero lower [] h v a = refl
until_space-upper_field (suc n) lower [] h v a = refl
until_space-upper_field zero lower (c ∷ cs) h v a = absurd (omega arith)
until_space-upper_field (suc n) lower (c ∷ cs) h v a = elim (Bool-cases (is_valid_sfn_char c)) [
  | inr bad ↦ absurd (true-ne-false (sym (rw bad at v)))
  | inl good ↦
      let s : (ascii_upper c == 32) ≡ false = ==_of_ne (ascii_upper c) 32 (valid_char c good) in
      rw (s, a.0)
        (ap (λ t. c ∷ t) (until_space-upper_field n lower cs (omega arith) (rw good at v) a.1))
]

lower_upper : (c : ℕ) → is_upper c ≡ false → ascii_lower (ascii_upper c) ≡ c
unfolding ascii_lower ascii_upper
lower_upper c h = ground arith

upper_kept : (c : ℕ) → is_lower c ≡ false → ascii_upper c ≡ c
unfolding ascii_upper
upper_kept c h = rw h refl

no_upper : (cs : List ℕ) → has_uppercase cs ≡ false → All (λ c. recased true (ascii_upper c) ≡ c) cs
no_upper [] h = tt
no_upper (c ∷ cs) h = elim (Bool-cases (is_upper c)) [
  | inl u ↦ absurd (true-ne-false (rw u at h))
  | inr u ↦ (lower_upper c u, no_upper cs (rw u at h))
]

no_lower :
    (cs : List ℕ) → has_lowercase cs ≡ false → All (λ c. recased false (ascii_upper c) ≡ c) cs
unfolding has_lowercase
no_lower [] h = tt
no_lower (c ∷ cs) h = elim (Bool-cases (is_lower c)) [
  | inl u ↦ absurd (true-ne-false (rw u at h))
  | inr u ↦ (upper_kept c u, no_lower cs (rw u at h))
]

recased_part :
    (cs : List ℕ) → OneCase cs → All (λ c. recased (has_lowercase cs) (ascii_upper c) ≡ c) cs
recased_part cs h = elim (Bool-cases (has_lowercase cs)) [
  | inl l ↦ rw l (no_upper cs (rw l at h))
  | inr l ↦ rw l (no_lower cs l)
]

-- The last dot, if there is one, splits the name.
last_index-is_dot :
    (cs : List ℕ) (i best : ℕ)
    → (last_index is_dot cs i best ≡ best)
      ⊎ ((j : ℕ) × (last_index is_dot cs i best ≡ i + j)
          × (j < length cs)
          × (take j cs ++ (46 ∷ drop (suc j) cs) ≡ cs))
unfolding last_index
last_index-is_dot [] i best = inl refl
last_index-is_dot (c ∷ cs) i best =
    elim (last_index-is_dot cs (i + 1) (if is_dot c then i else best)) [
      | inr (j, e, lt, q) ↦ inr (suc j, e ∙ omega arith, omega arith, ap (λ t. c ∷ t) q)
      | inl e ↦ elim (Bool-cases (is_dot c)) [
        | inl d ↦
            let w : (if is_dot c then i else best) ≡ i + 0 = rw d (omega arith) in
            inr (0, e ∙ w, omega arith, ap (λ t. t ∷ cs) (sym ((==_iff c 46).0 d)))
        | inr d ↦ let w : (if is_dot c then i else best) ≡ best = rw d refl in inl (e ∙ w)
      ]
    ]

-- The parts of a name.
data Split (name : List ℕ) : List ℕ × List ℕ → Type 0 where
  whole : Split name (name, [])
  dotted :
      (base extension : List ℕ) → base ++ (46 ∷ extension) ≡ name → Split name (base, extension)

split_name-Split : (name : List ℕ) → Split name (split_name name)
unfolding split_name
split_name-Split name = elim (last_index-is_dot name 0 (length name)) [
  | inl e ↦
      let h : ltb (last_index is_dot name 0 (length name)) (length name) ≡ false =
        ground (arith, e) in
      rw h Split.whole
  | inr (j, e, lt, q) ↦
      let h : ltb (last_index is_dot name 0 (length name)) (length name) ≡ true =
        ground (arith, e) in
      let e' : last_index is_dot name 0 (length name) ≡ j = omega (arith, e) in
      let k : j + 1 ≡ suc j = omega arith in
      rw (h, e', k) (Split.dotted (take j name) (drop (suc j) name) q)
]

joined : List ℕ → List ℕ → List ℕ
joined base extension = if length extension == 0 then base else (base ++ (46 ∷ extension))

last_char-dot : (base : List ℕ) → last_char (base ++ (46 ∷ [])) ≡ 46
last_char-dot [] = refl
last_char-dot (c ∷ []) = refl
last_char-dot (c ∷ d ∷ cs) = last_char-dot (d ∷ cs)

joined-Split :
    (name : List ℕ) (p : List ℕ × List ℕ)
    → Split name p
    → last_char name ≢ 46
    → joined p.0 p.1 ≡ name
unfolding joined
joined-Split name p Split.whole h = refl
joined-Split name p (Split.dotted base [] q) h =
    absurd (h (ap last_char (sym q) ∙ last_char-dot base))
joined-Split name p (Split.dotted base (c ∷ cs) q) h =
    let e : (suc (length cs) == 0) ≡ false = ground arith in rw e q

-- The flags of the case byte.
abbrev case_byte : Bool → Bool → ℕ
case_byte base extension = (if base then 8 else 0) + (if extension then 16 else 0)

base_flag : (a b : Bool) → not (case_byte a b / 8 % 2 == 0) ≡ a
base_flag true true = refl
base_flag true false = refl
base_flag false true = refl
base_flag false false = refl

extension_flag : (a b : Bool) → not (case_byte a b / 16 % 2 == 0) ≡ b
extension_flag true true = refl
extension_flag true false = refl
extension_flag false true = refl
extension_flag false false = refl

flag_of_part : (cs : List ℕ) → not (length cs == 0) && has_lowercase cs ≡ has_lowercase cs
unfolding has_lowercase
flag_of_part [] = refl
flag_of_part (c ∷ cs) = let e : (suc (length cs) == 0) ≡ false = ground arith in rw e refl

part_reads :
    (n : ℕ) (cs : List ℕ)
    → length cs ≤ n
    → all_chars is_valid_sfn_char cs ≡ true
    → OneCase cs
    → until_space (has_lowercase cs) (upper_field n cs) ≡ cs
part_reads n cs h v o = until_space-upper_field n (has_lowercase cs) cs h v (recased_part cs o)

extension_starts :
    (cs : List ℕ)
    → all_chars is_valid_sfn_char cs ≡ true
    → starts_with_space (upper_field 3 cs) ≡ (length cs == 0)
unfolding upper_field all_chars
extension_starts [] v = refl
extension_starts (c ∷ cs) v = elim (Bool-cases (is_valid_sfn_char c)) [
  | inr bad ↦ absurd (true-ne-false (sym (rw bad at v)))
  | inl good ↦
      ==_of_ne (ascii_upper c) 32 (valid_char c good)
      ∙ (let e : (suc (length cs) == 0) ≡ false = ground arith in sym e)
]

-- What `is_valid_sfn_name` has established of the parts.
record ValidParts (base extension : List ℕ) : Type 0 where
  base_fits : length base ≤ 8
  extension_fits : length extension ≤ 3
  base_valid : all_chars is_valid_sfn_char base ≡ true
  extension_valid : all_chars is_valid_sfn_char extension ≡ true

fits_parts : (a b : ℕ) → not (a == 0 || (ltb 8 a || ltb 3 b)) ≡ true → (a ≤ 8) × (b ≤ 3)
fits_parts a b h = ground arith

is_valid_sfn_name-ValidParts :
    (name : List ℕ)
    → is_valid_sfn_name name ≡ true
    → ValidParts (split_name name).0 (split_name name).1
unfolding is_valid_sfn_name
is_valid_sfn_name-ValidParts name h =
    let base = (split_name name).0 in
    let extension = (split_name name).1 in
    let a = and_parts (not (length name == 0)) _ h in
    let b = and_parts (all_chars (λ c. not (is_separator c || c == 32)) name) _ a.1 in
    let c = and_parts (not (ltb 1 (count_dots name))) _ b.1 in
    let d =
      and_parts (not (length base == 0 || (ltb 8 (length base) || ltb 3 (length extension)))) _
        c.1 in
    let e =
      and_parts (all_chars is_valid_sfn_char base) (all_chars is_valid_sfn_char extension) d.1 in
    let f = fits_parts (length base) (length extension) d.0 in
    record { base_fits = f.0; extension_fits = f.1; base_valid = e.0; extension_valid = e.1 }

decode_parts :
    (base extension : List ℕ)
    → ValidParts base extension
    → OneCase base
    → OneCase extension
    → decode_short_name (record {
      filename = upper_field 8 base;
      extension = upper_field 3 extension;
      case_info =
          case_byte
            (not (length base == 0) && has_lowercase base)
            (not (length extension == 0) && has_lowercase extension);
    })
      ≡ joined base extension
unfolding decode_short_name joined
decode_parts base extension v ob oe =
    rw
      (
        flag_of_part base,
        flag_of_part extension,
        base_flag (has_lowercase base) (has_lowercase extension),
        extension_flag (has_lowercase base) (has_lowercase extension),
        part_reads 8 base v.base_fits v.base_valid ob,
        part_reads 3 extension v.extension_fits v.extension_valid oe,
        extension_starts extension v.extension_valid,
      )
      refl

-- What the directory entry of a short name holds: 8 and 3 characters, without a small letter, and
-- nothing but the two case flags in the case byte.
pub record Is83 (s : ShortName) : Type 0 where
  pub filename_size : length s.filename ≡ 8
  pub extension_size : length s.extension ≡ 3
  pub filename_upper : has_lowercase s.filename ≡ false
  pub extension_upper : has_lowercase s.extension ≡ false
  pub flags : (s.case_info ≡ 0) ⊎ ((s.case_info ≡ 8) ⊎ ((s.case_info ≡ 16) ⊎ (s.case_info ≡ 24)))

length-upper_field : (n : ℕ) (cs : List ℕ) → length (upper_field n cs) ≡ n
unfolding upper_field
length-upper_field zero cs = omega arith
length-upper_field (suc n) [] = omega (arith, length-upper_field n [])
length-upper_field (suc n) (c ∷ cs) = omega (arith, length-upper_field n cs)

is_lower-ascii_upper : (c : ℕ) → is_lower (ascii_upper c) ≡ false
unfolding ascii_upper
is_lower-ascii_upper c = ground arith

has_lowercase-upper_field : (n : ℕ) (cs : List ℕ) → has_lowercase (upper_field n cs) ≡ false
unfolding has_lowercase upper_field
has_lowercase-upper_field zero cs = refl
has_lowercase-upper_field (suc n) [] = has_lowercase-upper_field n []
has_lowercase-upper_field (suc n) (c ∷ cs) =
    rw (is_lower-ascii_upper c) (has_lowercase-upper_field n cs)

case_byte_flags :
    (a b : Bool)
    → (case_byte a b ≡ 0) ⊎ ((case_byte a b ≡ 8) ⊎ ((case_byte a b ≡ 16) ⊎ (case_byte a b ≡ 24)))
case_byte_flags false false = inl refl
case_byte_flags true false = inr (inl refl)
case_byte_flags false true = inr (inr (inl refl))
case_byte_flags true true = inr (inr (inr refl))

encode_sfn-Is83 : (name : List ℕ) → Is83 (encode_sfn name)
unfolding encode_sfn encode_case_info
encode_sfn-Is83 name = record {
  filename_size = length-upper_field 8 (split_name name).0;
  extension_size = length-upper_field 3 (split_name name).1;
  filename_upper = has_lowercase-upper_field 8 (split_name name).0;
  extension_upper = has_lowercase-upper_field 3 (split_name name).1;
  flags =
      case_byte_flags (not (length (split_name name).0 == 0) && has_lowercase (split_name name).0)
        (not (length (split_name name).1 == 0) && has_lowercase (split_name name).1);
}

-- A name that `is_valid_sfn_name` takes, that does not end in a dot, and whose two parts each have
-- small letters or capitals but not both, is stored in 8 and 3 characters without a small
-- letter and in a case byte of the two flags alone, and reads back as it was.
pub decode_short_name-encode_sfn :
    (name : List ℕ)
    → is_valid_sfn_name name ≡ true
    → last_char name ≢ 46
    → OneCase (split_name name).0
    → OneCase (split_name name).1
    → Is83 (encode_sfn name) × (decode_short_name (encode_sfn name) ≡ name)
unfolding encode_sfn encode_case_info
decode_short_name-encode_sfn name v h ob oe = (
  encode_sfn-Is83 name,
  decode_parts (split_name name).0 (split_name name).1 (is_valid_sfn_name-ValidParts name v) ob oe
      ∙ joined-Split name (split_name name) (split_name-Split name) h,
)
