-- ===== src/Fs/Fat/NameTests.antt =====
-- Names of FAT32 at concrete inputs.
use mathlib.Core.List.{reverse}
use vkernel.Common.{ℕ, ◌≤◌, ◌≡◌, refl, true, some, List, [], ◌∷◌, ◌++◌, arith, length, replicate}
use vkernel.Fs.Fat.Names.{
  is_valid_sfn_char, is_valid_sfn_name, split_name, encode_sfn, decode_short_name, LongEntry,
  create_lfn_entries, decode_lfn_name, lfn_checksum, has_lowercase,
}
use vkernel.Fs.Fat.ShortNames.{Is83, OneCase, decode_short_name-encode_sfn}
use vkernel.Fs.Fat.LongNames.{decode_lfn_name-create_lfn_entries}

-- "doom.wad"
abbrev wad : List ℕ
wad = 100 ∷ 111 ∷ 111 ∷ 109 ∷ 46 ∷ 119 ∷ 97 ∷ 100 ∷ []

wad_valid : is_valid_sfn_name wad ≡ true
unfolding is_valid_sfn_char is_valid_sfn_name
wad_valid = refl

wad_case : OneCase (split_name wad).0 × OneCase (split_name wad).1
unfolding split_name has_lowercase
wad_case = (refl, refl)

decode_short_name-encode_sfn_example :
    Is83 (encode_sfn wad) × (decode_short_name (encode_sfn wad) ≡ wad)
decode_short_name-encode_sfn_example =
    decode_short_name-encode_sfn wad wad_valid (omega arith) wad_case.0 wad_case.1

-- "Doom.wad" is taken as a short name, and reads back as "doom.wad".
abbrev mixed : List ℕ
mixed = 68 ∷ 111 ∷ 111 ∷ 109 ∷ 46 ∷ 119 ∷ 97 ∷ 100 ∷ []

mixed_lost : (is_valid_sfn_name mixed ≡ true) × (decode_short_name (encode_sfn mixed) ≡ wad)
unfolding is_valid_sfn_char is_valid_sfn_name encode_sfn decode_short_name
mixed_lost = (refl, refl)

-- "doom." is taken as well, and reads back as "doom".
abbrev dotted : List ℕ
dotted = 100 ∷ 111 ∷ 111 ∷ 109 ∷ 46 ∷ []

dotted_lost :
    (is_valid_sfn_name dotted ≡ true)
    × (decode_short_name (encode_sfn dotted) ≡ 100 ∷ 111 ∷ 111 ∷ 109 ∷ [])
unfolding is_valid_sfn_char is_valid_sfn_name encode_sfn decode_short_name
dotted_lost = (refl, refl)

-- A name of 14 characters takes two entries.
abbrev long_name : List ℕ
long_name = wad ++ replicate 6 120

decode_lfn_name-create_lfn_entries_example :
    (entries : List LongEntry) × (create_lfn_entries long_name 7 ≡ some entries)
    × (length entries ≡ 2)
    × (length entries ≤ 20)
    × (decode_lfn_name 7 (reverse entries) ≡ some long_name)
decode_lfn_name-create_lfn_entries_example =
    decode_lfn_name-create_lfn_entries long_name 7 (omega arith) (omega arith) (omega arith)

long_name_orders :
    (es : List LongEntry) × (create_lfn_entries long_name 7 ≡ some es) × (length es ≡ 2)
unfolding create_lfn_entries
long_name_orders = (_, refl, refl)

wad_checksum : lfn_checksum (encode_sfn wad) ≡ 99
unfolding lfn_checksum encode_sfn
wad_checksum = refl
