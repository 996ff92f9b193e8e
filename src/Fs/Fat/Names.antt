-- ===== src/Fs/Fat/Names.antt =====
-- The names of directory entries in src/fs/fat32.cpp: short names of 8 and 3 characters with a byte
-- that tells their case, and long names in entries of 13 characters. A name is its bytes.
use mathlib.Core.List.{reverse}
use vkernel.Common.{
  ℕ, zero, suc, ◌+◌, ◌-◌, ◌*◌, ◌/◌, ◌%◌, Bool, true, false, ◌&&◌, ◌||◌, not, Option, none, some,
  List, [], ◌∷◌, ◌++◌, ◌==◌, if◌then◌else◌, ltb, leb, length, take, drop, replicate,
}

-- `ascii_upper`, `ascii_lower`
abbrev pub is_lower : ℕ → Bool
is_lower ch = leb 97 ch && leb ch 122

abbrev pub is_upper : ℕ → Bool
is_upper ch = leb 65 ch && leb ch 90

unfoldable pub ascii_upper : ℕ → ℕ
ascii_upper ch = if is_lower ch then ch - 32 else ch

unfoldable pub ascii_lower : ℕ → ℕ
ascii_lower ch = if is_upper ch then ch + 32 else ch

-- `is_ascii_alnum`
unfoldable pub is_ascii_alnum : ℕ → Bool
unfolding ascii_upper
is_ascii_alnum ch = is_upper (ascii_upper ch) || (leb 48 ch && leb ch 57)

abbrev pub is_separator : ℕ → Bool
is_separator ch = ch == 47 || ch == 92

-- `is_valid_sfn_char`, with the characters of its `switch`: $ % ' - _ @ ~ ! ( ) ^ # &
unfoldable pub is_valid_sfn_char : ℕ → Bool
unfolding is_ascii_alnum ascii_upper
is_valid_sfn_char ch =
    let upper = ascii_upper ch in
    is_ascii_alnum upper
    || (upper == 36
        || (upper == 37
            || (upper == 39
                || (upper == 45
                    || (upper == 95
                        || (upper == 64
                            || (upper == 126
                                || (upper == 33
                                    || (upper == 40
                                        || (upper == 41
                                            || (upper == 94
                                                || (upper == 35 || upper == 38))))))))))))

-- The last index from `i` on at which the test holds, or `best`.
unfoldable pub last_index : (ℕ → Bool) → List ℕ → ℕ → ℕ → ℕ
last_index test [] i best = best
last_index test (c ∷ cs) i best = last_index test cs (i + 1) (if test c then i else best)

abbrev pub is_dot : ℕ → Bool
is_dot ch = ch == 46

-- `split_name_for_alias`
unfoldable pub split_name : List ℕ → List ℕ × List ℕ
unfolding last_index
split_name name =
    let dot_index = last_index is_dot name 0 (length name) in
    if ltb dot_index (length name)
    then (take dot_index name, drop (dot_index + 1) name)
    else (name, [])

unfoldable pub all_chars : (ℕ → Bool) → List ℕ → Bool
all_chars test [] = true
all_chars test (c ∷ cs) = test c && all_chars test cs

unfoldable pub count_dots : List ℕ → ℕ
count_dots [] = 0
count_dots (c ∷ cs) = let rest = count_dots cs in if c == 46 then rest + 1 else rest

-- `is_valid_sfn_name`
unfoldable pub is_valid_sfn_name : List ℕ → Bool
unfolding all_chars count_dots split_name
is_valid_sfn_name name =
    let (base, extension) = split_name name in
    not (length name == 0)
    && (all_chars (λ c. not (is_separator c || c == 32)) name
        && (not (ltb 1 (count_dots name))
            && (not (length base == 0 || (ltb 8 (length base) || ltb 3 (length extension)))
                && (all_chars is_valid_sfn_char base && all_chars is_valid_sfn_char extension))))

-- The fields of `FATEntry` that carry the name.
pub record ShortName : Type 0 where
  pub filename : List ℕ
  pub extension : List ℕ
  pub case_info : ℕ

-- A field of `n` characters: the name in capitals, and spaces.
unfoldable pub upper_field : ℕ → List ℕ → List ℕ
unfolding ascii_upper
upper_field zero cs = []
upper_field (suc n) [] = 32 ∷ upper_field n []
upper_field (suc n) (c ∷ cs) = ascii_upper c ∷ upper_field n cs

-- `component_has_lowercase`
unfoldable pub has_lowercase : List ℕ → Bool
has_lowercase [] = false
has_lowercase (c ∷ cs) = is_lower c || has_lowercase cs

-- `encode_case_info`
unfoldable pub encode_case_info : List ℕ → ℕ
unfolding split_name has_lowercase
encode_case_info name =
    let (base, extension) = split_name name in
    (if not (length base == 0) && has_lowercase base then 8 else 0)
    + (if not (length extension == 0) && has_lowercase extension then 16 else 0)

-- `encode_sfn`, and the case byte that `build_file_entry` and `write_file` store with it.
unfoldable pub encode_sfn : List ℕ → ShortName
unfolding split_name upper_field encode_case_info
encode_sfn name =
    let (base, extension) = split_name name in
    record {
      filename = upper_field 8 base;
      extension = upper_field 3 extension;
      case_info = encode_case_info name;
    }

-- The characters up to the first space.
unfoldable pub until_space : Bool → List ℕ → List ℕ
unfolding ascii_lower
until_space lower [] = []
until_space lower (c ∷ cs) =
    let rest = until_space lower cs in
    if c == 32 then [] else ((if lower then ascii_lower c else c) ∷ rest)

abbrev pub starts_with_space : List ℕ → Bool
starts_with_space [] = true
starts_with_space (c ∷ cs) = c == 32

-- `decode_short_name`
unfoldable pub decode_short_name : ShortName → List ℕ
unfolding until_space
decode_short_name e =
    let base = until_space (not (e.case_info / 8 % 2 == 0)) e.filename in
    let extension = until_space (not (e.case_info / 16 % 2 == 0)) e.extension in
    if starts_with_space e.extension then base else (base ++ (46 ∷ extension))

-- `lfn_checksum` over the 11 characters, in 8 bits.
unfoldable pub checksum_from : ℕ → List ℕ → ℕ
checksum_from sum [] = sum
checksum_from sum (c ∷ cs) = checksum_from ((sum * 128 + sum / 2 + c) % 256) cs

unfoldable pub lfn_checksum : ShortName → ℕ
unfolding checksum_from
lfn_checksum e = checksum_from 0 (e.filename ++ e.extension)

-- `FATLongFileNameEntry`, its three character fields as one.
pub record LongEntry : Type 0 where
  pub order : ℕ
  pub checksum : ℕ
  pub chars : List ℕ

abbrev pub max_lfn_entries : ℕ
max_lfn_entries = 20

-- The characters of one entry: the next ones of the name, then 0x0000, then 0xFFFF.
unfoldable pub lfn_chars : ℕ → List ℕ → List ℕ
lfn_chars zero cs = []
lfn_chars (suc n) [] = 0 ∷ replicate n 0xFFFF
lfn_chars (suc n) (c ∷ cs) = c ∷ lfn_chars n cs

-- The entries from `index` on, for the name from there on.
unfoldable pub lfn_entries : ℕ → ℕ → ℕ → List ℕ → List LongEntry
unfolding lfn_chars
lfn_entries zero index checksum name = []
lfn_entries (suc n) index checksum name =
    record {
      order = (if n == 0 then index + 1 + 64 else index + 1);
      checksum = checksum;
      chars = lfn_chars 13 name;
    }
    ∷ lfn_entries n (index + 1) checksum (drop 13 name)

-- `create_lfn_entries`
unfoldable pub create_lfn_entries : List ℕ → ℕ → Option (List LongEntry)
unfolding lfn_entries
create_lfn_entries name checksum =
    let entry_count = (length name + 12) / 13 in
    if entry_count == 0 || ltb max_lfn_entries entry_count
    then none
    else some (lfn_entries entry_count 0 checksum name)

-- `append_lfn_character` on the characters of one entry, with the name so far: whether the name is
-- complete, and the name.
unfoldable pub append_chars : List ℕ → List ℕ → Bool × List ℕ
append_chars [] out = (false, out)
append_chars (v ∷ vs) out =
    let next = append_chars vs (out ++ ((if ltb v 128 then v else 63) ∷ [])) in
    let skip = append_chars vs out in
    if v == 0
    then (true, out)
    else (if v == 0xFFFF then skip else (if leb 256 (length out + 1) then (true, out) else next))

unfoldable pub decode_entries : List LongEntry → List ℕ → List ℕ
unfolding append_chars
decode_entries [] out = out
decode_entries (e ∷ es) out =
    let r = append_chars e.chars out in
    let rest = decode_entries es r.1 in if r.0 then r.1 else rest

unfoldable pub checksums_match : ℕ → List LongEntry → Bool
checksums_match sum [] = true
checksums_match sum (e ∷ es) = e.checksum == sum && checksums_match sum es

-- `decode_lfn_name`, with the checksum of the short entry, on the pending entries in the order of
-- the disk, the last of the name first.
unfoldable pub decode_lfn_name : ℕ → List LongEntry → Option (List ℕ)
unfolding checksums_match decode_entries
decode_lfn_name sum [] = none
decode_lfn_name sum (e ∷ es) =
    if checksums_match sum (e ∷ es) then some (decode_entries (reverse (e ∷ es)) []) else none
