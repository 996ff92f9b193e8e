-- ===== src/Fs/Ramfs.antt =====
-- The RAM file system of src/fs/ramfs.cpp. The files in use are a list in the order of the table, a
-- name is its characters, and a null pointer is `none`. Whether the heap has a block for the copy of
-- the contents is an argument.
use vkernel.Common.{
  ℕ, Bool, true, false, ◌&&◌, ◌||◌, not, Option, none, some, List, [], ◌∷◌, ◌++◌, ◌==◌,
  if◌then◌else◌, ltb, length,
}

pub record FileEntry : Type 0 where
  pub name : List ℕ
  pub contents : List ℕ
  pub valid : Bool

pub data Status : Type 0 where
  success no_memory invalid_param : Status

abbrev pub max_files : ℕ
max_files = 32

abbrev pub name_capacity : ℕ
name_capacity = 128

-- '/' or '\'
abbrev pub is_separator : ℕ → Bool
is_separator ch = ch == 47 || ch == 92

-- `normalize_ramfs_path`: every "./" at the front goes.
unfoldable pub normalize : List ℕ → List ℕ
normalize [] = []
normalize (a ∷ []) = a ∷ []
normalize (a ∷ b ∷ path) =
    let rest = normalize path in if a == 46 && is_separator b then rest else a ∷ b ∷ path

-- `string_view::compare`
unfoldable pub same : List ℕ → List ℕ → Bool
same [] [] = true
same [] (b ∷ ys) = false
same (a ∷ xs) [] = false
same (a ∷ xs) (b ∷ ys) = let rest = same xs ys in if a == b then rest else false

abbrev pub is_empty : List ℕ → Bool
is_empty [] = true
is_empty (a ∷ xs) = false

abbrev pub new_file : List ℕ → List ℕ → FileEntry
new_file name contents = record { name = normalize name; contents = contents; valid = true }

-- `add_file`; `add_file_nocopy` is the same without the allocation.
unfoldable pub add_file :
    List FileEntry → Option (List ℕ) → Option (List ℕ) → Bool → Status × List FileEntry
add_file files none contents allocated =
    (if not (ltb (length files) max_files) then Status.no_memory else Status.invalid_param, files)
add_file files (some name) none allocated =
    (if not (ltb (length files) max_files) then Status.no_memory else Status.invalid_param, files)
add_file files (some name) (some contents) allocated =
    if not (ltb (length files) max_files)
    then (Status.no_memory, files)
    else (if is_empty (normalize name) || not (ltb (length (normalize name)) name_capacity)
        then (Status.invalid_param, files)
        else (if not allocated
            then (Status.no_memory, files)
            else (Status.success, files ++ (new_file name contents ∷ []))))

unfoldable pub find_named : List FileEntry → List ℕ → Option FileEntry
find_named [] name = none
find_named (f ∷ fs) name =
    let rest = find_named fs name in if f.valid && same f.name name then some f else rest

-- `find`
unfoldable pub find : List FileEntry → List ℕ → Option FileEntry
unfolding find_named
find files name = find_named files (normalize name)
