-- ===== src/Fs/RamfsLookup.antt =====
-- What the RAM file system finds after a file was added.
use vkernel.Common.{
  ℕ, ◌≡◌, inl, inr, refl, ◌&&◌, Option, none, some, List, [], ◌∷◌, ◌==◌, Bool-cases,
}
use vkernel.Fs.Ramfs.{FileEntry, normalize, is_separator}

-- The first answer, or else the second.
abbrev pub or_else : Option FileEntry → Option FileEntry → Option FileEntry
or_else none b = b
or_else (some a) b = some a

-- A normalised path has no "./" at its front left.
normalize-normalize : (path : List ℕ) → normalize (normalize path) ≡ normalize path
unfolding normalize
normalize-normalize [] = refl
normalize-normalize (a ∷ []) = refl
normalize-normalize (a ∷ b ∷ path) = elim (Bool-cases (a == 46 && is_separator b)) [
  | inl e ↦ rw e (normalize-normalize path)
  | inr e ↦ rw (e, e) refl
]
