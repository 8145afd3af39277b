-- ===== src/MmapCopy/Copied.antt =====
-- lab2/mmapcopy.c: what the copy leaves in the files.
use open_source_project.Prelude.{
  ℕ, ◌<◌, ◌≡◌, ◌≢◌, inl, inr, refl, false, some, [], ◌∷◌, arith, ◌==◌, if◌then◌else◌, Bool-cases,
  length, replicate, Bytes,
}
use open_source_project.MmapCopy.{Files, write_file, Opens, copied, map_and_copy, main}

-- The copy of a file that is not empty ends, reports its size and changes no other file than the target,
-- which then holds the bytes of the source: unless both names are one file, which is left as that many
-- NULs.
pub main_lem :
    (o : Opens) (a b : Bytes) (fs : Files) (src dst : ℕ)
    → o.source a ≡ some src
    → o.target b ≡ some dst
    → 0 < length (fs src)
    → (fs' : Files) × (main o (a ∷ b ∷ []) fs ≡ some (copied fs' (length (fs src))))
      × (fs' dst ≡ (if src == dst then replicate (length (fs src)) 0 else fs src))
      × ((f : ℕ) → f ≢ dst → fs' f ≡ fs f)
unfolding main map_and_copy
main_lem o a b fs src dst e f some_byte =
    let resized = write_file (write_file fs dst []) dst (replicate (length (fs src)) 0) in
    let z : (length (fs src) == 0) ≡ false = ground arith in
    (
      write_file resized dst (resized src),
      rw (e, f, z) refl,
      elim (Bool-cases (src == dst)) [ inl same ↦ ground arith | inr other ↦ ground arith ],
      λ g ne. ground arith,
    )
