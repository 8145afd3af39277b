-- ===== src/MmapCopy.antt =====
-- lab2/mmapcopy.c: a copy of a file through two mappings. `none` is the use of what no call has written,
-- or of a mapping that failed.
mod Tests
pub mod Copied
use open_source_project.Prelude.{
  ℕ, ◌==◌, Option, none, some, List, [], ◌∷◌, if◌then◌else◌, length, replicate, Bytes,
}
use open_source_project.ChatServer.Registry.{◌>>=◌}

-- The bytes of the files, by file number.
abbrev pub Files : Type 0
Files = ℕ → Bytes

abbrev pub write_file : Files → ℕ → Bytes → Files
write_file fs f b g = if g == f then b else fs g

-- Which files the two calls of `open` give, if they succeed; the second one may create its file.
pub record Opens : Type 0 where
  pub source : Bytes → Option ℕ
  pub target : Bytes → Option ℕ

pub data Outcome : Type 0 where
  usage : Outcome
  copied : Files → ℕ → Outcome

-- Behind both calls of `open`, for a file of `n` bytes at `fstat`: the target is emptied and gets its size
-- back as NULs, and `memcpy` then reads what the source holds by now. `mmap` fails for no bytes.
unfoldable pub map_and_copy : Files → ℕ → ℕ → ℕ → Option Files
map_and_copy fs src dst n =
    let resized = write_file (write_file fs dst []) dst (replicate n 0) in
    if n == 0 then none else some (write_file resized dst (resized src))

-- `main`. Without a source `fstat` writes no size, and without a target the mapping fails.
unfoldable pub main : Opens → List Bytes → Files → Option Outcome
unfolding map_and_copy
main o (a ∷ b ∷ []) fs = o.source a >>= λ src. o.target b >>= λ dst.
    map_and_copy fs src dst (length (fs src)) >>= λ fs'. some (copied fs' (length (fs src)))
main o _ fs = some usage
