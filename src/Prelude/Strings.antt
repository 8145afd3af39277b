-- ===== src/Prelude/Strings.antt =====
-- The search functions of <string.h>, and `fgets`.
use Prim.Native.Nat.{ℕ, zero, suc, ◌+◌, ◌≤◌, ◌<◌}
use mathlib.Core.Path.{◌≡◌, refl, ap}
use mathlib.Core.Logic.{◌↔◌, ◌≢◌, inl, inr}
use mathlib.Core.Bool.{Bool, true, false, ◌&&◌, ◌||◌}
use mathlib.Core.List.{[], ◌∷◌, ◌++◌, map}
use native.Mathlib.Omega.{arith}
use open_source_project.Prelude.Tests.{◌==◌, leb, if◌then◌else◌, Bool-cases}
use open_source_project.Prelude.Lists.{length, All}
use open_source_project.Prelude.Text.{Bytes, starts_with}

-- `strstr(s, p) != NULL`
unfoldable pub strstr : Bytes → Bytes → Bool
strstr [] p = starts_with [] p
strstr (c ∷ s) p = starts_with (c ∷ s) p || strstr s p

abbrev pub lower : ℕ → ℕ
lower c = if leb b'A' c && leb c b'Z' then c + 32 else c

-- `strcasestr(s, p) != NULL`
unfoldable pub strcasestr : Bytes → Bytes → Bool
strcasestr s p = strstr (map lower s) (map lower p)

-- `fgets` with room for `n` bytes: the bytes up to the first newline, and what is left to read.
unfoldable pub fgets : ℕ → Bytes → Bytes × Bytes
fgets zero s = ([], s)
fgets (suc n) [] = ([], [])
fgets (suc n) (c ∷ s) =
    let (line, rest) = fgets n s in if c == 10 then (c ∷ [], s) else (c ∷ line, rest)

pub starts_with_sound : (s p : Bytes) → starts_with s p ≡ true → (post : Bytes) × (s ≡ p ++ post)
unfolding starts_with
starts_with_sound s [] h = (s, refl)
starts_with_sound [] (q ∷ p) h = absurd (cc)
starts_with_sound (c ∷ s) (q ∷ p) h =
    let (post, e) = starts_with_sound s p (ground arith) in (post, ground arith)

pub starts_with_complete : (p post : Bytes) → starts_with (p ++ post) p ≡ true
unfolding starts_with
starts_with_complete [] post = refl
starts_with_complete (q ∷ p) post = ground (arith, starts_with_complete p post)

-- A text holds `p`.
abbrev pub Holds : Bytes → Bytes → Type 0
Holds s p = (pre : Bytes) × (post : Bytes) × (s ≡ pre ++ (p ++ post))

pub strstr_sound : (s p : Bytes) → strstr s p ≡ true → Holds s p
unfolding strstr
strstr_sound [] p h = let (post, e) = starts_with_sound [] p h in ([], post, e)
strstr_sound (c ∷ s) p h = elim (Bool-cases (starts_with (c ∷ s) p)) [
  | inl here ↦ let (post, e) = starts_with_sound (c ∷ s) p here in ([], post, e)
  | inr no' ↦
      let (pre, post, e) = strstr_sound s p (ground arith) in (c ∷ pre, post, ap (λ t. c ∷ t) e)
]

pub strstr_complete : (pre p post : Bytes) → strstr (pre ++ (p ++ post)) p ≡ true
unfolding strstr
strstr_complete [] [] [] = unfold starts_with in refl
strstr_complete [] [] (c ∷ post) = unfold starts_with in refl
strstr_complete [] (q ∷ p) post = rw (starts_with_complete (q ∷ p) post)
strstr_complete (c ∷ pre) p post = rw (strstr_complete pre p post) (ground arith)

pub strstr_iff : (s p : Bytes) → (strstr s p ≡ true) ↔ Holds s p
strstr_iff s p = (strstr_sound s p, λ (pre, post, e). rw e (strstr_complete pre p post))

-- `fgets` reads bytes and drops none.
pub fgets-append : (n : ℕ) (s : Bytes) → (fgets n s).0 ++ (fgets n s).1 ≡ s
unfolding fgets
fgets-append zero s = refl
fgets-append (suc n) [] = refl
fgets-append (suc n) (c ∷ s) = ground (arith, fgets-append n s)

-- A line that fits, with its newline, is read whole.
pub fgets_line :
    (n : ℕ) (line rest : Bytes)
    → All (λ c. c ≢ 10) line
    → length line < n
    → fgets n (line ++ (10 ∷ rest)) ≡ (line ++ (10 ∷ []), rest)
unfolding fgets
fgets_line zero line rest h lt = absurd (omega arith)
fgets_line (suc n) [] rest h lt = refl
fgets_line (suc n) (c ∷ line) rest (ne, h) lt =
    let z : (c == 10) ≡ false = ground arith in rw (z, fgets_line n line rest h (omega arith))

-- With room, something is read from a text that is not empty.
pub fgets_shorter : (n c : ℕ) (s : Bytes) → 0 < n → length (fgets n (c ∷ s)).1 ≤ length s
unfolding fgets
fgets_shorter zero c s h = absurd (omega arith)
fgets_shorter (suc n) c s h = ground (arith, rest_le n s)
  where
    rest_le : (m : ℕ) (t : Bytes) → length (fgets m t).1 ≤ length t
    rest_le zero t = omega arith
    rest_le (suc m) [] = omega arith
    rest_le (suc m) (d ∷ t) = ground (arith, rest_le m t)
