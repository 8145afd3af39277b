-- ===== src/Prelude/Words.antt =====
-- Splitting a text into words at blanks: what scanf's %s and the shells' parsers do.
use Prim.Native.Nat.{ℕ}
use mathlib.Core.Path.{◌≡◌, refl, sym, ap, ◌∙◌}
use mathlib.Core.Logic.{◌≢◌}
use mathlib.Core.Bool.{Bool, true, false, ◌&&◌, ◌||◌}
use mathlib.Core.List.{List, [], ◌∷◌, ◌++◌, append_assoc, append-nil}
use native.Mathlib.Omega.{arith}
use open_source_project.Prelude.Tests.{◌==◌, leb, if◌then◌else◌}
use open_source_project.Prelude.Lists.{All}
use open_source_project.Prelude.Text.{Bytes}

-- `isspace` in the C locale.
abbrev pub is_space : ℕ → Bool
is_space c = c == 32 || leb 9 c && leb c 13

abbrev pub flush : Bytes → List Bytes → List Bytes
flush [] ws = ws
flush (c ∷ cur) ws = (c ∷ cur) ∷ ws

-- The words of the rest of a text, where `cur` is what was read of the current word.
unfoldable pub words_from : (ℕ → Bool) → Bytes → Bytes → List Bytes
words_from blank cur [] = flush cur []
words_from blank cur (c ∷ s) =
    if blank c then flush cur (words_from blank [] s) else words_from blank (cur ++ (c ∷ [])) s

abbrev pub words : (ℕ → Bool) → Bytes → List Bytes
words blank s = words_from blank [] s

-- A word: at least one byte, and no blank.
abbrev pub IsWord : (ℕ → Bool) → Bytes → Type 0
IsWord blank w = (w ≢ []) × All (λ c. blank c ≡ false) w

module _ (blank : ℕ → Bool) where
  pub words_from-append :
      (cur w rest : Bytes)
      → All (λ c. blank c ≡ false) w
      → words_from blank cur (w ++ rest) ≡ words_from blank (cur ++ w) rest
  unfolding words_from
  words_from-append cur [] rest h = rw append-nil
  words_from-append cur (c ∷ w) rest (hc, h) =
      rw (hc, words_from-append (cur ++ (c ∷ [])) w rest h, append_assoc)

  -- A word before a blank is read off.
  pub words-append_blank :
      (w rest : Bytes) (c : ℕ)
      → IsWord blank w
      → blank c ≡ true
      → words blank (w ++ (c ∷ rest)) ≡ w ∷ words blank rest
  unfolding words_from
  words-append_blank [] rest c (ne, h) e = absurd (ne refl)
  words-append_blank (x ∷ w) rest c (ne, h) e =
      rw (words_from-append [] (x ∷ w) (c ∷ rest) h) (rw e)

  -- A word at the end of the text is read off.
  pub words_last : (w : Bytes) → IsWord blank w → words blank w ≡ w ∷ []
  unfolding words_from
  words_last [] (ne, h) = absurd (ne refl)
  words_last (x ∷ w) (ne, h) =
      ap (words_from blank []) (sym (append-nil (x ∷ w))) ∙ words_from-append [] (x ∷ w) [] h

  All-IsWord-flush :
      (cur : Bytes) (ws : List Bytes)
      → All (λ c. blank c ≡ false) cur
      → All (IsWord blank) ws
      → All (IsWord blank) (flush cur ws)
  All-IsWord-flush [] ws h k = k
  All-IsWord-flush (c ∷ cur) ws h k = ((ground arith, h), k)
