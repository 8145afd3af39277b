-- ===== src/ReadLoops/Tests.antt =====
-- The loops on a few reads.
use open_source_project.Prelude.{
  ◌≡◌, ◌↔◌, refl, true, false, none, some, List, [], ◌∷◌, map, arith, length, Bytes, codes, str_eq,
  cstr,
}
use open_source_project.Prelude.Int.{ℤ, pos}
use open_source_project.ReadLoops.{
  prints, text_total, text_count, copy_rounds, file_copy, password_loop,
}
use open_source_project.ReadLoops.Totals.{
  Part, part_of, round_of, file_of, total_line, file_copy_lem,
}

-- The second `write` is short, and the third one fails.
abbrev parts : List Part
parts =
    record { first = b'a'; others = codes "b"; took = some 2 }
    ∷ record { first = b'c'; others = codes "de"; took = some 1 }
    ∷ record { first = b'f'; others = []; took = none }
    ∷ []

copies_some :
    copy_rounds (map round_of parts) [] (pos 0)
    ≡ record { target = codes "abc"; total = pos 2; broken = false }
unfolding copy_rounds
copies_some = refl

file_copy_lem_example :
    (text_count true (map (λ p. some (part_of p)) parts)
      ≡ prints (text_total (pos (length (file_of parts)))))
    × ((target : Bytes) × (total : ℤ) × (file_copy
            (codes "x" ∷ codes "y" ∷ [])
            true
            true
            (map round_of parts)
          ≡ (some target, prints (total_line total)))
        × ((total ≡ pos (length (file_of parts))) ↔ (target ≡ file_of parts)))
file_copy_lem_example =
    file_copy_lem (codes "x") (codes "y") parts (omega arith, (omega arith, (tt, tt))) (omega arith)

-- The second line is the password; and one that is too long, whose second part is it.
right_then : (password_loop (some (codes "no\n") ∷ some (codes "secret\n") ∷ [])).1 ≡ true
unfolding password_loop str_eq cstr
right_then = refl

in_two_parts : (password_loop (some (codes "abcdefghijkl") ∷ some (codes "secret\n") ∷ [])).1 ≡ true
unfolding password_loop str_eq cstr
in_two_parts = refl
