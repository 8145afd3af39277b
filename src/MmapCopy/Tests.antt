-- ===== src/MmapCopy/Tests.antt =====
-- lab2/mmapcopy.c at small inputs.
use open_source_project.Prelude.{◌≡◌, refl, none, some, [], ◌∷◌, codes, if◌then◌else◌, ◌==◌}
use open_source_project.MmapCopy.{Files, Opens, Outcome, main}

abbrev one_file : Files
one_file f = if f == 1 then codes "ab" else []

abbrev opens : Opens
opens = record { source = λ a. some 1; target = λ b. some 2 }

without_target : main opens (codes "f" ∷ []) one_file ≡ some Outcome.usage
unfolding main
without_target = refl

empty_source :
    main (record opens { source = λ a. some 3 }) (codes "f" ∷ codes "g" ∷ []) one_file ≡ none
unfolding main
empty_source = refl
