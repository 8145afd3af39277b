-- ===== src/Notify/Tests.antt =====
-- The notifications of lab2 at small inputs.
use open_source_project.Prelude.{◌≡◌, ◌↔◌, ◌⊎◌, none, some, List, [], ◌∷◌, All}
use open_source_project.Prelude.Int.{ℤ, pos, negsuc}
use open_source_project.Notify.{notify_server}
use open_source_project.Notify.Answers.{Fine, FineRound, server_ends_with_failure}

-- Without an argument the client sends its own message.
-- A message is processed, the wait behind it succeeds, and the next `sd_bus_process` fails.
abbrev calls : List (ℤ × ℤ)
calls = (pos 1, pos 0) ∷ (pos 0, pos 1) ∷ (negsuc 4, pos 0) ∷ []

third_call_fails :
    ((notify_server (pos 0) (pos 0) (pos 1) calls ≡ none)
      ↔ (Fine (pos 0) × (Fine (pos 0) × (Fine (pos 1) × All FineRound calls))))
    × ((notify_server (pos 0) (pos 0) (pos 1) calls ≡ none)
        ⊎ (notify_server (pos 0) (pos 0) (pos 1) calls ≡ some 1))
third_call_fails = server_ends_with_failure (pos 0) (pos 0) (pos 1) calls
