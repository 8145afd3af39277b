-- ===== src/SelectServer/Tests.antt =====
-- The server around select, at a few clients.
use open_source_project.Prelude.{
  ℕ, ◌≡◌, refl, none, some, [], ◌∷◌, ◌==◌, codes, cstr, str_eq, true, false,
}
use open_source_project.Prelude.Strings.{fgets}
use open_source_project.SelectServer.{Server, Calls, start_server, round}
use open_source_project.SelectServer.Peer.{quiet, Session, client_round, client_loop, from_keyboard}
use open_source_project.SelectServer.Delivery.{Reach, start, later}

-- The listening socket is 3 and is given client `n`.
abbrev connecting : ℕ → Calls
connecting n = record { ready = λ j. j == 3; accept = some n; read = λ j. none }

abbrev reached : (s : Server) × Reach 3 s
unfolding round start_server
reached = (_, later (later start (connecting 4) refl) (connecting 5) refl)

-- A client types two lines and q.
types_and_quits :
    (r : Session) × (client_loop
        ((quiet, true) ∷ (quiet, false) ∷ (quiet, true) ∷ (quiet, true) ∷ (quiet, true) ∷ [])
        (codes "a\nbc\nq\nd\n")
      ≡ some r)
    × (r.sent ≡ codes "a\nbc\n")
    × (r.stdin ≡ codes "d\n")
    × (r.goes_on ≡ false)
unfolding client_loop client_round cstr from_keyboard fgets str_eq
types_and_quits = (_, refl, refl, refl, refl)
