-- ===== src/ChatServer/Threads/Tests.antt =====
-- Runs of the threads of the chat server, and the theorems on them at these runs.
use open_source_project.Prelude.{
  ℕ, ◌≡◌, refl, none, some, List, [], ◌∷◌, arith, replicate, Bytes, codes, str_eq,
}
use open_source_project.Prelude.Int.{pos}
use open_source_project.ChatServer.{Client, store}
use open_source_project.ChatServer.Registry.{find_sock, shift, register, disconnect}
use open_source_project.ChatServer.Registry.Live.{Holds}
use open_source_project.ChatServer.Auth.Accounts.{render}
use open_source_project.ChatServer.Threads.{
  absent, opening, chatting, World, at, Steps, runs, connects, disconnects, reads_nothing,
  turned_away,
}
use open_source_project.ChatServer.Threads.Races.{both_log_in}
use open_source_project.ChatServer.Threads.Orderly.{OrderlyRun, here, next, array_stays_sound}
use open_source_project.ChatServer.Session.{name_in_use}
use open_source_project.ChatServer.Session.Opening.{taken}
use open_source_project.ChatServer.Tests.{accounts, accounts-IsAccount, request_text}

-- Two new connections, and the account of Bob.
abbrev newcomer : ℕ → Client
newcomer fd = record { sock = fd; name = []; room = pos 0 }

abbrev both_open : World
both_open = record {
  server = record {
    heap = store (store (λ p. none) 10 (some (newcomer 4))) 20 (some (newcomer 5));
    clnt_list = 10 ∷ 20 ∷ replicate 254 0;
    clnt_cnt = 2;
  };
  users = some (render accounts);
  pc = at (at (λ p. absent) 10 opening) 20 opening;
}

both_open-Holds : Holds both_open.server (newcomer 4 ∷ newcomer 5 ∷ [])
both_open-Holds = record {
  array = refl;
  fits = omega arith;
  count = refl;
  live = (refl, (refl, tt));
  apart = ((omega arith, tt), (tt, tt));
}

both_log_in_example :
    (v : World) × Steps both_open v
    × (v.pc 10 ≡ chatting)
    × (v.pc 20 ≡ chatting)
    × (v.server.heap 10 ≡ some (record (newcomer 4) { name = codes "bob" }))
    × (v.server.heap 20 ≡ some (record (newcomer 5) { name = codes "bob" }))
unfolding str_eq
both_log_in_example =
    both_log_in (codes "bob") (codes "b1") accounts accounts-IsAccount refl both_open
      (newcomer 4 ∷ newcomer 5 ∷ []) 10 20 (newcomer 4) (newcomer 5) (codes "LOGIN bob b1")
      both_open-Holds (omega arith) refl refl refl refl refl request_text refl refl (omega arith)

-- The connection in the last entry ends without a login, and a new one takes its place.
abbrev orderly_run : (v : World) × OrderlyRun both_open v
unfolding register disconnect find_sock shift
orderly_run = (
  _,
  next
      (next
        (next (next here (runs 20 reads_nothing) tt) (runs 20 (turned_away (newcomer 5) refl refl))
          tt)
        (runs 20 (disconnects _ refl)) (omega arith, refl))
      (connects 20 (some 9) [] _ refl refl) (omega arith, λ q c e. ground arith),
)

array_stays_sound_example :
    (cs : List Client) × Holds orderly_run.0.server cs
    × ((fd : ℕ) (id : Bytes)
        → name_in_use orderly_run.0.server fd id orderly_run.0.server.clnt_cnt 0
          ≡ some (taken fd id cs))
array_stays_sound_example =
    array_stays_sound (newcomer 4 ∷ newcomer 5 ∷ [], both_open-Holds) orderly_run.1
