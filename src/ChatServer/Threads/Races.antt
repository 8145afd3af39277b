-- ===== src/ChatServer/Threads/Races.antt =====
-- project2/gui_server.c: what the search for a name outside of the section that sets it allows.
use mathlib.Core.Path.{subst}
use open_source_project.Prelude.{
  ℕ, ◌<◌, ◌≡◌, ◌≢◌, refl, sym, ap, ◌∙◌, false, Option, some, List, [], arith, length, All, Bytes,
  codes, str_eq, str_eq_refl,
}
use open_source_project.Prelude.Int.{pos}
use open_source_project.ChatServer.{Client, Server, store}
use open_source_project.ChatServer.Registry.Live.{Holds}
use open_source_project.ChatServer.Auth.{process_auth}
use open_source_project.ChatServer.Auth.Accounts.{
  Account, IsAccount, render, password, process_auth_lem,
}
use open_source_project.ChatServer.Session.{scan_request, name_in_use}
use open_source_project.ChatServer.Session.Opening.{taken, name_in_use_lem}
use open_source_project.ChatServer.Threads.{
  Pc, opening, searching, checking, naming, testing, chatting, World, at, set_client, Move, reads,
  finds_none, checks, names, enters, Step, runs, Steps, here, next,
}

-- The program counters after a step of `p`, seen by `p` and by another thread.
pub at_self : (pc : ℕ → Pc) (p : ℕ) (c : Pc) → at pc p c p ≡ c
at_self pc p c = ground arith

at_ne : (pc : ℕ → Pc) (p q : ℕ) (c : Pc) → p ≢ q → at pc p c q ≡ pc q
at_ne pc p q c ne = ground arith

-- A step of a thread whose program counter is known.
pub step_at :
    (w : World) (p : ℕ) (from to : Pc) (s : Server) (users : Option Bytes)
    → w.pc p ≡ from
    → Move p w.server w.users from s users to
    → Step w (record { server = s; users = users; pc = at w.pc p to })
step_at w p from to s users e mv =
    runs p (subst (λ c. Move p w.server w.users c s users to) (sym e) mv)

abbrev pub put : World → ℕ → Pc → World
put w p c = record w { pc = at w.pc p c }

pub store_self : (h : ℕ → Option Client) (p : ℕ) (c : Client) → store h p (some c) p ≡ some c
store_self h p c = ground arith

store_ne : (h : ℕ → Option Client) (p q : ℕ) (c : Option Client) → p ≢ q → store h p c q ≡ h q
store_ne h p q c ne = ground arith

-- The steps of a login.
module _ (id pw : Bytes) (as' : List Account) (known : All IsAccount as')
    (has_password : password as' id ≡ some pw) where
  reads_login :
      (w : World) (p : ℕ) (text : Bytes)
      → w.pc p ≡ opening
      → scan_request text ≡ some (codes "LOGIN", id, pw)
      → Step w (put w p (searching id pw))
  unfolding str_eq
  reads_login w p text e scanned =
      step_at w p opening (searching id pw) w.server w.users e
        (reads text (codes "LOGIN") id pw scanned)

  finds_free :
      (w : World) (p : ℕ) (c : Client)
      → w.pc p ≡ searching id pw
      → w.server.heap p ≡ some c
      → name_in_use w.server c.sock id w.server.clnt_cnt 0 ≡ some false
      → Step w (put w p (checking (codes "LOGIN") id pw))
  finds_free w p c e there free =
      step_at w p (searching id pw) (checking (codes "LOGIN") id pw) w.server w.users e
        (finds_none c there free)

  checks_password :
      (w : World) (p : ℕ)
      → w.pc p ≡ checking (codes "LOGIN") id pw
      → w.users ≡ some (render as')
      → Step w (record w { users = some (render as'); pc = at w.pc p (naming id) })
  unfolding str_eq
  checks_password w p e file =
      let result : process_auth w.users (codes "LOGIN") id pw [] ≡ some (pos 0, render as') =
        rw file (
          process_auth_lem as' (codes "LOGIN") id pw [] known
          ∙ rw (has_password, str_eq_refl pw) refl) in
      step_at w p (checking (codes "LOGIN") id pw) (naming id) w.server (some (render as')) e
        (checks [] (render as') (pos 0) result)

  takes_name :
      (w : World) (p : ℕ) (c : Client)
      → w.pc p ≡ naming id
      → w.server.heap p ≡ some c
      → Step w (record w {
        server = set_client w.server p (record c { name = id });
        pc = at w.pc p testing;
      })
  takes_name w p c e there =
      step_at w p (naming id) testing (set_client w.server p (record c { name = id })) w.users e
        (names c there)

  enters_chat :
      (w : World) (p : ℕ) (c : Client)
      → w.pc p ≡ testing
      → w.server.heap p ≡ some c
      → 0 < length c.name
      → Step w (put w p chatting)
  enters_chat w p c e there lt = step_at w p testing chatting w.server w.users e (enters c there lt)

  module _ (w : World) (cs : List Client) (p q : ℕ) (c d : Client) (text : Bytes)
      (holds : Holds w.server cs) (p_ne_q : p ≢ q) (p_opens : w.pc p ≡ opening)
      (q_opens : w.pc q ≡ opening) (p_there : w.server.heap p ≡ some c)
      (q_there : w.server.heap q ≡ some d) (users : w.users ≡ some (render as'))
      (scanned : scan_request text ≡ some (codes "LOGIN", id, pw))
      (p_free : taken c.sock id cs ≡ false) (q_free : taken d.sock id cs ≡ false)
      (some_name : 0 < length id) where
    free_name :
        (e : Client)
        → taken e.sock id cs ≡ false
        → name_in_use w.server e.sock id w.server.clnt_cnt 0 ≡ some false
    free_name e free =
        rw (holds.count) at (name_in_use_lem w.server e.sock id cs 0 holds.live) ∙ ap some free

    -- Two clients who log in with the same name and its password, a name that nobody in the chat has, can
    -- both come in: the search for the name and the `strcpy` that sets it are not one section.
    pub both_log_in :
        (v : World) × Steps w v
        × (v.pc p ≡ chatting)
        × (v.pc q ≡ chatting)
        × (v.server.heap p ≡ some (record c { name = id }))
        × (v.server.heap q ≡ some (record d { name = id }))
    both_log_in =
        let w1 = put w p (searching id pw) in
        let w2 = put w1 q (searching id pw) in
        let w3 = put w2 p (checking (codes "LOGIN") id pw) in
        let w4 = put w3 q (checking (codes "LOGIN") id pw) in
        let w5 : World = record w4 { users = some (render as'); pc = at w4.pc p (naming id) } in
        let w6 : World = record w5 { users = some (render as'); pc = at w5.pc q (naming id) } in
        let c' : Client = record c { name = id } in
        let d' : Client = record d { name = id } in
        let w7 : World = record w6 {
          server = set_client w6.server p c';
          pc = at w6.pc p testing;
        } in
        let w8 : World = record w7 {
          server = set_client w7.server q d';
          pc = at w7.pc q testing;
        } in
        let w9 = put w8 p chatting in
        let w10 = put w9 q chatting in
        let h7 : w7.server.heap q ≡ some d =
          store_ne w.server.heap p q (some c') p_ne_q ∙ q_there in
        let h8 : w8.server.heap p ≡ some c' =
          store_ne w7.server.heap q p (some d') (λ e. p_ne_q (sym e))
          ∙ store_self w.server.heap p c' in
        let h9 : w8.server.heap q ≡ some d' = store_self w7.server.heap q d' in
        (
          w10,
          next
              (next
                (next
                  (next
                    (next
                      (next
                        (next
                          (next
                            (next (next here (reads_login w p text p_opens scanned))
                              (reads_login w1 q text (ground arith) scanned))
                            (finds_free w2 p c (ground arith) p_there (free_name c p_free)))
                          (finds_free w3 q d (ground arith) q_there (free_name d q_free)))
                        (checks_password w4 p (ground arith) users))
                      (checks_password w5 q (ground arith) refl))
                    (takes_name w6 p c (ground arith) p_there))
                  (takes_name w7 q d (ground arith) h7))
                (enters_chat w8 p c' (ground arith) h8 some_name))
              (enters_chat w9 q d' (ground arith) h9 some_name),
          ground arith,
          ground arith,
          h8,
          h9,
        )
