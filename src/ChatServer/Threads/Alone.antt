-- ===== src/ChatServer/Threads/Alone.antt =====
-- project2/gui_server.c: a thread that runs alone goes through `handle_clnt` as the function
-- `open_session` says.
use mathlib.Core.Path.{subst}
use open_source_project.Prelude.{
  ℕ, zero, suc, ◌≡◌, inl, inr, refl, sym, ap, ◌∙◌, Bool, true, false, none, some, List, [], ◌∷◌,
  arith, ltb, ◌==◌, if◌then◌else◌, Bool-cases, Option-cases, length, Bytes, codes, str_eq,
  str_eq_sound,
}
use open_source_project.Prelude.Int.{ℤ, pos, negsuc}
use open_source_project.ChatServer.{Client}
use open_source_project.ChatServer.Registry.{◌>>=◌}
use open_source_project.ChatServer.Auth.{process_auth}
use open_source_project.ChatServer.Session.{
  Read, got, closed, failed, Reply, Opened, enter, refuse, already_in, id_taken, ok, welcome,
  wrong_password, no_such_id, authenticated, open_session, scan_request, name_in_use,
}
use open_source_project.ChatServer.Threads.{
  Pc, opening, searching, checking, naming, testing, chatting, leaving, World, at, after_scan,
  after_auth, set_client, Move, reads, reads_nothing, finds_name, finds_none, checks, names, enters,
  turned_away, Steps, here, next,
}
use open_source_project.ChatServer.Threads.Races.{put, step_at, at_self, store_self}

-- Where the thread goes on behind its login.
abbrev pub goes_to : Bool → Pc
goes_to true = chatting
goes_to false = leaving

-- The thread can get from `w` to a world that is as `o` says.
abbrev pub Ends : World → ℕ → Client → Opened → Type 0
Ends w p c o =
    (v : World) × Steps w v
    × (v.users ≡ o.users)
    × (v.pc p ≡ goes_to o.chatting)
    × (v.server.heap p ≡ some (record c { name = o.name }))

no_outcome : {o : Opened} → none ≡ some o → ⊥
no_outcome e = cc

same_opened : {o o' : Opened} → some o ≡ some o' → o ≡ o'
same_opened e = cc

module _ (w : World) (p : ℕ) (c : Client) where
  -- A step to a program counter that changes nothing else.
  goes :
      (u : World) (from to : Pc)
      → Steps w u
      → u.pc p ≡ from
      → Move p u.server u.users from u.server u.users to
      → Steps w (put u p to)
  goes u from to run e mv = next run (step_at u p from to u.server u.users e mv)

  from_testing :
      (u : World) (name : Bytes) (replies : List Reply)
      → Steps w u
      → u.pc p ≡ testing
      → u.server.heap p ≡ some (record c { name = name })
      → Ends w p c (enter replies name u.users)
  from_testing u [] replies run e there = (
    put u p leaving,
    goes u testing leaving run e (turned_away (record c { name = [] }) there refl),
    refl,
    at_self u.pc p leaving,
    there,
  )
  from_testing u (x ∷ xs) replies run e there =
      let z : ltb 0 (suc (length xs)) ≡ true = ground arith in
      (
        put u p chatting,
        goes u testing chatting run e (enters (record c { name = x ∷ xs }) there (omega arith)),
        refl,
        at_self u.pc p chatting ∙ ap goes_to (sym z),
        there,
      )

  leaves :
      (u : World) (from : Pc) (reply : Reply)
      → Steps w u
      → u.pc p ≡ from
      → u.server.heap p ≡ some c
      → Move p u.server u.users from u.server u.users leaving
      → Ends w p c (refuse reply c.name u.users)
  leaves u from reply run e there mv =
      (put u p leaving, goes u from leaving run e mv, refl, at_self u.pc p leaving, there)

  turned :
      (u : World) (reply : Reply)
      → Steps w u
      → u.pc p ≡ leaving
      → u.server.heap p ≡ some c
      → Ends w p c (refuse reply c.name u.users)
  turned u reply run e there = (u, run, refl, e, there)

  from_naming :
      (u : World) (id : Bytes) (replies : List Reply)
      → Steps w u
      → u.pc p ≡ naming id
      → u.server.heap p ≡ some c
      → Ends w p c (enter replies id u.users)
  from_naming u id replies run e there =
      let d : Client = record c { name = id } in
      from_testing (record u { server = set_client u.server p d; pc = at u.pc p testing }) id
        replies
        (next run
          (step_at u p (naming id) testing (set_client u.server p d) u.users e (names c there)))
        (at_self u.pc p testing) (store_self u.server.heap p d)

  -- Behind `process_auth`.
  from_auth :
      (u : World) (result : ℤ) (mode id : Bytes)
      → Steps w u
      → u.pc p ≡ after_auth result mode id
      → u.server.heap p ≡ some c
      → Ends w p c (authenticated result mode id c.name u.users)
  from_auth u (pos zero) mode id run e there = elim (Bool-cases (str_eq mode (codes "LOGIN"))) [
    | inl q ↦ rw q (from_naming u id (ok ∷ welcome id ∷ []) run (rw q at e) there)
    | inr q ↦ rw q (from_testing u c.name (ok ∷ []) run (rw q at e) there)
  ]
  from_auth u (pos (suc n)) mode id run e there =
      elim (Bool-cases (str_eq mode (codes "REGISTER"))) [
        | inl q ↦ rw q (turned u id_taken run e there)
        | inr q ↦ rw q (turned u wrong_password run e there)
      ]
  from_auth u (negsuc n) mode id run e there = elim (Bool-cases (str_eq mode (codes "REGISTER"))) [
    | inl q ↦ rw q (turned u id_taken run e there)
    | inr q ↦ elim (Bool-cases (n == 1)) [
      | inl z ↦ rw (q, z) (turned u no_such_id run e there)
      | inr z ↦ rw (q, z) (turned u wrong_password run e there)
    ]
  ]

  from_checking :
      (u : World) (mode id pw garbage : Bytes) (o : Opened)
      → Steps w u
      → u.pc p ≡ checking mode id pw
      → u.server.heap p ≡ some c
      → (process_auth u.users mode id pw garbage >>= λ (result, file).
          some (authenticated result mode id c.name (some file)))
        ≡ some o
      → Ends w p c o
  from_checking u mode id pw garbage o run e there out =
      elim (Option-cases (process_auth u.users mode id pw garbage)) [
        | inl z ↦ absurd (no_outcome (rw z at out))
        | inr ((result, file), z) ↦
            subst (λ o'. Ends w p c o') (same_opened (rw z at out))
              (from_auth
                (record u { users = some file; pc = at u.pc p (after_auth result mode id) }) result
                mode id
                (next run (
                  step_at u p (checking mode id pw) (after_auth result mode id) u.server (some file)
                    e (checks garbage file result z)))
                (at_self u.pc p (after_auth result mode id)) there)
      ]

  -- A LOGIN, from the search on.
  from_searching :
      (u : World) (id pw garbage : Bytes) (o : Opened)
      → Steps w u
      → u.pc p ≡ searching id pw
      → u.server.heap p ≡ some c
      → (name_in_use u.server c.sock id u.server.clnt_cnt 0 >>= λ already.
          if already
          then some (refuse already_in c.name u.users)
          else (process_auth u.users (codes "LOGIN") id pw garbage >>= λ (result, file).
              some (authenticated result (codes "LOGIN") id c.name (some file))))
        ≡ some o
      → Ends w p c o
  from_searching u id pw garbage o run e there out =
      elim (Option-cases (name_in_use u.server c.sock id u.server.clnt_cnt 0)) [
        | inl z ↦ absurd (no_outcome (rw z at out))
        | inr (true, z) ↦
            subst (λ o'. Ends w p c o') (same_opened (rw z at out))
              (leaves u (searching id pw) already_in run e there (finds_name c there z))
        | inr (false, z) ↦
            from_checking (put u p (checking (codes "LOGIN") id pw)) (codes "LOGIN") id pw garbage o
              (goes u (searching id pw) (checking (codes "LOGIN") id pw) run e
                (finds_none c there z))
              (at_self u.pc p (checking (codes "LOGIN") id pw)) there (rw z at out)
      ]

  -- Whatever the first read of a client gives: where `open_session` says how it ends, the threads have a
  -- run to a world in which that client's name, the file of accounts and the choice between the chat and the
  -- end of the connection are what it says.
  pub open_session-Ends :
      (r : Read) (garbage : Bytes) (o : Opened)
      → w.pc p ≡ opening
      → w.server.heap p ≡ some c
      → open_session w.server w.users c garbage r ≡ some o
      → Ends w p c o
  unfolding open_session
  open_session-Ends closed garbage o e there out =
      subst (λ o'. Ends w p c o') (same_opened out)
        (from_testing (put w p testing) c.name [] (goes w opening testing here e reads_nothing)
          (at_self w.pc p testing) there)
  open_session-Ends failed garbage o e there out =
      subst (λ o'. Ends w p c o') (same_opened out)
        (from_testing (put w p testing) c.name [] (goes w opening testing here e reads_nothing)
          (at_self w.pc p testing) there)
  open_session-Ends (got text) garbage o e there out = elim (Option-cases (scan_request text)) [
    | inl z ↦ absurd (no_outcome (rw z at out))
    | inr ((mode, id, pw), z) ↦
        (let run = goes w opening (after_scan mode id pw) here e (reads text mode id pw z) in
          let pc = at_self w.pc p (after_scan mode id pw) in
          elim (Bool-cases (str_eq mode (codes "LOGIN"))) [
            | inl q ↦
                (let login = str_eq_sound mode (codes "LOGIN") q in
                  let to : after_scan mode id pw ≡ searching id pw = rw q refl in
                  from_searching (put w p (after_scan mode id pw)) id pw garbage o run (pc ∙ to)
                    there (rw login at (rw (z, q) at out)))
            | inr q ↦
                (let to : after_scan mode id pw ≡ checking mode id pw = rw q refl in
                  from_checking (put w p (after_scan mode id pw)) mode id pw garbage o run (pc ∙ to)
                    there (rw (z, q) at out))
          ])
  ]
