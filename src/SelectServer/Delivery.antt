-- ===== src/SelectServer/Delivery.antt =====
-- lab3/6/chat_server.c: who gets a message, in every state that the server can reach.
use mathlib.Core.Path.{subst}
use open_source_project.Prelude.{
  ℕ, zero, suc, ◌+◌, ◌≤◌, ◌<◌, ◌≡◌, inl, inr, refl, ◌∙◌, Bool, true, false, ◌&&◌, Option, none,
  some, List, [], ◌∷◌, ◌++◌, arith, ltb, leb, ◌==◌, if◌then◌else◌, Bool-cases, Option-cases, length,
  Bytes,
}
use open_source_project.ChatServer.Registry.{◌>>=◌}
use open_source_project.SelectServer.{
  fd_setsize, buf_size, Server, Calls, start_server, msg_with_id, write_all, on_connection, on_data,
  is_receiver, on_fd, over_fds, round,
}

-- The states after any number of rounds.
pub data Reach (serv_sock : ℕ) : Server → Type 0 where
  start : Reach serv_sock (start_server serv_sock)
  later :
      {s s' : Server} {ws : List (ℕ × Bytes)}
      → Reach serv_sock s
      → (k : Calls) → round serv_sock k s ≡ some (s', ws)
      → Reach serv_sock s'

-- Every descriptor of the set is looked at.
abbrev pub Inv : Server → Type 0
Inv s = (j : ℕ) → s.reads j ≡ true → j ≤ s.fd_max

abbrev Holds : Option (Server × List (ℕ × Bytes)) → Type 0
Holds none = Unit
Holds (some r) = Inv r.0

-- What is written to `j`, in order.
abbrev pub received : ℕ → List (ℕ × Bytes) → List Bytes
received j [] = []
received j (w ∷ ws) = if w.0 == j then w.1 ∷ received j ws else received j ws

module _ (serv_sock : ℕ) where
  Holds-on_data :
      (i : ℕ) (got : Option Bytes) (s : Server) → Inv s → Holds (on_data serv_sock i got s)
  unfolding on_data
  Holds-on_data i none s inv = tt
  Holds-on_data i (some []) s inv = λ j h. inv j (ground arith)
  Holds-on_data i (some (c ∷ buf)) s inv = elim (Bool-cases (ltb (length (c ∷ buf)) buf_size)) [
    | inl e ↦ rw e inv
    | inr e ↦ rw e tt
  ]

  Holds-on_connection :
      (got : Option ℕ) (s : Server) → Inv s → Holds (on_connection got s >>= λ s'. some (s', []))
  unfolding on_connection
  Holds-on_connection none s inv = tt
  Holds-on_connection (some fd) s inv = elim (Bool-cases (ltb fd fd_setsize)) [
    | inl e ↦ rw e (λ j h. ground (arith, inv j))
    | inr e ↦ rw e tt
  ]

  Holds-on_fd : (k : Calls) (i : ℕ) (s : Server) → Inv s → Holds (on_fd serv_sock k i s)
  unfolding on_fd
  Holds-on_fd k i s inv = elim (Bool-cases (k.ready i)) [
    | inr e ↦ rw e inv
    | inl e ↦ elim (Bool-cases (i == serv_sock)) [
      | inl q ↦ rw (e, q) (Holds-on_connection k.accept s inv)
      | inr q ↦ rw (e, q) (Holds-on_data i (k.read i) s inv)
    ]
  ]

  Holds-bind :
      (o : Option (Server × List (ℕ × Bytes))) (g : Server → Option (Server × List (ℕ × Bytes)))
      → Holds o
      → ((s : Server) → Inv s → Holds (g s))
      → Holds (o >>= λ r. g r.0 >>= λ r'. some (r'.0, r.1 ++ r'.1))
  Holds-bind none g h k = tt
  Holds-bind (some r) g h k = elim (Option-cases (g r.0)) [
    | inl e ↦ rw e tt
    | inr (r', e) ↦ (rw e (subst Holds e (k r.0 h)))
  ]

  Holds-over_fds :
      (f : ℕ) (k : Calls) (i : ℕ) (s : Server) → Inv s → Holds (over_fds serv_sock f k i s)
  unfolding over_fds
  Holds-over_fds zero k i s inv = inv
  Holds-over_fds (suc f) k i s inv = elim (Bool-cases (ltb i (s.fd_max + 1))) [
    | inr e ↦ rw (e, over_fds) inv
    | inl e ↦
        rw (e, over_fds)
          (Holds-bind (on_fd serv_sock k i s) (over_fds serv_sock f k (i + 1))
            (Holds-on_fd k i s inv) (Holds-over_fds f k (i + 1)))
  ]

  Reach-Inv : {s : Server} → Reach serv_sock s → Inv s
  unfolding start_server round
  Reach-Inv start = λ j h. ground arith
  Reach-Inv (later {s} r k e) = subst Holds e (Holds-over_fds fd_setsize k 0 s (Reach-Inv r))

  received-write_all :
      (test : ℕ → Bool) (msg : Bytes) (j n a : ℕ)
      → received j (write_all test msg n a)
        ≡ (if leb a j && ltb j (a + n) && test j then msg ∷ [] else [])
  unfolding write_all
  received-write_all test msg j zero a = ground arith
  received-write_all test msg j (suc n) a =
      let ih = received-write_all test msg j n (a + 1) in
      elim (Bool-cases (a == j)) [
        | inl e ↦
            (let q : a ≡ j = ground arith in
              let past : leb (j + 1) j ≡ false = ground arith in
              let first : leb j j && ltb j (j + suc n) ≡ true = ground arith in
              let same : (j == j) ≡ true = ground arith in
              let later' : received j (write_all test msg n (j + 1)) ≡ [] =
                received-write_all test msg j n (j + 1) ∙ rw past refl in
              rw q (elim (Bool-cases (test j)) [
                | inl t ↦ rw (t, first, same, later')
                | inr t ↦ rw (t, first) later'
              ]))
        | inr e ↦
            (let same : leb a j && ltb j (a + suc n) ≡ leb (a + 1) j && ltb j (a + 1 + n) =
                ground arith in
              elim (Bool-cases (test a)) [ inl t ↦ rw (t, e, same) ih | inr t ↦ rw (t, same) ih ])
      ]

  in_bound :
      (s : Server) (i : ℕ) (msg : Bytes) (j : ℕ)
      → (s.reads j ≡ true → j ≤ s.fd_max)
      → (if leb 0 j && ltb j (0 + (s.fd_max + 1)) && is_receiver s serv_sock i j
          then msg ∷ []
          else [])
        ≡ (if is_receiver s serv_sock i j then msg ∷ [] else [])
  in_bound s i msg j h = elim (Bool-cases (s.reads j)) [
    | inr e ↦ rw e (ground arith)
    | inl e ↦
        (let le = h e in
          let b : leb 0 j && ltb j (0 + (s.fd_max + 1)) ≡ true = ground arith in rw b)
  ]

  -- In every state that the server reaches, a message that fits the buffer changes nothing but that it
  -- is written, once and with the number of its sender in front, to each connected client but the
  -- sender, and to no other descriptor.
  pub on_data_lem :
      {s : Server} (i c : ℕ) (buf : Bytes)
      → Reach serv_sock s
      → length (c ∷ buf) < buf_size
      → (ws : List (ℕ × Bytes)) × (on_data serv_sock i (some (c ∷ buf)) s ≡ some (s, ws))
        × ((j : ℕ)
            → received j ws
              ≡ (if is_receiver s serv_sock i j then msg_with_id i (c ∷ buf) ∷ [] else []))
  unfolding on_data
  on_data_lem {s} i c buf r h =
      let e : ltb (length (c ∷ buf)) buf_size ≡ true = ground arith in
      (
        write_all (is_receiver s serv_sock i) (msg_with_id i (c ∷ buf)) (s.fd_max + 1) 0,
        rw e refl,
        λ j.
            received-write_all (is_receiver s serv_sock i) (msg_with_id i (c ∷ buf)) j
              (s.fd_max + 1) 0
            ∙ in_bound s i (msg_with_id i (c ∷ buf)) j (Reach-Inv r j),
      )
