-- ===== src/ChatServer/Threads/Orderly.antt =====
-- project2/gui_server.c: the runs of the server in which only the client in the last entry of `clnt_list`
-- leaves.
use mathlib.Core.Path.{subst}
use open_source_project.Prelude.{
  ℕ, ◌+◌, ◌-◌, ◌<◌, ◌≡◌, ◌≢◌, inl, inr, refl, sym, ap, ◌∙◌, Option, some, List, [], ◌∷◌, ◌++◌,
  arith, Option-cases, get_elem?, Bytes, drop,
}
use open_source_project.Prelude.Decimal.{atoi}
use open_source_project.Prelude.Int.{pos}
use open_source_project.ChatServer.{Client, Heap, Server, socket_of, max_clnt}
use open_source_project.ChatServer.Registry.Live.{LiveFrom, Absent, Holds, register-Holds}
use open_source_project.ChatServer.Registry.Change.{changed-Holds, last-Holds, same_server}
use open_source_project.ChatServer.Session.{
  Read, got, failed, closed, Action, stay, name_in_use, on_read,
}
use open_source_project.ChatServer.Session.Opening.{taken, name_in_use_lem}
use open_source_project.ChatServer.Threads.{
  Pc, World, Move, reads, reads_nothing, finds_name, finds_none, checks, names, enters, turned_away,
  moves_room, speaks, hangs_up, disconnects, Step, runs, connects,
}

-- The socket of the sender after a message.
abbrev sock_after : Client → Option Action → ℕ
sock_after c (some (stay d replies)) = d.sock
sock_after c _ = c.sock

sock_after-on_read :
    (c : Client) (stale : Bytes) (r : Read) → sock_after c (on_read c stale r) ≡ c.sock
unfolding on_read
sock_after-on_read c stale closed = refl
sock_after-on_read c stale failed = refl
sock_after-on_read c stale (got []) = refl
sock_after-on_read c stale (got (b ∷ bs)) =
    let msg = (b ∷ bs) ++ (0 ∷ stale) in
    elim (Option-cases (atoi (drop 6 msg))) [
      | inl e ↦ rw e (ground arith)
      | inr (n, e) ↦ rw e (ground arith)
    ]

-- A thread's step leaves the array unless the thread is that of the last entry.
abbrev pub LastLeaves :
    {p : ℕ} {s t : Server} {users users' : Option Bytes} {c c' : Pc}
    → Move p s users c t users' c'
    → Type 0
LastLeaves {p} {s} (disconnects _ _) =
    (0 < s.clnt_cnt) × (get_elem? s.clnt_list (s.clnt_cnt - 1) ≡ some p)
LastLeaves _ = Unit

-- A new client finds room in the array, and no client has the number that `accept` gives: a descriptor,
-- or -1, so that it does not fail twice while the client of the first failure is there.
abbrev pub Orderly : {w v : World} → Step w v → Type 0
Orderly (runs _ mv) = LastLeaves mv
Orderly {w} (connects _ accepted _ _ _ _) =
    (w.server.clnt_cnt < max_clnt)
    × ((q : ℕ) (c : Client) → w.server.heap q ≡ some c → c.sock ≢ socket_of accepted)

pub data OrderlyRun (w : World) : World → Type 0 where
  here : OrderlyRun w w
  next : {u v : World} → OrderlyRun w u → (st : Step u v) → Orderly st → OrderlyRun w v

LiveFrom-Absent :
    (h : Heap) (list : List ℕ) (i fd : ℕ) (cs : List Client)
    → ((q : ℕ) (c : Client) → h q ≡ some c → c.sock ≢ fd)
    → LiveFrom h list i cs
    → Absent fd cs
LiveFrom-Absent h list i fd [] unused l = tt
LiveFrom-Absent h list i fd (x ∷ cs) unused (l, ls) = elim (Option-cases (get_elem? list i)) [
  | inl n ↦ absurd (ground arith)
  | inr (q, n) ↦ (unused q x (rw n at l), LiveFrom-Absent h list (i + 1) fd cs unused ls)
]

-- Some list of clients stands in the array.
abbrev pub Valid : Server → Type 0
Valid s = (cs : List Client) × Holds s cs

Move-Valid :
    {p : ℕ} {s t : Server} {users users' : Option Bytes} {c c' : Pc}
    (mv : Move p s users c t users' c')
    → LastLeaves mv
    → Valid s
    → Valid t
Move-Valid {p} {s} (names {id} c there) o (cs, v) =
    changed-Holds s p c (record c { name = id }) cs there refl v
Move-Valid {p} {s} (moves_room c d stale r replies there e) o (cs, v) =
    changed-Holds s p c d cs there (sym (ap (sock_after c) e) ∙ sock_after-on_read c stale r) v
Move-Valid {p} {s} (disconnects t left) (some_one, slot) (cs, v) =
    last-Holds s t p cs v some_one slot left
Move-Valid (reads _ _ _ _ _) o v = v
Move-Valid reads_nothing o v = v
Move-Valid (finds_name _ _ _) o v = v
Move-Valid (finds_none _ _ _) o v = v
Move-Valid (checks _ _ _ _) o v = v
Move-Valid (enters _ _ _) o v = v
Move-Valid (turned_away _ _ _) o v = v
Move-Valid (speaks _ _ _ _ _ _ _ _ _) o v = v
Move-Valid (hangs_up _ _ _ _ _) o v = v

Step-Valid : {w v : World} (st : Step w v) → Orderly st → Valid w.server → Valid v.server
Step-Valid (runs p mv) o v = Move-Valid mv o v
Step-Valid {w} (connects p accepted garbage s free done) (room, unused) (cs, v) =
    let absent =
      LiveFrom-Absent w.server.heap w.server.clnt_list 0 (socket_of accepted) cs unused v.live in
    let (t, e, holds) =
      register-Holds w.server cs p (socket_of accepted) garbage v room free absent in
    (
      _,
      subst
          (λ o.
            Holds o
              (cs ++ (record { sock = socket_of accepted; name = garbage; room = pos 0 } ∷ [])))
          (same_server (sym e ∙ done)) holds,
    )

-- As long as new clients find room in the array, no client has the number that `accept` gives (which can
-- be -1, but not twice), and only the client in the last entry leaves, the array stays valid whatever the threads do and in whatever order: all entries in use point to allocated
-- clients with different sockets, and every search for a name reads them all and no freed memory.
pub array_stays_sound :
    {w v : World}
    → Valid w.server
    → OrderlyRun w v
    → (cs : List Client) × Holds v.server cs
      × ((fd : ℕ) (id : Bytes)
          → name_in_use v.server fd id v.server.clnt_cnt 0 ≡ some (taken fd id cs))
array_stays_sound {w} {v = u} valid run =
    let (cs, v) = stays run in
    (cs, v, λ fd id. rw (v.count) at (name_in_use_lem u.server fd id cs 0 v.live))
  where
    stays : {v : World} → OrderlyRun w v → Valid v.server
    stays here = valid
    stays (next run st o) = Step-Valid st o (stays run)
