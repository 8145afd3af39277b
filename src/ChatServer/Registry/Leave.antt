-- ===== src/ChatServer/Registry/Leave.antt =====
-- What DISCONNECT leaves of the clients that the array stood for.
use open_source_project.Prelude.{
  ℕ, zero, suc, ◌+◌, ◌-◌, ◌≤◌, ◌<◌, ◌≡◌, none, some, List, [], ◌∷◌, ◌++◌, arith, length, get_elem?,
  get_or, length-append,
}
use open_source_project.ChatServer.{Client, Heap, Server, store, max_clnt}
use open_source_project.ChatServer.Registry.{client_at, find_sock, shift, disconnect}
use open_source_project.ChatServer.Registry.Remove.{shift_lem, shift_stop, get_elem?-eq-get_or}
use open_source_project.ChatServer.Registry.Live.{
  LiveFrom, Absent, Apart, Holds, LiveFrom-split, Apart-middle,
}

-- The search stops at the first entry with the socket.
find_sock_lem :
    (h : Heap) (list : List ℕ) (c : Client) (before : List Client) (n i : ℕ)
    → LiveFrom h list i before
    → client_at h list (i + length before) ≡ some c
    → Absent c.sock before
    → length before < n
    → find_sock h list c.sock n i ≡ some (i + length before)
unfolding find_sock
find_sock_lem h list c before zero i l e a lt = absurd (omega arith)
find_sock_lem h list c [] (suc n) i l e a lt =
    let z : i + 0 ≡ i = omega arith in rw z (let e' = rw z at e in rw e' (ground arith))
find_sock_lem h list c (x ∷ xs) (suc n) i (l, ls) e (ne, a) lt =
    let z : i + suc (length xs) ≡ i + 1 + length xs = omega arith in
    rw (z, l) (ground (arith, find_sock_lem h list c xs n (i + 1) ls (rw z at e) a (omega arith)))

-- Entries of clients other than the one freed stay live where the array moves them by `d`.
LiveFrom-moved :
    (h : Heap) (list new : List ℕ) (p d i : ℕ) (c : Client) (cs : List Client)
    → h p ≡ some c
    → ((j : ℕ) → i ≤ j → j < i + length cs → get_elem? new j ≡ get_elem? list (j + d))
    → Absent c.sock cs
    → LiveFrom h list (i + d) cs
    → LiveFrom (store h p none) new i cs
LiveFrom-moved h list new p d i c [] hp same a l = tt
LiveFrom-moved h list new p d i c (x ∷ xs) hp same (ne, a) (l, ls) =
    let z : i + 1 + d ≡ i + d + 1 = omega arith in
    (
      ground (arith, same i (omega arith) (omega arith)),
      LiveFrom-moved h list new p d (i + 1) c xs hp (λ j le lt. same j (omega arith) (omega arith))
          a (rw z ls),
    )

get_elem?_of_get_or :
    (xs ys : List ℕ) (i j : ℕ)
    → i < length xs
    → j < length ys
    → get_or xs i 0 ≡ get_or ys j 0
    → get_elem? xs i ≡ get_elem? ys j
get_elem?_of_get_or xs ys i j lt lt' e =
    ground (arith, get_elem?-eq-get_or xs i lt, get_elem?-eq-get_or ys j lt')

module _ (s : Server) (p : ℕ) (c : Client) (before after : List Client)
    (v : Holds s (before ++ (c ∷ after))) (slot : get_elem? s.clnt_list (length before) ≡ some p)
    (owner : s.heap p ≡ some c) where
  lengths : length before + suc (length after) ≡ s.clnt_cnt
  lengths = omega (arith, length-append {0} before (c ∷ after), v.count)

  parts :
      LiveFrom s.heap s.clnt_list 0 before × LiveFrom s.heap s.clnt_list (length before) (c ∷ after)
  parts =
      let z : 0 + length before ≡ length before = omega arith in
      let (a, b) = LiveFrom-split s.heap s.clnt_list 0 before (c ∷ after) v.live in (a, rw z at b)

  alone : Apart before × Absent c.sock before × Absent c.sock after
  alone = Apart-middle before c after v.apart

  found : find_sock s.heap s.clnt_list c.sock s.clnt_cnt 0 ≡ some (length before)
  found =
      let z : 0 + length before ≡ length before = omega arith in
      rw z at (
        find_sock_lem s.heap s.clnt_list c before s.clnt_cnt 0 parts.0 (rw z parts.1.0) alone.1
          (omega (arith, lengths)))

  -- `disconnect` once the loop that shifts is known to end with `new`.
  left :
      (new : List ℕ)
      → shift s.clnt_list s.clnt_cnt s.clnt_cnt (length before) ≡ some new
      → disconnect s p
        ≡ some (record { heap = store s.heap p none; clnt_list = new; clnt_cnt = s.clnt_cnt - 1 })
  unfolding disconnect
  left new e = ground (arith, owner, found, e, lengths)

-- A client in the last entry in use leaves as it should: exactly the others stay, in order, and its
-- memory is freed.
pub disconnect_last :
    (s : Server) (p : ℕ) (c : Client) (before : List Client)
    → Holds s (before ++ (c ∷ []))
    → get_elem? s.clnt_list (length before) ≡ some p
    → s.heap p ≡ some c
    → (t : Server) × (disconnect s p ≡ some t) × Holds t before × (t.heap p ≡ none)
disconnect_last s p c before v slot owner =
    let n = lengths s p c before [] v slot owner in
    let (apart, absent, _) = alone s p c before [] v slot owner in
    (
      record { heap = store s.heap p none; clnt_list = s.clnt_list; clnt_cnt = s.clnt_cnt - 1 },
      left s p c before [] v slot owner s.clnt_list
          (shift_stop s.clnt_list s.clnt_cnt s.clnt_cnt (length before) (omega arith)),
      record {
        array = v.array;
        fits = omega (arith, v.fits);
        count = omega arith;
        live =
            LiveFrom-moved s.heap s.clnt_list s.clnt_list p 0 0 c before owner
              (λ j le lt. let z : j + 0 ≡ j = omega arith in rw z) absent
              (parts s p c before [] v slot owner).0;
        apart = apart;
      },
      ground arith,
    )

-- A client that stands before another one, with room left in the array, leaves its own entry in
-- place: the entry then points to freed memory, the client behind it is lost from the array, and
-- those further behind move up by one.
pub disconnect_earlier :
    (s : Server) (p : ℕ) (c : Client) (before : List Client) (next : Client) (rest : List Client)
    → Holds s (before ++ (c ∷ next ∷ rest))
    → s.clnt_cnt < max_clnt
    → get_elem? s.clnt_list (length before) ≡ some p
    → s.heap p ≡ some c
    → (t : Server) × (disconnect s p ≡ some t)
      × (t.clnt_cnt ≡ length before + 1 + length rest)
      × LiveFrom t.heap t.clnt_list 0 before
      × (client_at t.heap t.clnt_list (length before) ≡ none)
      × LiveFrom t.heap t.clnt_list (length before + 1) rest
disconnect_earlier s p c before next rest v room slot owner =
    let n = lengths s p c before (next ∷ rest) v slot owner in
    let (_, absent, (_, absent')) = alone s p c before (next ∷ rest) v slot owner in
    let (front, (_, (_, back))) = parts s p c before (next ∷ rest) v slot owner in
    let (new, runs, (len, low, high, _)) =
      shift_lem s.clnt_cnt s.clnt_list s.clnt_cnt (length before) (omega arith) (rw v.array room)
        (omega arith) in
    let same : (j : ℕ) → j ≤ length before → get_elem? new j ≡ get_elem? s.clnt_list j = λ j le.
      get_elem?_of_get_or new s.clnt_list j j (omega (arith, v.array, len)) (omega (arith, v.array))
        (low j le) in
    (
      record { heap = store s.heap p none; clnt_list = new; clnt_cnt = s.clnt_cnt - 1 },
      left s p c before (next ∷ rest) v slot owner new runs,
      omega arith,
      LiveFrom-moved s.heap s.clnt_list new p 0 0 c before owner
          (λ j le lt. let z : j + 0 ≡ j = omega arith in rw z (same j (omega arith))) absent front,
      ground (arith, same (length before) (omega arith)),
      LiveFrom-moved s.heap s.clnt_list new p 1 (length before + 1) c rest owner
          (λ j le lt.
            get_elem?_of_get_or new s.clnt_list j (j + 1) (omega (arith, v.array, len))
              (omega (arith, v.array)) (high j (omega arith) (omega arith)))
          absent' back,
    )
