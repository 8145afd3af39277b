-- ===== src/ChatServer/Registry/Change.antt =====
-- project2/gui_server.c: a valid array stays valid when a client changes that keeps its socket, and when the
-- client in the last entry leaves.
use mathlib.Core.Path.{subst}
use open_source_project.Prelude.{
  ℕ, suc, ◌+◌, ◌-◌, ◌<◌, ◌≡◌, inl, inr, refl, sym, ap, ◌∙◌, some, List, [], ◌∷◌, ◌++◌, arith, ◌==◌,
  Bool-cases, Option-cases, length, get_elem?, length-append,
}
use open_source_project.ChatServer.{Client, Heap, Server, store}
use open_source_project.ChatServer.Registry.{client_at, disconnect}
use open_source_project.ChatServer.Registry.Live.{LiveFrom, LiveFrom-split, Absent, Apart, Holds}
use open_source_project.ChatServer.Registry.Leave.{disconnect_last}

-- The same sockets in the same order.
pub data SameSocks : List Client → List Client → Type 0 where
  empty : SameSocks [] []
  same :
      {c d : Client} {cs ds : List Client}
      → d.sock ≡ c.sock
      → SameSocks cs ds
      → SameSocks (c ∷ cs) (d ∷ ds)

pub length-SameSocks : {cs ds : List Client} → SameSocks cs ds → length ds ≡ length cs
length-SameSocks empty = refl
length-SameSocks (same e h) = ap suc (length-SameSocks h)

SameSocks-Absent : {cs ds : List Client} (fd : ℕ) → SameSocks cs ds → Absent fd cs → Absent fd ds
SameSocks-Absent fd empty a = tt
SameSocks-Absent fd (same e h) (a, as') = (λ q. a (sym e ∙ q), SameSocks-Absent fd h as')

pub SameSocks-Apart : {cs ds : List Client} → SameSocks cs ds → Apart cs → Apart ds
SameSocks-Apart empty a = tt
SameSocks-Apart (same {c} {d} {cs} {ds} e h) (a, as') =
    (rw e (SameSocks-Absent c.sock h a), SameSocks-Apart h as')

-- A client that is changed but for its socket leaves the array valid.
LiveFrom-changed :
    (h : Heap) (list : List ℕ) (i p : ℕ) (c d : Client) (cs : List Client)
    → h p ≡ some c
    → d.sock ≡ c.sock
    → LiveFrom h list i cs
    → (ds : List Client) × LiveFrom (store h p (some d)) list i ds × SameSocks cs ds
LiveFrom-changed h list i p c d [] there e l = ([], tt, empty)
LiveFrom-changed h list i p c d (x ∷ cs) there e (l, ls) =
    let (ds, live, socks) = LiveFrom-changed h list (i + 1) p c d cs there e ls in
    elim (Option-cases (get_elem? list i)) [
      | inl n ↦ absurd (ground arith)
      | inr (q, n) ↦ elim (Bool-cases (p == q)) [
        | inl y ↦ (d ∷ ds, (ground arith, live), same (ground arith) socks)
        | inr y ↦ (x ∷ ds, (ground arith, live), same refl socks)
      ]
    ]

pub changed-Holds :
    (s : Server) (p : ℕ) (c d : Client) (cs : List Client)
    → s.heap p ≡ some c
    → d.sock ≡ c.sock
    → Holds s cs
    → (ds : List Client) × Holds (record s { heap = store s.heap p (some d) }) ds
changed-Holds s p c d cs there e v =
    let (ds, live, socks) = LiveFrom-changed s.heap s.clnt_list 0 p c d cs there e v.live in
    (
      ds,
      record {
        array = v.array;
        fits = v.fits;
        count = length-SameSocks socks ∙ v.count;
        live = live;
        apart = SameSocks-Apart socks v.apart;
      },
    )

entry_owner :
    (h : Heap) (list : List ℕ) (i p : ℕ) (c : Client)
    → get_elem? list i ≡ some p
    → client_at h list (0 + i) ≡ some c
    → h p ≡ some c
entry_owner h list i p c slot here = let z : 0 + i ≡ i = omega arith in rw (z, slot) at here

last_entry :
    (x : Client) (cs : List Client)
    → (before : List Client) × (c : Client) × (x ∷ cs ≡ before ++ (c ∷ []))
last_entry x [] = ([], x, refl)
last_entry x (y ∷ cs) = let (before, c, e) = last_entry y cs in (x ∷ before, c, ap (λ l. x ∷ l) e)

pub same_server : {t u : Server} → some u ≡ some t → u ≡ t
same_server {t} {u} e = cc

-- The client of the last entry leaves.
pub last-Holds :
    (s t : Server) (p : ℕ) (cs : List Client)
    → Holds s cs
    → 0 < s.clnt_cnt
    → get_elem? s.clnt_list (s.clnt_cnt - 1) ≡ some p
    → disconnect s p ≡ some t
    → (ds : List Client) × Holds t ds
last-Holds s t p [] v some_one slot left = absurd (omega (arith, v.count))
last-Holds s t p (x ∷ cs) v some_one slot left =
    let (before, c, e) = last_entry x cs in
    let v' : Holds s (before ++ (c ∷ [])) = subst (Holds s) e v in
    let n : s.clnt_cnt - 1 ≡ length before =
      omega (arith, v'.count, length-append before (c ∷ [])) in
    let slot' : get_elem? s.clnt_list (length before) ≡ some p = rw n at slot in
    let (_, (here, _)) = LiveFrom-split s.heap s.clnt_list 0 before (c ∷ []) v'.live in
    let owner = entry_owner s.heap s.clnt_list (length before) p c slot' here in
    let (u, done, holds, _) = disconnect_last s p c before v' slot' owner in
    (before, subst (λ o. Holds o before) (same_server (sym done ∙ left)) holds)
