-- ===== src/ChatServer/Registry/Live.antt =====
-- The clients that the array of the server stands for, in the order of the array.
use open_source_project.Prelude.{
  ℕ, suc, ◌+◌, ◌≤◌, ◌<◌, ◌≡◌, ◌≢◌, sym, ◌∙◌, none, some, List, [], ◌∷◌, ◌++◌, arith, length, set,
  length-append, length-set, get_elem?-set_self, get_elem?-set_ne, All, All-append, Bytes,
}
use open_source_project.Prelude.Int.{pos}
use open_source_project.ChatServer.{Client, Heap, Server, store, max_clnt}
use open_source_project.ChatServer.Registry.{client_at, register}

-- From index `i` on the array points to the clients `cs`, all of them allocated.
abbrev pub LiveFrom : Heap → List ℕ → ℕ → List Client → Type 0
LiveFrom h list i [] = Unit
LiveFrom h list i (c ∷ cs) = (client_at h list i ≡ some c) × LiveFrom h list (i + 1) cs

-- No client of the list has the socket.
abbrev pub Absent : ℕ → List Client → Type 0
Absent fd = All (λ c. c.sock ≢ fd)

abbrev pub Apart : List Client → Type 0
Apart [] = Unit
Apart (c ∷ cs) = Absent c.sock cs × Apart cs

-- The entries in use are `cs`: each is allocated, and no two share a socket.
pub record Holds (s : Server) (cs : List Client) : Type 0 where
  pub array : length s.clnt_list ≡ max_clnt
  pub fits : s.clnt_cnt ≤ max_clnt
  pub count : length cs ≡ s.clnt_cnt
  pub live : LiveFrom s.heap s.clnt_list 0 cs
  pub apart : Apart cs

pub LiveFrom-append :
    (h : Heap) (list : List ℕ) (i : ℕ) (xs ys : List Client)
    → LiveFrom h list i xs
    → LiveFrom h list (i + length xs) ys
    → LiveFrom h list i (xs ++ ys)
LiveFrom-append h list i [] ys p q = let e : i + 0 ≡ i = omega arith in rw e at q
LiveFrom-append h list i (x ∷ xs) ys (p, ps) q =
    let e : i + suc (length xs) ≡ i + 1 + length xs = omega arith in
    (p, LiveFrom-append h list (i + 1) xs ys ps (rw e at q))

pub LiveFrom-split :
    (h : Heap) (list : List ℕ) (i : ℕ) (xs ys : List Client)
    → LiveFrom h list i (xs ++ ys)
    → LiveFrom h list i xs × LiveFrom h list (i + length xs) ys
LiveFrom-split h list i [] ys q = let e : i + 0 ≡ i = omega arith in (tt, rw e q)
LiveFrom-split h list i (x ∷ xs) ys (p, ps) =
    let e : i + suc (length xs) ≡ i + 1 + length xs = omega arith in
    let (a, b) = LiveFrom-split h list (i + 1) xs ys ps in ((p, a), rw e b)

Absent-append :
    (fd : ℕ) (xs : List Client) (c : Client)
    → Absent fd xs
    → c.sock ≢ fd
    → Absent fd (xs ++ (c ∷ []))
Absent-append fd xs c a ne = All-append (λ d. d.sock ≢ fd) xs (c ∷ []) a (ne, tt)

pub Apart-snoc :
    (xs : List Client) (c : Client) → Apart xs → Absent c.sock xs → Apart (xs ++ (c ∷ []))
Apart-snoc [] c a b = (tt, tt)
Apart-snoc (x ∷ xs) c (a, as') (b, bs) =
    (Absent-append x.sock xs c a (λ e. b (sym e)), Apart-snoc xs c as' bs)

Absent-take :
    (fd : ℕ) (xs : List Client) (c : Client) (ys : List Client)
    → Absent fd (xs ++ (c ∷ ys))
    → Absent fd xs × (c.sock ≢ fd) × Absent fd ys
Absent-take fd [] c ys (p, q) = (tt, p, q)
Absent-take fd (x ∷ xs) c ys (p, q) = let (a, b, d) = Absent-take fd xs c ys q in ((p, a), b, d)

pub Apart-middle :
    (xs : List Client) (c : Client) (ys : List Client)
    → Apart (xs ++ (c ∷ ys))
    → Apart xs × Absent c.sock xs × Absent c.sock ys
Apart-middle [] c ys (a, _) = (tt, tt, a)
Apart-middle (x ∷ xs) c ys (a, as') =
    let (q, w, r) = Apart-middle xs c ys as' in
    let (b, ne, d) = Absent-take x.sock xs c ys a in ((b, q), (λ e. ne (sym e), w), r)

-- A write at another index and a change of the heap at an unused address change no live entry.
LiveFrom-set :
    (h : Heap) (list : List ℕ) (i k p : ℕ) (c : Client) (cs : List Client)
    → h p ≡ none
    → i + length cs ≤ k
    → LiveFrom h list i cs
    → LiveFrom (store h p (some c)) (set list k p) i cs
LiveFrom-set h list i k p c [] free le l = tt
LiveFrom-set h list i k p c (x ∷ cs) free le (l, ls) = (
  ground (arith, get_elem?-set_ne list k i p),
  LiveFrom-set h list (i + 1) k p c cs free (omega arith) ls,
)

-- A new connection is added at the end, with room 0 and whatever text `malloc` left in its name, as
-- long as fewer than MAX_CLNT clients are registered, the address is fresh and the socket is not in use.
pub register-Holds :
    (s : Server) (cs : List Client) (p fd : ℕ) (garbage : Bytes)
    → Holds s cs
    → s.clnt_cnt < max_clnt
    → s.heap p ≡ none
    → Absent fd cs
    → (t : Server) × (register s p fd garbage ≡ some t)
      × Holds t (cs ++ (record { sock = fd; name = garbage; room = pos 0 } ∷ []))
unfolding register
register-Holds s cs p fd garbage v room fresh unused = (
  record { heap = h; clnt_list = set s.clnt_list s.clnt_cnt p; clnt_cnt = s.clnt_cnt + 1 },
  ground (arith, v.array),
  record {
    array = length-set s.clnt_list s.clnt_cnt p ∙ v.array;
    fits = omega arith;
    count = omega (arith, length-append {0} cs (c ∷ []), v.count);
    live =
        LiveFrom-append h (set s.clnt_list s.clnt_cnt p) 0 cs (c ∷ [])
          (LiveFrom-set s.heap s.clnt_list 0 s.clnt_cnt p c cs fresh (omega (arith, v.count))
            v.live)
          (here, tt);
    apart = Apart-snoc cs c v.apart unused;
  },
)
  where
    c : Client
    c = record { sock = fd; name = garbage; room = pos 0 }

    h : Heap
    h = store s.heap p (some c)

    at : 0 + length cs ≡ s.clnt_cnt
    at = omega (arith, v.count)

    bound : s.clnt_cnt < length s.clnt_list
    bound = rw v.array room

    here : client_at h (set s.clnt_list s.clnt_cnt p) (0 + length cs) ≡ some c
    here = rw (at, get_elem?-set_self s.clnt_list s.clnt_cnt p bound) (ground arith)

-- At MAX_CLNT clients the write of the next one is out of bounds: `main` tests nothing.
pub register_full :
    (s : Server) (cs : List Client) (p fd : ℕ) (garbage : Bytes)
    → Holds s cs
    → s.clnt_cnt ≡ max_clnt
    → register s p fd garbage ≡ none
unfolding register
register_full s cs p fd garbage v e = ground (arith, v.array)
