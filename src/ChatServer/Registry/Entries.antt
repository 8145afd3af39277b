-- ===== src/ChatServer/Registry/Entries.antt =====
-- project2/gui_server.c: a valid array by its entries. The client of one entry may change, but for its
-- socket, and the array stands for the other clients as before.
use mathlib.Core.Path.{subst}
use open_source_project.Prelude.{
  ℕ, zero, suc, ◌+◌, ◌≡◌, ◌≢◌, inl, inr, refl, sym, ap, ◌∙◌, some, List, [], ◌∷◌, arith, ◌==◌,
  Bool-cases, Option-cases, get_elem?, set,
}
use open_source_project.ChatServer.{Client, Heap, Server, store}
use open_source_project.ChatServer.Registry.{client_at}
use open_source_project.ChatServer.Registry.Live.{LiveFrom, Absent, Apart, Holds}
use open_source_project.ChatServer.Registry.Change.{
  SameSocks, empty, same, length-SameSocks, SameSocks-Apart,
}

pub same_client : {c d : Client} → some c ≡ some d → c ≡ d
same_client {c} {d} e = cc

pub Absent-get :
    (fd i : ℕ) (cs : List Client) {c : Client}
    → Absent fd cs
    → get_elem? cs i ≡ some c
    → c.sock ≢ fd
Absent-get fd i [] a e = absurd (cc)
Absent-get fd zero (x ∷ cs) (a, as') e = λ q. a (ap (λ y. y.sock) (same_client e) ∙ q)
Absent-get fd (suc i) (x ∷ cs) (a, as') e = Absent-get fd i cs as' e

client_at_index :
    (h : Heap) (list : List ℕ) (k i : ℕ) (cs : List Client) {c : Client}
    → LiveFrom h list k cs
    → get_elem? cs i ≡ some c
    → client_at h list (k + i) ≡ some c
client_at_index h list k i [] l here = absurd (cc)
client_at_index h list k zero (x ∷ cs) (l, ls) here =
    let e : k + 0 ≡ k = omega arith in rw e (l ∙ here)
client_at_index h list k (suc i) (x ∷ cs) (l, ls) here =
    let e : k + suc i ≡ k + 1 + i = omega arith in
    rw e (client_at_index h list (k + 1) i cs ls here)

module _ (h : Heap) (list : List ℕ) (p : ℕ) (c d : Client) (there : h p ≡ some c) where
  entry_stays :
      (k : ℕ) (x : Client)
      → x.sock ≢ c.sock
      → client_at h list k ≡ some x
      → client_at (store h p (some d)) list k ≡ some x
  entry_stays k x ne l = elim (Option-cases (get_elem? list k)) [
    | inl n ↦ absurd (ground arith)
    | inr (q, n) ↦ elim (Bool-cases (p == q)) [
      | inl y ↦
          (let hq : h q ≡ some x = rw n at l in
            let e : q ≡ p = ground arith in
            absurd (ne (ap (λ z. z.sock) (same_client (sym hq ∙ ap h e ∙ there)))))
      | inr y ↦ ground arith
    ]
  ]

  -- A change of one client leaves the entries of the others.
  entries_stay :
      (k : ℕ) (cs : List Client)
      → Absent c.sock cs
      → LiveFrom h list k cs
      → LiveFrom (store h p (some d)) list k cs
  entries_stay k [] a l = tt
  entries_stay k (x ∷ cs) (a, as') (l, ls) = (entry_stays k x a l, entries_stay (k + 1) cs as' ls)

  LiveFrom-set :
      (k i : ℕ) (cs : List Client)
      → Apart cs
      → get_elem? cs i ≡ some c
      → get_elem? list (k + i) ≡ some p
      → LiveFrom h list k cs
      → LiveFrom (store h p (some d)) list k (set cs i d)
  LiveFrom-set k i [] a here slot l = tt
  LiveFrom-set k zero (x ∷ cs) (a, as') here slot (l, ls) =
      let e : k + 0 ≡ k = omega arith in
      let slot' : get_elem? list k ≡ some p = rw e at slot in
      (
        ground arith,
        entries_stay (k + 1) cs (subst (λ y. Absent y.sock cs) (same_client here) a) ls,
      )
  LiveFrom-set k (suc i) (x ∷ cs) (a, as') here slot (l, ls) =
      let e : k + suc i ≡ k + 1 + i = omega arith in
      (
        entry_stays k x (λ q. Absent-get x.sock i cs a here (sym q)) l,
        LiveFrom-set (k + 1) i cs as' here (rw e at slot) ls,
      )

SameSocks-refl : (cs : List Client) → SameSocks cs cs
SameSocks-refl [] = empty
SameSocks-refl (c ∷ cs) = same refl (SameSocks-refl cs)

SameSocks-set :
    (i : ℕ) (cs : List Client) (c d : Client)
    → get_elem? cs i ≡ some c
    → d.sock ≡ c.sock
    → SameSocks cs (set cs i d)
SameSocks-set i [] c d here e = empty
SameSocks-set zero (x ∷ cs) c d here e =
    same (e ∙ ap (λ y. y.sock) (sym (same_client here))) (SameSocks-refl cs)
SameSocks-set (suc i) (x ∷ cs) c d here e = same refl (SameSocks-set i cs c d here e)

-- The client of one entry is changed but for its socket.
pub set-Holds :
    (s : Server) (p i : ℕ) (c d : Client) (cs : List Client)
    → s.heap p ≡ some c
    → get_elem? s.clnt_list i ≡ some p
    → get_elem? cs i ≡ some c
    → d.sock ≡ c.sock
    → Holds s cs
    → Holds (record s { heap = store s.heap p (some d) }) (set cs i d)
set-Holds s p i c d cs there slot here e v =
    let socks = SameSocks-set i cs c d here e in
    let z : 0 + i ≡ i = omega arith in
    record {
      array = v.array;
      fits = v.fits;
      count = length-SameSocks socks ∙ v.count;
      live = LiveFrom-set s.heap s.clnt_list p c d there 0 i cs v.apart here (rw z slot) v.live;
      apart = SameSocks-Apart socks v.apart;
    }

-- Each client has an entry with its address.
pub Holds-entry :
    (s : Server) (cs : List Client) (i : ℕ) {c : Client}
    → Holds s cs
    → get_elem? cs i ≡ some c
    → (p : ℕ) × (get_elem? s.clnt_list i ≡ some p) × (s.heap p ≡ some c)
Holds-entry s cs i {c} v here = entry (client_at_index s.heap s.clnt_list 0 i cs v.live here)
  where
    entry :
        client_at s.heap s.clnt_list (0 + i) ≡ some c
        → (p : ℕ) × (get_elem? s.clnt_list i ≡ some p) × (s.heap p ≡ some c)
    entry e =
        let z : 0 + i ≡ i = omega arith in
        let e' : client_at s.heap s.clnt_list i ≡ some c = rw z at e in
        elim (Option-cases (get_elem? s.clnt_list i)) [
          | inl n ↦ absurd (ground arith)
          | inr (p, n) ↦ (p, n, rw n at e')
        ]
