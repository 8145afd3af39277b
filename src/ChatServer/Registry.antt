-- ===== src/ChatServer/Registry.antt =====
-- project2/gui_server.c: how the array of clients grows (`main`) and shrinks (DISCONNECT in
-- `handle_clnt`). `none` is undefined behaviour: a dangling pointer read, an index out of range.
pub mod Remove
pub mod Live
pub mod Leave
pub mod Change
pub mod Entries
use open_source_project.Prelude.{
  ℕ, zero, suc, ◌+◌, ◌-◌, Option, none, some, List, Bytes, ltb, ◌==◌, if◌then◌else◌, length,
  get_elem?, set,
}
use open_source_project.Prelude.Int.{pos}
use open_source_project.ChatServer.{Client, Heap, Server, store}

-- Bind for code that may fault.
infixl 5 ◌>>=◌
abbrev pub ◌>>=◌ {ℓ κ} : {A : Type ℓ} {B : Type κ} → Option A → (A → Option B) → Option B
none >>= f = none
some a >>= f = f a

-- A write to an array: out of range it is undefined.
abbrev pub write_at {ℓ} : {A : Type ℓ} → List A → ℕ → A → Option (List A)
write_at xs i v = if ltb i (length xs) then some (set xs i v) else none

-- `main` after `accept`: `malloc` gives the address `p`, and `garbage` as the text that happens to
-- stand in `name`, which the code does not initialise.
unfoldable pub register : Server → ℕ → ℕ → Bytes → Option Server
register s p fd garbage = do
  let c : Client = record { sock = fd; name = garbage; room = pos 0 }
  list ← write_at s.clnt_list s.clnt_cnt p
  some (record { heap = store s.heap p (some c); clnt_list = list; clnt_cnt = s.clnt_cnt + 1 })

-- `*clnt_list[i]`
abbrev pub client_at : Heap → List ℕ → ℕ → Option Client
client_at h list i = get_elem? list i >>= h

-- The search of DISCONNECT from index `i`, with `n` rounds left: the index of the first client with
-- the socket, or `clnt_cnt`.
unfoldable pub find_sock : Heap → List ℕ → ℕ → ℕ → ℕ → Option ℕ
find_sock h list fd zero i = some i
find_sock h list fd (suc n) i =
    let rest = find_sock h list fd n (i + 1) in
    client_at h list i >>= λ other. if fd == other.sock then some i else rest

-- `while (i++ < clnt_cnt - 1) clnt_list[i] = clnt_list[i + 1];`, with `n` rounds at most. It runs
-- only where `clnt_cnt` is positive.
unfoldable pub shift : List ℕ → ℕ → ℕ → ℕ → Option (List ℕ)
shift list cnt zero i = some list
shift list cnt (suc n) i =
    let round = get_elem? list (i + 1 + 1) >>= λ p.
    write_at list (i + 1) p >>= λ list'. shift list' cnt n (i + 1) in
    if ltb i (cnt - 1) then round else some list

-- DISCONNECT for the client at address `p`: search, shift, decrement, `free`.
unfoldable pub disconnect : Server → ℕ → Option Server
disconnect s p = do
  c ← s.heap p
  i ← find_sock s.heap s.clnt_list c.sock s.clnt_cnt 0
  list ← if ltb i s.clnt_cnt then shift s.clnt_list s.clnt_cnt s.clnt_cnt i else some s.clnt_list
  some (record { heap = store s.heap p none; clnt_list = list; clnt_cnt = s.clnt_cnt - 1 })
