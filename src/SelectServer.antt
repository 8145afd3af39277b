-- ===== src/SelectServer.antt =====
-- lab3/6/chat_server.c: the chat server around `select`. A descriptor is a number, an `fd_set` tells
-- which are in it; what `select`, `accept` and `read` give is an argument.
mod Tests
pub mod Delivery
pub mod Peer
pub mod Relay
use open_source_project.Prelude.{
  ℕ, zero, suc, ◌+◌, ◌-◌, ◌*◌, ◌/◌, ◌%◌, ◌^◌, ◌≤◌, ◌<◌, ◌≡◌, ◌≢◌, ◌↔◌, ◌⊎◌, inl, inr, refl, sym, ap,
  ◌∙◌, Bool, true, false, ◌&&◌, ◌||◌, not, Option, none, some, List, [], ◌∷◌, ◌++◌, map,
  append_assoc, append-nil, arith, dec_lt, ℕ_discrete, ltb, leb, ◌==◌, ==_iff, if◌then◌else◌,
  Bool-cases, Option-cases, length, get_elem?, get_or, set, take, drop, replicate, length-append,
  length-set, get_or-set_self, get_or-set_ne, get_elem?-set_self, get_elem?-set_ne, keep, words,
  words_from, is_space, IsWord, words-append_blank, words_last, All, All-append, Bytes, codes,
  str_eq, str_eq_iff, str_eq_sound, str_eq_refl, starts_with, cstr, NoNul, cstr-append_nul,
  cstr_of_NoNul,
}
use open_source_project.Prelude.Decimal.{print_nat}
use open_source_project.ChatServer.Registry.{◌>>=◌}

abbrev pub FdSet : Type 0
FdSet = ℕ → Bool

-- `FD_SETSIZE`
abbrev pub fd_setsize : ℕ
fd_setsize = 1024

-- `BUF_SIZE`
abbrev pub buf_size : ℕ
buf_size = 1024

-- `reads` and `fd_max`
pub record Server : Type 0 where
  pub reads : FdSet
  pub fd_max : ℕ

-- What the calls of one round give: `select`, `accept` and `read`, none where a call fails.
pub record Calls : Type 0 where
  pub ready : FdSet
  pub accept : Option ℕ
  pub read : ℕ → Option Bytes

abbrev pub set_to : Bool → ℕ → FdSet → FdSet
set_to b fd s j = if j == fd then b else s j

unfoldable pub start_server : ℕ → Server
start_server serv_sock = record { reads = set_to true serv_sock (λ j. false); fd_max = serv_sock }

-- `msg_with_id`
abbrev pub msg_with_id : ℕ → Bytes → Bytes
msg_with_id i buf = codes "[Client " ++ (print_nat i ++ (codes "]: " ++ cstr buf))

-- The test of the inner loop.
abbrev pub is_receiver : Server → ℕ → ℕ → ℕ → Bool
is_receiver s serv_sock i j = s.reads j && (not (j == serv_sock) && not (j == i))

-- The writes of the inner loop from `j` for `n` rounds, with their descriptors.
unfoldable pub write_all : (ℕ → Bool) → Bytes → ℕ → ℕ → List (ℕ × Bytes)
write_all test msg zero j = []
write_all test msg (suc n) j =
    let more = write_all test msg n (j + 1) in if test j then (j, msg) ∷ more else more

-- A new connection. `FD_SET` of a failed `accept` or of a descriptor past FD_SETSIZE is undefined.
unfoldable pub on_connection : Option ℕ → Server → Option Server
on_connection none s = none
on_connection (some clnt_sock) s =
    if ltb clnt_sock fd_setsize
    then some (record {
      reads = set_to true clnt_sock s.reads;
      fd_max = if ltb s.fd_max clnt_sock then clnt_sock else s.fd_max;
    })
    else none

-- Data from client `i`. `buf[str_len] = 0` is out of bounds if `read` fails or fills the buffer.
unfoldable pub on_data : ℕ → ℕ → Option Bytes → Server → Option (Server × List (ℕ × Bytes))
unfolding write_all
on_data serv_sock i none s = none
on_data serv_sock i (some []) s = some (record s { reads = set_to false i s.reads }, [])
on_data serv_sock i (some (c ∷ buf)) s =
    if ltb (length (c ∷ buf)) buf_size
    then some (s, write_all (is_receiver s serv_sock i) (msg_with_id i (c ∷ buf)) (s.fd_max + 1) 0)
    else none

-- The body of the loop over the descriptors.
unfoldable pub on_fd : ℕ → Calls → ℕ → Server → Option (Server × List (ℕ × Bytes))
unfolding on_connection on_data
on_fd serv_sock k i s =
    if k.ready i
    then (if i == serv_sock
        then (on_connection k.accept s >>= λ s'. some (s', []))
        else on_data serv_sock i (k.read i) s)
    else some (s, [])

-- The loop, `f` rounds at most; its bound is read again in every round.
unfoldable pub over_fds : ℕ → ℕ → Calls → ℕ → Server → Option (Server × List (ℕ × Bytes))
unfolding on_fd
over_fds serv_sock zero k i s = some (s, [])
over_fds serv_sock (suc f) k i s = elim (ltb i (s.fd_max + 1)) [
  | false ↦ some (s, [])
  | true ↦ on_fd serv_sock k i s >>= λ r.
      over_fds serv_sock f k (i + 1) r.0 >>= λ r'. some (r'.0, r.1 ++ r'.1)
]

-- One round of `while (1)` in which `select` gives a descriptor.
unfoldable pub round : ℕ → Calls → Server → Option (Server × List (ℕ × Bytes))
unfolding over_fds
round serv_sock k s = over_fds serv_sock fd_setsize k 0 s
