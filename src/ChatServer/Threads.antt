-- ===== src/ChatServer/Threads.antt =====
-- project2/gui_server.c: the threads of the server. What runs under the mutex is one step; so is an access
-- to shared data outside of it. A thread is named by the address of its client.
mod Tests
pub mod Races
pub mod Orderly
pub mod Alone
use open_source_project.Prelude.{
  ℕ, zero, suc, ◌+◌, ◌-◌, ◌*◌, ◌/◌, ◌%◌, ◌^◌, ◌≤◌, ◌<◌, ◌≡◌, ◌≢◌, ◌↔◌, ◌⊎◌, inl, inr, refl, sym, ap,
  ◌∙◌, Bool, true, false, ◌&&◌, ◌||◌, not, Option, none, some, List, [], ◌∷◌, ◌++◌, map,
  append_assoc, append-nil, arith, dec_lt, ℕ_discrete, ltb, leb, ◌==◌, ==_iff, if◌then◌else◌,
  Bool-cases, Option-cases, length, get_elem?, get_or, set, take, drop, replicate, length-append,
  length-set, get_or-set_self, get_or-set_ne, get_elem?-set_self, get_elem?-set_ne, keep, words,
  words_from, is_space, IsWord, words-append_blank, words_last, All, All-append, Bytes, codes,
  str_eq, str_eq_iff, str_eq_sound, str_eq_refl, starts_with, cstr, NoNul, cstr-append_nul,
  cstr_of_NoNul,
}
use open_source_project.Prelude.Int.{ℤ, pos, negsuc}
use open_source_project.ChatServer.{Client, Server, store, socket_of}
use open_source_project.ChatServer.Registry.{register, disconnect}
use open_source_project.ChatServer.Auth.{process_auth}
use open_source_project.ChatServer.Broadcast.{Delivery, send_msg}
use open_source_project.ChatServer.Session.{
  Read, Reply, scan_request, name_in_use, Action, leave, stay, send, on_read,
}

-- Where a thread stands in `handle_clnt`: before its first read, before the search for the name, before
-- `process_auth`, before the `strcpy` of the name, before the test of the name, in the loop, at
-- DISCONNECT.
pub data Pc : Type 0 where
  absent : Pc
  opening : Pc
  searching : Bytes → Bytes → Pc
  checking : Bytes → Bytes → Bytes → Pc
  naming : Bytes → Pc
  testing : Pc
  chatting : Pc
  leaving : Pc

pub record World : Type 0 where
  pub server : Server
  pub users : Option Bytes
  pub pc : ℕ → Pc

abbrev pub at : (ℕ → Pc) → ℕ → Pc → ℕ → Pc
at pc p c q = if p == q then c else pc q

-- Behind the `sscanf`: only a LOGIN searches the name.
abbrev pub after_scan : Bytes → Bytes → Bytes → Pc
after_scan mode id pw = if str_eq mode (codes "LOGIN") then searching id pw else checking mode id pw

-- Behind `process_auth`.
abbrev pub after_auth : ℤ → Bytes → Bytes → Pc
after_auth (pos zero) mode id = if str_eq mode (codes "LOGIN") then naming id else testing
after_auth (pos (suc n)) mode id = leaving
after_auth (negsuc n) mode id = leaving

abbrev pub set_client : Server → ℕ → Client → Server
set_client s p c = record s { heap = store s.heap p (some c) }

-- A step of the thread of the client at `p`, which stands at a program counter.
pub data Move (p : ℕ) (s : Server) (users : Option Bytes)
    : Pc → Server → Option Bytes → Pc → Type 0 where
  reads :
      (text mode id pw : Bytes)
      → scan_request text ≡ some (mode, id, pw)
      → Move p s users opening s users (after_scan mode id pw)
  reads_nothing : Move p s users opening s users testing
  finds_name :
      {id pw : Bytes} (c : Client)
      → s.heap p ≡ some c
      → name_in_use s c.sock id s.clnt_cnt 0 ≡ some true
      → Move p s users (searching id pw) s users leaving
  finds_none :
      {id pw : Bytes} (c : Client)
      → s.heap p ≡ some c
      → name_in_use s c.sock id s.clnt_cnt 0 ≡ some false
      → Move p s users (searching id pw) s users (checking (codes "LOGIN") id pw)
  checks :
      {mode id pw : Bytes} (garbage file : Bytes) (result : ℤ)
      → process_auth users mode id pw garbage ≡ some (result, file)
      → Move p s users (checking mode id pw) s (some file) (after_auth result mode id)
  names :
      {id : Bytes} (c : Client)
      → s.heap p ≡ some c
      → Move p s users (naming id) (set_client s p (record c { name = id })) users testing
  enters :
      (c : Client) → s.heap p ≡ some c → 0 < length c.name → Move p s users testing s users chatting
  turned_away :
      (c : Client) → s.heap p ≡ some c → c.name ≡ [] → Move p s users testing s users leaving
  moves_room :
      (c c' : Client) (stale : Bytes) (r : Read) (replies : List Reply)
      → s.heap p ≡ some c
      → on_read c stale r ≡ some (stay c' replies)
      → Move p s users chatting (set_client s p c') users chatting
  speaks :
      (c : Client) (stale msg : Bytes) (r : Read) (len : ℕ) (ds : List Delivery)
      → s.heap p ≡ some c
      → on_read c stale r ≡ some (send msg len)
      → send_msg s c msg len ≡ some ds
      → Move p s users chatting s users chatting
  hangs_up :
      (c : Client) (stale : Bytes) (r : Read)
      → s.heap p ≡ some c
      → on_read c stale r ≡ some leave
      → Move p s users chatting s users leaving
  disconnects : (s' : Server) → disconnect s p ≡ some s' → Move p s users leaving s' users absent

-- A step of a thread, or of `main`, which adds a client at an address that is free, with
-- the descriptor of `accept` or, where that fails, -1.
pub data Step (w : World) : World → Type 0 where
  runs :
      (p : ℕ) {s : Server} {users : Option Bytes} {c : Pc}
      → Move p w.server w.users (w.pc p) s users c
      → Step w (record { server = s; users = users; pc = at w.pc p c })
  connects :
      (p : ℕ) (accepted : Option ℕ) (garbage : Bytes) (s : Server)
      → w.server.heap p ≡ none
      → register w.server p (socket_of accepted) garbage ≡ some s
      → Step w (record w { server = s; pc = at w.pc p opening })

pub data Steps (w : World) : World → Type 0 where
  here : Steps w w
  next : {u v : World} → Steps w u → Step u v → Steps w v
