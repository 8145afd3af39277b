-- ===== src/ChatServer.antt =====
-- project2/gui_server.c: the data that the threads of the chat server share. The children model its
-- functions: Registry the array of clients, Auth the user file, Broadcast `send_msg`, Session
-- `handle_clnt`.
mod Tests
pub mod Registry
pub mod Broadcast
pub mod Departure
pub mod Auth
pub mod Session
pub mod Threads
use open_source_project.Prelude.{
  ℕ, ◌-◌, ◌^◌, ◌≡◌, List, Option, none, some, Bytes, if◌then◌else◌, ◌==◌,
}
use open_source_project.Prelude.Int.{ℤ}

-- `Client`. The name is the text up to the NUL of `name[20]`, and `sock` the 32 bits of the `int`.
pub record Client : Type 0 where
  pub sock : ℕ
  pub name : Bytes
  pub room : ℤ

-- The heap, by address: `none` where nothing is allocated.
abbrev pub Heap : Type 0
Heap = ℕ → Option Client

-- `clnt_list` holds addresses; only the first `clnt_cnt` entries are in use.
pub record Server : Type 0 where
  pub heap : Heap
  pub clnt_list : List ℕ
  pub clnt_cnt : ℕ

-- The -1 of an `accept` that fails, which the code does not look at.
abbrev pub no_socket : ℕ
no_socket = 2 ^ 32 - 1

abbrev pub socket_of : Option ℕ → ℕ
socket_of (some fd) = fd
socket_of none = no_socket

abbrev pub max_clnt : ℕ
max_clnt = 256

abbrev pub buf_size : ℕ
buf_size = 1024

abbrev pub store : Heap → ℕ → Option Client → Heap
store h p c q = if p == q then c else h q
