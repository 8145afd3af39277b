-- ===== src/Notify.antt =====
-- lab2/notify_server.c and notify_client.c: a service on the message bus and its client. What the calls
-- of sd-bus give is an argument: a negative number is an error.
mod Tests
pub mod Answers
use open_source_project.Prelude.{
  ℕ, zero, suc, Bool, true, false, Option, none, some, List, [], ◌∷◌, ◌++◌, if◌then◌else◌, Bytes,
  codes,
}
use open_source_project.Prelude.Int.{ℤ, pos, negsuc}
use open_source_project.ChatServer.Registry.{◌>>=◌}
use open_source_project.ChatClient.{sprintf}

-- What a call of the method brings back: the error -n - 1, or the text of its reply.
pub data Reply : Type 0 where
  refused : ℕ → Reply
  replied : Bytes → Reply

-- `sprintf(reply, ...)` into `reply[100]`.
unfoldable pub reply_text : Bytes → Option Bytes
reply_text message = sprintf 100 (codes "알림 '" ++ (message ++ codes "'가 성공적으로 처리되었습니다."))

-- `method_send_notification` for what `sd_bus_message_read` gives and the text that it reads.
unfoldable pub method_send_notification : ℤ → Bytes → Option Reply
unfolding reply_text
method_send_notification (negsuc n) message = some (refused n)
method_send_notification (pos n) message = reply_text message >>= λ reply. some (replied reply)

-- What `sd_bus_process` gives in a round and what `sd_bus_wait` would give behind it. The loop goes on
-- without a wait where a message was processed; the result is `ret` behind the loop.
unfoldable pub process_loop : List (ℤ × ℤ) → Option ℤ
process_loop [] = none
process_loop ((negsuc n, w) ∷ rs) = some (negsuc n)
process_loop ((pos (suc n), w) ∷ rs) = process_loop rs
process_loop ((pos zero, negsuc n) ∷ rs) = some (negsuc n)
process_loop ((pos zero, pos n) ∷ rs) = process_loop rs

-- `return ret < 0 ? EXIT_FAILURE : EXIT_SUCCESS;`
unfoldable pub exit_status : ℤ → ℕ
exit_status (negsuc n) = 1
exit_status (pos n) = 0

-- `if (ret < 0) goto finish;`
abbrev pub or_finish : ℤ → Option ℤ → Option ℤ
or_finish (negsuc n) next = some (negsuc n)
or_finish (pos n) next = next

-- `main` of the server, for what `sd_bus_default_user`, `sd_bus_add_object_vtable` and
-- `sd_bus_request_name` give; none while the loop goes on.
unfoldable pub notify_server : ℤ → ℤ → ℤ → List (ℤ × ℤ) → Option ℕ
unfolding exit_status process_loop
notify_server connected added named rounds =
    or_finish connected (or_finish added (or_finish named (process_loop rounds))) >>= λ ret.
    some (exit_status ret)

-- `argc > 1 ? argv[1] : ...`
abbrev pub message_of : List Bytes → Bytes
message_of [] = codes "건물에 불이 났습니다.!"
message_of (a ∷ as') = a

-- The text of the reply that the client prints, and its exit status.
pub record Result : Type 0 where
  pub shown : Option Bytes
  pub status : ℕ

-- `main` of the client behind its call: `read` is what `sd_bus_message_read` gives.
unfoldable pub print_reply : ℤ → Reply → Result
unfolding exit_status
print_reply read (refused n) = record { shown = none; status = exit_status (negsuc n) }
print_reply read (replied text) = record {
  shown = (elim read [ pos n ↦ some text | negsuc n ↦ none ]);
  status = exit_status read;
}

-- `main` of the client, with the arguments behind the program's name. `call` is what
-- `sd_bus_call_method` brings back for a message.
unfoldable pub notify_client : List Bytes → ℤ → (Bytes → Option Reply) → ℤ → Option Result
unfolding print_reply exit_status
notify_client args (negsuc n) call read =
    some (record { shown = none; status = exit_status (negsuc n) })
notify_client args (pos n) call read =
    call (message_of args) >>= λ reply. some (print_reply read reply)
