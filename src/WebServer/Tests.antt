-- ===== src/WebServer/Tests.antt =====
-- The web server and the CGI program at a small request.
use open_source_project.WebServer.Children.{
  State, accepting, accepted, forked, closed, ended, handled, Reach, begin, later, after_accept,
  after_fork, after_close, read_childproc, child_ends,
}
use open_source_project.WebServer.Children.Zombies.{Kept, zombies_are_merged}
use open_source_project.Prelude.{
  true, false, ◌≡◌, refl, Option, none, some, [], arith, Bytes, codes,
}
use open_source_project.Prelude.Int.{ℤ, pos, negsuc}
use open_source_project.WebServer.{run_cgi, ok_line, handle_request, test_add}
use open_source_project.WebServer.Query.{query, page_of}
use open_source_project.WebServer.Request.{request}
use open_source_project.WebServer.Adder.{started, IsSum, sum_line, handle_request-test_add}

-- 12 and -5, to the program add.cgi.
handle_request-test_add_example :
    (len : Option Bytes) × (handle_request
        (λ f. none)
        (request (codes "add") (pos 12) (negsuc 4) [])
      ≡ some (run_cgi ok_line (started (codes "add") (pos 12) (negsuc 4) len)))
    × ((sum : ℤ) × IsSum (pos 12) (negsuc 4) sum
        × (test_add (codes "GET") (some (query (pos 12) (negsuc 4))) []
            ≡ some (page_of (query (pos 12) (negsuc 4)) (sum_line (pos 12) (negsuc 4) sum))))
handle_request-test_add_example =
    handle_request-test_add (codes "add") [] (pos 12) (negsuc 4) (refl, (refl, (refl, tt)))
      (refl, (refl, (refl, tt)))
      ((λ e. ground arith), ((λ e. ground arith), ((λ e. ground arith), tt))) (λ f. none) tt
      (ground arith) (omega arith) (omega arith) refl

-- Two children that end before the signal of the first one is handled.
abbrev two_at_once : State
two_at_once = record { pc = accepting; sockets = 0; running = 0; zombies = 1; pending = false }

serves_two : Reach 1 two_at_once
unfolding after_accept after_fork after_close read_childproc child_ends
serves_two =
    let a : State = record {
      pc = accepting;
      sockets = 0;
      running = 0;
      zombies = 0;
      pending = false;
    } in
    let b : State = record {
      pc = accepting;
      sockets = 0;
      running = 1;
      zombies = 0;
      pending = false;
    } in
    let one : Reach 0 b =
      later (later (later begin (accepted true a)) (forked true (after_accept true a)))
        (closed (record b { sockets = 1 })) in
    let two : Reach 0 (record b { running = 2 }) =
      later (later (later one (accepted true b)) (forked true (after_accept true b)))
        (closed (record b { sockets = 1; running = 2 })) in
    let three : Reach 0 (record b { running = 1; zombies = 1; pending = true }) =
      later two (ended 1 (record b { running = 2 })) in
    let four : Reach 1 (record b { running = 0; zombies = 2; pending = true }) =
      later three (ended 0 (record b { running = 1; zombies = 1; pending = true })) in
    later four (handled (record b { running = 0; zombies = 2; pending = true }))

zombies_are_merged_example : Kept 1 two_at_once
zombies_are_merged_example = zombies_are_merged serves_two
