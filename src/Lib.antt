-- ===== src/Lib.antt =====
-- A model of the C programs of this repository and of what makes them correct.
--
-- The repository is a collection of course programs. Its two projects are a shell (project1) and a chat
-- messenger with a server and a GTK client (project2); the folders lab1 to lab3 hold exercises. Each part
-- is translated function by function; library modules come first.
--
-- Prelude: native numbers, lists, C strings (a text is a list of bytes without its NUL), words as scanf's
--   %s reads them, decimal numbers (%d and atoi), strstr, strcasestr and fgets; Runs has what step
--   relations share: an interface of an invariant with a distance to the next event, and the theorem that
--   long runs contain one.
-- ChatServer (project2/gui_server.c): the file itself holds the shared data, a heap of clients and the
--   array clnt_list with clnt_cnt. Registry is the part of main that adds a client and the DISCONNECT part
--   of handle_clnt; Broadcast is send_msg; Auth is process_auth; Session is handle_clnt, in two functions:
--   open_session up to its loop and on_read for one round. Departure joins Registry and Broadcast. A thread
--   reads shared data under the mutex at several moments; each reading is an argument. Threads puts these
--   readings and writings into an order: a step relation of the threads of handle_clnt and of main;
--   its children are about a thread alone, about logins at the same time, and about runs in which only the
--   client in the last entry leaves.
-- ChatClient (project2/gui_client.c): the handlers of the buttons and recv_msg, as functions of what the
--   socket and GTK calls return; what they do to windows and socket is a list of effects. Windows has the
--   windows with the handlers of their buttons, and the loop of recv_msg.
-- Protocol: client and server together: Requests, Login and SignUp for their first exchange, Rooms for the buttons
--   of the rooms, Chat for a text from one window to the others, Conversation for the texts of several users,
--   Moving for users who also change their rooms, Files for a file that a user picks.
-- Shell (project1/myshell.c, lab2/ch8/simplesh.c): Parse is parse_args and getargs over a mutable buffer
--   with indices into it; Line is the loop of main of myshell.c, from a line to the decision what to run;
--   Simple is the loop of main of simplesh.c. Session joins Line with Commands: the loop of main of myshell.c
--   over what the user types, with readline and the processes that a line starts as parameters. Processes is
--   how the shell starts processes and waits for them, as a step relation. Descriptors is what their
--   descriptors stand for; its children are about pipes, about redirections, about several lines and about a
--   typed line.
-- Commands (project1/commands.c): Args has the argument loops and confirm_action; Text is cat and grep
--   over the files' texts; Files has the commands that change the file system, over a record of system
--   calls; Listing is ls over a directory, and its children say what a line with
--   -l looks like and what is listed.
-- BoundedBuffer (lab3/3/boundedbuffer.c): the ring, and the threads around it as a step relation in which
--   every pthread call may fail and every wait may end at any time.
-- ProducerConsumer (lab3/2/boundedbuffer.c): the earlier version of the same ring, with one producer and one
--   consumer whose pthread calls succeed.
-- TurnTaking (lab3/4/hellothread.c): two threads that greet in turns, as a step relation.
-- PipeChat (lab2/pipe.c): chat_loop in two processes over two pipes.
-- PingPong (lab2/ch8/sendsignal.c): two processes that wake each other by signals, as a step relation.
-- MessageQueue (lab2/messagequeue.c): the choice of the queues, the loop that sends, the one that receives,
--   and the end of a chat.
-- Notify (lab2/notify_server.c, notify_client.c): the service and its client over what sd-bus gives.
-- CancelThread (lab3/2/cancelthread.c): the lines of the thread's loop as steps.
-- Fibonacci (lab2/ch8/pibonacci.c): the loop that prints.
-- ListRecursive (lab2/ls_R.c): list_recursive over the directories of a file system.
-- ReadLoops (lab2/ch7/textCount.c, file_copy.c, password.c): loops around read.
-- Echo (lab3/5/tcp_server.c, tcp_client.c, udp_server.c, udp_client.c): servers and clients as functions of
--   what the socket calls give.
-- NonblockPipe (lab2/nonblockpipe.c): two processes over two pipes whose reads do not wait, as a step
--   relation.
-- SelectPipe (lab2/selectpipe.c): three children and their parent, as a step relation.
-- SelectServer (lab3/6/chat_server.c, lab3/6/chat_client.c): one round of the server's loop over the
--   descriptors that select gives; Peer is the client, and Relay joins the two.
-- WebServer (lab3/7/cgiserver.c, lab3/7/test_add.c): handle_request and the CGI program; Children is the loop
--   of main with its processes and their signal, as a step relation.
-- MmapCopy (lab2/mmapcopy.c): the copy through two mappings, over the files by number.
-- SharedCounter (lab2/memorymapfile.c): the writer and the reader as a step relation.
-- Calculator (lab3/9/my_calc_gtk.c): the handlers of the buttons and the table of the buttons.
-- ClickCounter (lab3/8/my_gtk.c): the label that counts clicks.
-- TypingTest (lab2/typingtest.c): the number of errors and the speed.
--
-- Undefined behaviour (an index out of range, a dangling pointer, an overflow of a character array, the use
-- of an array that nothing wrote) is the result none. A session of the shell has a result for it, undefined,
-- beside its end, a copy of cp that goes on behind the rounds given for it, and the loop of main running out
-- of its own rounds. Loops recur on the text or the list that they walk over, or on a count of rounds:
-- clnt_cnt rounds for the loops over clnt_list, and the length of the file for the loops over fgets, where
-- each round reads a byte at least; the loop over the descriptors has FD_SETSIZE rounds at most; the calls of
-- list_recursive are nested at most one deeper than the directories. A session of the shell has more rounds
-- than bytes are typed, which is enough for its own loop. The loop of cp has none behind its rounds, and more
-- rounds than bytes are enough where its reads do not fail. A %d of a number n takes at most n rounds. The
-- loops over read and select run over the list of what these calls give. `int` counters of lines, clients and
-- items are numbers: they stay far below 2^31; atoi has the range of int, and so have the counter of
-- ClickCounter and the numbers of Fibonacci. The %d that file_copy.c gives a ssize_t prints its lower 32
-- bits. The socket of a client is the 32 bits of its int, so that the -1 of a failed accept is one of them.
--
-- Not modelled: the system calls behind processes, pipes, sockets and signals, what GTK and sd-bus do, the
-- Rust programs, and the exercises that only call the C library. lab2/nonblockpipe.c and lab2/selectpipe.c
-- read past a string literal at each write: the bytes behind it are an argument. Where a text from read or
-- malloc can be anything, it is an argument.
pub mod Prelude
pub mod ChatServer
pub mod ChatClient
pub mod Protocol
pub mod ReadLoops
pub mod Shell
pub mod BoundedBuffer
pub mod Commands
pub mod Calculator
pub mod ClickCounter
pub mod CancelThread
pub mod SelectServer
pub mod SelectPipe
pub mod WebServer
pub mod SharedCounter
pub mod TypingTest
pub mod Echo
pub mod Fibonacci
pub mod TurnTaking
pub mod PipeChat
pub mod PingPong
pub mod MessageQueue
pub mod Notify
pub mod NonblockPipe
pub mod ListRecursive
pub mod ProducerConsumer
pub mod MmapCopy
