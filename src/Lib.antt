-- ===== src/Lib.antt =====
-- diald-top shows in a terminal what the dial-on-demand daemon diald does, and sends it commands. Its
-- server passes both on to clients elsewhere. This development models the server, the client, and the
-- library of threads that the client is to use.
--
-- The server (server/) is one process with a select loop. Its globals are the record Server of
-- Server/State.antt: the descriptor sets `fds` and `muxedfds`, the queue `pq` of clients and the list
-- `aq` of users, from their heads; the control and monitor descriptors, the counter of watching
-- clients; and, added by the model, the calls that others can see, the latest first. The operations
-- take a state and return one. What the system answers is an argument; an exit of the server and a
-- fault of the code are `none`. A text that goes behind the end of its buffer is a fault: `outline` in
-- parse_incoming, and `user` in port_daemon, which has less room for the same user and address than the
-- `line` that auth_check logs. The log lines of auth_add and auth_check are left out otherwise, with
-- all that syslog writes.
--
-- - server/fds.h, ports.h: Server/Fds.antt, Server/Ports.antt. An fd_set is a Boolean function. A
--   descriptor is below FD_SETSIZE, which FD_SET demands. An `int` is Base's ℤ, without overflow; the
--   flags are 32-bit words. memcmp on two port_t compares the pointers to the user names: a string
--   carries its place.
-- - server/selection.c: Server/Select.antt. The local `count` of demux_fds is never set; what it holds
--   is an argument.
-- - server/port-queue.c: Server/PortQueue.antt (port_enqueue, close_port), Server/Commands.antt
--   (parse_incoming), Server/PortServer.antt (port_server). A node of the queue is its index.
-- - server/authenticate.c and conffile.y: Server/Auth.antt, on tokens. server/conffile.l, which makes
--   them of the file: Server/Conffile.antt. Flex.antt is the language that it is written in.
-- - server/fifo-server.c: Server/Monitor.antt (monitor_open, monitor_close), Server/Fifo.antt
--   (fifo_server).
-- - server/port-daemon.c: Server/Daemon.antt (port_daemon), Server/Userid.antt (clean_userid,
--   reap_userid).
-- - server/diald-top-server.c: Server/Main.antt, in Server/Main/Reach.antt the states that the rounds
--   of the loop and SIGHUP lead to, and in Server/Process.antt how the process starts and ends.
-- - Server/Invariant.antt: what holds between any two operations. Server/Access.antt: who has control
--   access, and why.
--
-- The client (client/) reads what diald or the server says, fills the lines of the screen, and sends
-- what is typed.
--
-- - Client/Printf.antt is printf, so far as the client uses it: its formats are often printed
--   themselves, with widths in them. Client/Window.antt has the calls of curses that draw, as values.
--   An access out of bounds, and a text that is longer than its buffer, is `none`.
-- - client/pipe.c: Client/Pipe.antt (the commands), Client/Startup.antt (init_fifo), Client/Rows.antt
--   (the format of the rows), Client/Refresh.antt (read_fifo, for any parser).
-- - client/parser.c: Client/Screen.antt (do_queue, and do_packet from the printed row on),
--   Client/Rows.antt (the row of a packet), Client/Status.antt (do_interface, do_state, do_message,
--   do_load). A size_t has 64 bits and an int 32 where a length is taken from a width.
-- - client/monitor.l: Client/Lexer.antt, the rules and start conditions, and Client/Lexer/Filled.antt,
--   the functions that read the pipe for it. client/monitor.y: Client/Reports.antt, what the parser
--   does with the reports that it has read, and in Client/Reports/Read.antt what they leave on the
--   screen once read_fifo has run.
-- - client/tester.c, with what client/parser.c prints for it: Client/Tester.antt.
-- - client/resolve.c: Client/Resolve.antt (resolve, built with gethostbyaddr and getdomainname),
--   Client/Service.antt (service, in its builds). A node of the table of hosts is its
--   bucket and its index there.
-- - client/screen.c: Client/Screen.antt (the line buffers), Client/Titles.antt and Client/Rows.antt
--   (the lines that screen_init prints), Client/Help.antt (helpscreen), Client/Main.antt
--   (parse_keyboard). LINES and COLS change in screen_init.
-- - client/diald-top.c: Client/Startup.antt (read_command_line on what getopt returns, and main),
--   Client/Main.antt (the loop, on what select(2) answers, what is typed and what read_fifo returns),
--   Client/Running.antt (the same loop with read_fifo and the parser, and with the room that
--   get_command has for a line). A message with an empty text is one from which yyparse never returns.
-- - client-lib/semaphores.c: ClientLib/Semaphores.antt, with pthreads, a step for each stretch that
--   holds the mutex; pthread_cond_signal wakes one waiting thread, and pthread_cond_wait may also
--   return on its own. ClientLib/SystemV.antt, with semget.
-- - client-lib/thread.c and shared_memory.c: ClientLib/Threads.antt, ClientLib/SharedMemory.antt.
-- - Remote.antt: what the client writes, as the server reads it, one line to a read(2). TCP does not
--   promise that: of two lines in one read(2) parse_incoming looks at the first.
--
-- Loops over bits and lists are structural. Four loops run on fuel, and run out of it never: serve
-- has one round more than there are clients, because each round goes on by a client or takes one out;
-- spread has n * n + n + 1 rounds for n clients, because each close starts again at the head with one
-- client less; decimal has n + 1 rounds for n, which has no more digits; tester_loop has one round
-- more than it comes upon things, where the end of the pipe is one of them, and else goes on for ever.
--
-- Not modelled: configure and the scripts; how the client's grammar makes a report of tokens; how
-- flex joins a token of what several calls of YY_INPUT have read; syslog; the calls of curses that
-- do not print; the LEXONLY part of client/tester.c. SIGHUP comes between two rounds of the server's
-- loop, not within one. Reads and writes are whole; a failed write to a client matters only in
-- fifo_server, as in the code.
-- Test data and concrete runs are in Tests.
pub mod Base
pub mod Flex
pub mod Server
pub mod Client
pub mod ClientLib
pub mod Remote
pub mod Tests
