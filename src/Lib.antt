-- ===== src/Lib.antt =====
-- A verification library for simple_web_server, a single-process HTTP/1.0 server that serves files,
-- directory listings and the output of CGI scripts from a poll loop.
--
-- The program. main.c reads the command line (flags/setFlags.c), opens the listeners and runs a poll
-- loop over two parallel arrays, of `struct pollfd` and of `Client`, whose first slots are the
-- listeners' (client_conn/connections.c). A listener that is ready is emptied by accept_new_conn; a
-- client is read by do_read, which gathers the request, parses it (requests/parse_request.c), leads
-- its path to a file (requests/resolve_path.c), stages a response (response/build_okay_response.c,
-- response/build_error_response.c) and logs it (logging/logging.c); do_write sends the response, and
-- close_conn removes the client from the arrays.
--
-- The files, with what they model:
--   CString: the functions of string.h and stdio.h that the code calls, on byte strings; their
--     children hold what the proofs need of them (Search, Tokens, Decimal).
--   Client: the types of client_conn/connections.h, and the flags of flags/flags.h.
--   Host: what is asked of the operating system, of libmagic and of a CGI script, as parameters; and
--     the streams that are open.
--   Logging: logging/logging.c, with the truncation of vsnprintf.
--   Request: requests/parse_request.c; Accept, Reject and RoundTrip hold its theorems.
--   Resolve: requests/resolve_path.c and requests/close_resolve_path.c.
--   Response/Error: response/build_error_response.c. Response/Script, Response/Listing and
--     Response/Okay: the CGI scripts, the directory listings and the rest of
--     response/build_okay_response.c. Response/Message describes HTTP messages for a reader of them.
--   Connections: client_conn/connections.c and client_conn/accept_new_conn.c; a table is both arrays,
--     with `fd_count` and `fd_size`. Bag is what they promise: connections without an order.
--   Flags: flags/setFlags.c.
--   Read, Write: client_conn/do_read.c and client_conn/do_write.c.
--   Server: main.c, from the first table to the closing of all clients. Closing follows the descriptors
--     that accept gave, whose account is in Connections/Balance; Reasons says what can end the process
--     in the loop, without regard to how the code finds it; Exchange puts do_read and do_write
--     together, Lives follows the states of a connection, and Reachable those of the server.
--   Sockets: sockets/get_listener_v4.c and sockets/get_listener_v6.c.
--   Main: main.c from the command line to its exit, over Flags, Sockets and Server.
--   Tests: a host, and the theorems at it.
--
-- How it is modelled. A function returns the new values of what it writes to: the client, the table,
-- the world. `exit` is the outcome `exited`. What a system call gives is an argument: a list of
-- answers for the loops over accept, recv and send, which is at its end where the call would block,
-- and a function for the rest. A buffer is NULL or the bytes written to it. Numbers are natural
-- numbers: the lengths of the input are at most 16384, and the places where C would wrap or
-- truncate are written out (the room of a log entry, `%d` of a length, `atoi`, the flags as words of
-- 32 bits). A stream is a number, and the world counts the calls of fclose on a number that is not
-- open.
--
-- Fuel. Only a few loops have it: the doubling in `append`, with as much fuel as bytes are needed;
-- the loop over the slots, of which a slot may be visited again when another connection moves into
-- it, with one step for each slot and for each connection that may be accepted; and the loop that
-- closes all clients, with a step for each. The digits of a number have as much fuel as the number.
--
-- Not modelled: daemon() in main.c, and what is printed for the user but the port of a listener; the
-- stream that the log is written to, with its flushes; the file descriptors of the pipe to a CGI
-- script; memory that is not released. A signal ends the list of what poll answers.
pub mod Base
pub mod CString
pub mod Client
pub mod Logging
pub mod Request
pub mod Host
pub mod Resolve
pub mod Response
pub mod Connections
pub mod Flags
pub mod Read
pub mod Write
pub mod Server
pub mod Sockets
pub mod Main
pub mod Tests
