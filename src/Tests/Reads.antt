-- ===== src/Tests/Reads.antt =====
-- The read and write theorems at a connection that asks for a file.
use simple_web_server.Base.{
  length, ◌<◌, ◌≤◌, ◌≡◌, ◌⊎◌, inl, inr, refl, true, false, some, [], ◌∷◌, ◌++◌, List, arith,
}
use simple_web_server.Client.{has_flag, Client, sending_header, closing, success, File}
use simple_web_server.Connections.{pollout, running, exited, close_file}
use simple_web_server.CString.{
  codes, starts_with, find, strnstr, c_string, strncmp_zero, strtok, bounded_copy,
}
use simple_web_server.Host.{Host, Effect, shut_down, fopen}
use simple_web_server.Read.{
  outcome_note, Recv, received, recv_interrupted, append, new_capacity, double_until, recv_loop,
  respond, do_read, Reading, write_input, finish_read, find_end,
}
use simple_web_server.Read.Append.{IsBuffered, Appended, append-Appended, new_capacity-Fits}
use simple_web_server.Read.Complete.{
  is_complete, text, IsDone, IsWaiting, IsDropped, do_read-Answers,
}
use simple_web_server.Logging.{log_append}
use simple_web_server.Read.Log.{entry_of, log_line, log_entry_whole}
use simple_web_server.Read.Loop.{gathered, stop, Looped, recv_loop-Looped}
use simple_web_server.Read.Pieces.{read_on, after, EachWaits, joined, do_read-joined}
use simple_web_server.Read.Respond.{read_as, asks_script, IsAskedFor, respond-Answers}
use simple_web_server.Read.Streams.{respond_double_close}
use simple_web_server.Resolve.{
  zero_resolved, resolve_path, split_query, path_includes_cgi, get_mime_type_by_ext,
}
use simple_web_server.Resolve.Ends.{Serves}
use simple_web_server.Request.{
  found, header_end, logs_enabled, parse_request, request_line, method_from_token,
  version_from_token, path_has_traversal, token_is,
}
use simple_web_server.Response.Error.{is_head}
use simple_web_server.Response.Okay.Framing.{IsAnswered}
use simple_web_server.Tests.Fixtures.{
  stat_of_a, host, client, slot, world, message, host-IsReliable, client-IsBuffered,
}
use simple_web_server.Write.{takes, do_write}
use simple_web_server.Write.Delivery.{Pieces, capacity, do_write-Delivers}

abbrev answers : List Recv
answers = recv_interrupted ∷ received message ∷ []

do_read-Answers_example :
    ((is_complete (text answers client) ≡ true)
      × IsDone host
          (text answers client)
          client
          slot
          world
          (do_read host answers client slot world))
    ⊎ (((is_complete (text answers client) ≡ false)
          × IsWaiting
              (text answers client)
              client
              slot
              world
              (do_read host answers client slot world))
        ⊎ IsDropped host slot world (do_read host answers client slot world))
do_read-Answers_example =
    do_read-Answers host host-IsReliable answers client slot world refl client-IsBuffered
      (unfold stop in refl) (unfold gathered in omega arith)

recv_loop-Looped_example :
    IsBuffered (recv_loop host answers client).0
    × Looped host answers client (recv_loop host answers client)
recv_loop-Looped_example = recv_loop-Looped host answers client refl client-IsBuffered

abbrev full : Client
full = record client {
  in_buf = some message;
  input_length = 23;
  input_capacity = 1024;
  header_len = 23;
}

respond-Answers_example :
    ((respond host full slot world).client.state ≡ sending_header)
    × ((respond host full slot world).pollfd ≡ record slot { events = pollout })
    × IsAnswered
        (is_head (read_as host full full.in_buf).request.method)
        (asks_script host full world (read_as host full full.in_buf))
        (IsAskedFor host full world (read_as host full full.in_buf))
        (success, (respond host full slot world).client)
respond-Answers_example = respond-Answers host host-IsReliable full slot world message refl

append-Appended_example :
    IsBuffered (append host client message)
    × Appended host client message (append host client message)
append-Appended_example = append-Appended host client message client-IsBuffered

new_capacity-Fits_example : (3000 ≤ new_capacity 0 3000) × (new_capacity 0 3000 ≤ 16384)
new_capacity-Fits_example = new_capacity-Fits 0 3000 (omega arith) (omega arith)

abbrev staged : Client
staged = record client { out_buf = some (codes "hello"); output_length = 5 }

do_write-Delivers_example :
    ((capacity (takes 2 ∷ takes 9 ∷ []) < 5)
      × (do_write (takes 2 ∷ takes 9 ∷ []) staged world ≡ exited))
    ⊎ ((5 ≤ capacity (takes 2 ∷ takes 9 ∷ []))
        × ((es : List Effect) × Pieces 5 (codes "hello") es
            × (do_write (takes 2 ∷ takes 9 ∷ []) staged world
                ≡ running (
                  record staged { output_sent = 5; state = closing },
                  record world { effects = world.effects ++ (es ++ shut_down 5 ∷ []) },
                ))))
do_write-Delivers_example =
    do_write-Delivers (takes 2 ∷ takes 9 ∷ []) staged world (codes "hello") refl (omega arith) refl
      refl

-- The same request in three pieces.
abbrev pub pieces : List (List Recv)
pieces =
    (received (codes "GET /a.t") ∷ recv_interrupted ∷ [])
    ∷ (received (codes "xt HTTP/1.0\r") ∷ [])
    ∷ []

abbrev pub last_piece : List Recv
last_piece = received (codes "\n\r\n") ∷ []

abbrev pub at_start : Reading
at_start = record { client = client; pollfd = slot; world = world }

pub pieces-EachWaits : EachWaits host pieces at_start
unfolding stop do_read recv_loop new_capacity double_until append write_input finish_read find_end
    strnstr find starts_with
pieces-EachWaits = (refl, refl, (refl, refl, tt))

do_read-joined_example :
    read_on host last_piece (after host pieces at_start)
    ≡ read_on host (joined pieces last_piece) at_start
do_read-joined_example = do_read-joined host pieces last_piece at_start pieces-EachWaits

asked_for : (read_as host full full.in_buf).request.path ≡ codes "/a.txt"
unfolding parse_request request_line has_flag strnstr strtok method_from_token version_from_token
    path_has_traversal bounded_copy strncmp_zero token_is
asked_for = refl

accepted : (read_as host full full.in_buf).status ≡ success
unfolding parse_request request_line has_flag strnstr strtok method_from_token version_from_token
    path_has_traversal bounded_copy strncmp_zero token_is
accepted = refl

abbrev found_file : File
found_file = record { handle = 1; node = 1 }

serves :
    Serves host
      (record full { resp_val = (read_as host full full.in_buf).resp })
      world
      (resolve_path host
        (record full { resp_val = (read_as host full full.in_buf).resp })
        (read_as host full full.in_buf).request
        zero_resolved
        world)
unfolding resolve_path split_query fopen path_includes_cgi parse_request request_line has_flag
    strnstr strtok method_from_token version_from_token path_has_traversal bounded_copy strncmp_zero
    token_is find starts_with c_string get_mime_type_by_ext
serves = record {
  file = found_file;
  stat = stat_of_a;
  found_stat = refl;
  done = refl;
  known = inl refl;
  rp_file = refl;
  staged = refl;
  size = refl;
  mime = inr (codes "./a.txt", refl);
  opened = refl;
  fresh = omega arith;
  balanced = refl;
}

respond_double_close_example :
    ((respond host full slot world).world.open_files ≡ [])
    × ((respond host full slot world).world.bad_closes ≡ 0)
    × ((close_file
          (respond host full slot world).client
          (respond host full slot world).world).bad_closes
        ≡ 1)
respond_double_close_example = respond_double_close host full slot world tt accepted serves

abbrev logging_host : Host
logging_host = record host { app_flags = 2 }

log_entry_whole_example :
    (log_append (read_as logging_host full (some message)).entry (outcome_note full)
      ≡ entry_of (log_line logging_host full message full))
    × (length (log_line logging_host full message full) < 8320)
log_entry_whole_example =
    log_entry_whole logging_host full message full logs has_end (omega arith) (omega arith)
      (omega arith)
  where
    logs : logs_enabled 2 ≡ true
    logs = unfold has_flag in refl

    has_end : found (strnstr message header_end 23) ≡ true
    has_end = unfold strnstr in refl
