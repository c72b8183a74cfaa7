-- ===== src/Read.antt =====
-- client_conn/do_read.h and client_conn/do_read.c: the input buffer, the `recv` loop, and the way
-- from a complete request to a staged response.
pub mod Append
pub mod Loop
pub mod Answers
pub mod Respond
pub mod Headers
pub mod Complete
pub mod Log
pub mod Keeps
pub mod Streams
pub mod Quiet
pub mod Turns
pub mod Pieces
use simple_web_server.Base.{
  ℕ, zero, suc, ◌+◌, ◌-◌, ◌*◌, ◌%◌, ◌^◌, Bool, true, false, not, ◌||◌, Option, none, some, List, [],
  ◌∷◌, ◌++◌, ltb, ◌==◌, if◌then◌else◌, length, take,
}
use simple_web_server.Client.{
  Client, ClientState, reading, processing, sending_header, closing, resp_414, Status, success,
  failure,
}
use simple_web_server.Connections.{Pollfd, pollout}
use simple_web_server.CString.{Bytes, codes, c_string, strnstr, decimal}
use simple_web_server.Host.{Host, World, logged, emit}
use simple_web_server.Logging.{
  LogEntry, empty_entry, log_append, max_request_size, resp_val_to_status_string,
}
use simple_web_server.Request.{
  Request, Parsed, zero_request, header_end, logs_enabled, parse_request,
}
use simple_web_server.Resolve.{
  ResolvedPath, Resolved, zero_resolved, or_empty, resolve_path, close_resolve_path_ptr,
}
use simple_web_server.Response.Error.{build_error_response}
use simple_web_server.Response.Common.{is_empty}
use simple_web_server.Response.Okay.{build_okay_response}

abbrev pub temp_buffer : ℕ
temp_buffer = 2048

-- `while (new_cap < needed) new_cap *= 2;` with fuel.
unfoldable pub double_until : ℕ → ℕ → ℕ → ℕ
double_until zero needed new_cap = new_cap
double_until (suc fuel) needed new_cap = elim (ltb new_cap needed) [
  | true ↦ double_until fuel needed (new_cap * 2)
  | false ↦ new_cap
]

-- The capacity that `append` asks `realloc` for.
unfoldable pub new_capacity : ℕ → ℕ → ℕ
unfolding double_until
new_capacity input_capacity needed =
    double_until needed needed (if input_capacity == 0 then 1024 else input_capacity * 2)

-- `memcpy` behind the bytes that are there.
unfoldable pub write_input : Client → Bytes → Client
write_input c text = record c {
  in_buf = some (take c.input_length (or_empty c.in_buf) ++ text);
  input_length = c.input_length + length text;
}

unfoldable pub append : Host → Client → Bytes → Client
unfolding write_input
append h c text =
    let needed = c.input_length + length text in
    let new_cap = new_capacity c.input_capacity needed in
    if ltb max_request_size needed
    then record c { resp_val = resp_414; state = processing }
    else if ltb c.input_capacity needed
    then (if h.malloc_ok new_cap
        then write_input (record c { input_capacity = new_cap }) text
        else record c { state = closing })
    else write_input c text

-- One `recv`: bytes, of which no more than the scratch buffer holds arrive, and none of which means
-- the end of the stream; EINTR; or another error. No more: EAGAIN.
pub data Recv : Type 0 where
  received : Bytes → Recv
  recv_interrupted : Recv
  recv_error : Recv

abbrev pub is_reading : ClientState → Bool
is_reading reading = true
is_reading _ = false

-- The client, and whether the function goes on behind the loop.
unfoldable pub recv_loop : Host → List Recv → Client → Client × Bool
recv_loop h [] c = (c, true)
recv_loop h (recv_error ∷ rest) c = (record c { state = closing }, true)
recv_loop h (recv_interrupted ∷ rest) c = recv_loop h rest c
recv_loop h (received s ∷ rest) c =
    let chunk = take temp_buffer s in
    let c' = append h c chunk in
    let more = recv_loop h rest c' in
    if is_empty chunk
    then (record c { state = closing }, false)
    else if is_reading c'.state
    then more
    else (c', false)

-- `%d` of a `size_t`: its low 32 bits, as a signed number.
pub int_text : ℕ → Bytes
int_text n = let w = n % 2 ^ 32 in if ltb w (2 ^ 31) then decimal w else b'-' ∷ decimal (2 ^ 32 - w)

abbrev pub noted : Host → Bytes → LogEntry → LogEntry
noted h text le = if logs_enabled h.app_flags then log_append le text else le

-- `"%s %d\n"`
abbrev pub outcome_note : Client → Bytes
outcome_note c = resp_val_to_status_string c.resp_val ++ b' ' ∷ (int_text c.body_len ++ codes "\n")

-- `do_logging`: what stands in the buffer goes to the log.
pub do_logging : LogEntry → World → World
do_logging le w = emit (logged (c_string le.buf)) w

-- The client and the resolved path, once the response is built.
pub record Answer : Type 0 where
  pub client : Client
  pub rp : ResolvedPath
  pub world : World

pub answer_resolved : Host → Request → Resolved → Status → Answer
answer_resolved h req r success = record {
  client = (build_okay_response h r.client r.rp req).1;
  rp = r.rp;
  world = r.world;
}
answer_resolved h req r failure = record {
  client = (build_error_response h r.client req).1;
  rp = r.rp;
  world = r.world;
}

-- `if (parse_request(…) == 0 && resolve_path(…) == 0) … else …`
pub answer_parsed : Host → Client → World → Parsed → Status → Answer
unfolding answer_resolved
answer_parsed h c w p success =
    let r = resolve_path h (record c { resp_val = p.resp }) p.request zero_resolved w in
    answer_resolved h p.request r r.status
answer_parsed h c w p failure = record {
  client = (build_error_response h (record c { resp_val = p.resp }) p.request).1;
  rp = zero_resolved;
  world = w;
}

-- What do_read works on.
pub record Reading : Type 0 where
  pub client : Client
  pub pollfd : Pollfd
  pub world : World

-- Behind `c->header_len = …`
pub respond : Host → Client → Pollfd → World → Reading
unfolding answer_parsed
respond h c p w =
    let le = noted h (c.client_addr ++ b' ' ∷ []) empty_entry in
    let parsed = parse_request h.app_flags h.now c.in_buf c.header_len zero_request c.resp_val le in
    let a = answer_parsed h c w parsed parsed.status in
    let logged_world =
      if logs_enabled h.app_flags
      then do_logging (log_append parsed.entry (outcome_note a.client)) a.world
      else a.world in
    record {
      client = record (a.client) { state = sending_header };
      pollfd = record p { events = pollout };
      world = (close_resolve_path_ptr a.rp logged_world).1;
    }

-- `strnstr(c->in_buf, "\r\n\r\n", c->input_length)`, behind the test for an empty buffer
unfoldable pub find_end : Client → Option ℕ
find_end c = elim c.in_buf [
  | none ↦ none
  | some buf ↦ if c.input_length == 0 then none else strnstr buf header_end c.input_length
]

unfoldable pub finish_read : Host → Client → Pollfd → World → Reading
unfolding find_end
finish_read h c p w = elim (find_end c) [
  | none ↦ record { client = c; pollfd = p; world = w }
  | some i ↦ respond h (record c { header_len = i + 4 }) p w
]

unfoldable pub do_read : Host → List Recv → Client → Pollfd → World → Reading
unfolding finish_read
do_read h answers c p w =
    let looped = recv_loop h answers c in
    if looped.1
    then finish_read h looped.0 p w
    else record { client = looped.0; pollfd = p; world = w }
