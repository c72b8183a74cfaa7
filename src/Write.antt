-- ===== src/Write.antt =====
-- client_conn/do_write.h and client_conn/do_write.c: the output buffer is sent.
pub mod Delivery
pub mod Keeps
pub mod Quiet
use simple_web_server.Base.{
  ℕ, ◌+◌, ◌-◌, Bool, true, false, ◌||◌, Option, none, some, List, [], ◌∷◌, ltb, ◌==◌, if◌then◌else◌,
  length, take, drop, min,
}
use simple_web_server.Client.{Client, closing}
use simple_web_server.Connections.{Outcome, running, exited}
use simple_web_server.CString.{Bytes}
use simple_web_server.Host.{World, sent, shut_down, emit}
use simple_web_server.Resolve.{or_empty}

-- One `send`: how many bytes the socket would take, or an error. No more: EAGAIN.
pub data Send : Type 0 where
  takes : ℕ → Send
  send_error : Send

-- The bytes of one `send`.
abbrev pub chunk_of : Client → ℕ → Bytes
chunk_of c n = take n (drop c.output_sent (or_empty c.out_buf))

-- How many it takes: no more than are left.
abbrev pub taken : Client → ℕ → ℕ
taken c n = min n (c.output_length - c.output_sent)

-- The loop; a `send` that returns no positive number ends the process.
pub send_loop : List Send → Client → World → Outcome (Client × World)
send_loop [] c w = if ltb c.output_sent c.output_length then exited else running (c, w)
send_loop (send_error ∷ rest) c w =
    if ltb c.output_sent c.output_length then exited else running (c, w)
send_loop (takes n ∷ rest) c w =
    let k = taken c n in
    let more =
      send_loop rest (record c { output_sent = c.output_sent + k })
        (emit (sent c.fd (chunk_of c k)) w) in
    if ltb c.output_sent c.output_length then (if k == 0 then exited else more) else running (c, w)

abbrev pub is_null : Option Bytes → Bool
is_null none = true
is_null (some b) = false

abbrev pub then_close : Outcome (Client × World) → Outcome (Client × World)
then_close exited = exited
then_close (running (c, w)) = running (record c { state = closing }, emit (shut_down c.fd) w)

unfoldable pub do_write : List Send → Client → World → Outcome (Client × World)
do_write answers c w =
    if is_null c.out_buf || c.output_length == 0
    then running (record c { state = closing }, w)
    else then_close (send_loop answers c w)
