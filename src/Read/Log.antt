-- ===== src/Read/Log.antt =====
-- The log entry of do_read: nothing of it is cut off.
use simple_web_server.Base.{
  ℕ, ◌+◌, ◌-◌, ◌%◌, ◌^◌, ◌<◌, ◌≤◌, ◌≡◌, sym, ap, ◌∙◌, true, inl, inr, some, [], ◌∷◌, ◌++◌,
  append_assoc, Bool-cases, ltb, if◌then◌else◌, arith, length, length-append, take, take_all,
}
use simple_web_server.Client.{Client, ClientResponse}
use simple_web_server.CString.{Bytes, codes, strnstr}
use simple_web_server.CString.Decimal.{length-decimal-le}
use simple_web_server.Host.{Host}
use simple_web_server.Logging.{
  LogEntry, empty_entry, log_append, room, log_buf_size, resp_val_to_status_string,
}
use simple_web_server.Read.{noted, outcome_note, int_text}
use simple_web_server.Read.Respond.{read_as}
use simple_web_server.Request.{found, header_end, request_line, request_note, logs_enabled}
use simple_web_server.Request.Failure.{parse_request-entry, length-request_line-le}

-- Entries that hold a text whole.
abbrev pub entry_of : Bytes → LogEntry
entry_of s = record { buf = s; offset = length s }

log_append-fits :
    (s text : Bytes)
    → length s + length text < log_buf_size
    → log_append (entry_of s) text ≡ entry_of (s ++ text)
log_append-fits s text h =
    let free : room (entry_of s) ≡ log_buf_size - length s = (unfold room in omega arith) in
    let kept : take (length s) s ≡ s = take_all (length s) s (omega arith) in
    let whole : take (room (entry_of s) - 1) text ≡ text =
      take_all (room (entry_of s) - 1) text (omega arith) in
    let count : length s + length text ≡ length (s ++ text) = sym (length-append s text) in
    unfold log_append in (λ i. record { buf = kept i ++ whole i; offset = count i })

length-int_text-le : (n : ℕ) → length (int_text n) ≤ 11
unfolding int_text
length-int_text-le n = elim (Bool-cases (ltb (n % 2 ^ 32) (2 ^ 31))) [
  | inl e ↦
      let small : n % 2 ^ 32 < 10 ^ 10 = ground arith in
      rw e (omega (arith, length-decimal-le 10 (n % 2 ^ 32) small (omega arith)))
  | inr e ↦
      let small : 2 ^ 32 - n % 2 ^ 32 < 10 ^ 10 = ground arith in
      rw e (omega (arith, length-decimal-le 10 (2 ^ 32 - n % 2 ^ 32) small (omega arith)))
]

length-status-le : (r : ClientResponse) → length (resp_val_to_status_string r) ≤ 3
unfolding resp_val_to_status_string
length-status-le r = grind arith

length-outcome_note-le : (d : Client) → length (outcome_note d) ≤ 16
length-outcome_note-le d = omega (
  arith,
  length-append (resp_val_to_status_string d.resp_val) (b' ' ∷ (int_text d.body_len ++ codes "\n")),
  length-append (int_text d.body_len) (codes "\n"),
  length-status-le d.resp_val,
  length-int_text-le d.body_len,
)

length-request_note :
    (time line : Bytes) → length (request_note time line) ≡ length time + (2 + (length line + 2))
length-request_note time line = omega (
  arith,
  length-append time (codes " \"" ++ (line ++ codes "\" ")),
  length-append line (codes "\" "),
)

-- What the log says of a request: the peer's address, the time, the request line, the code and the
-- length of the body.
abbrev pub log_line : Host → Client → Bytes → Client → Bytes
log_line h c buf d =
    (c.client_addr ++ b' ' ∷ [])
    ++ (request_note h.now (request_line buf c.header_len) ++ outcome_note d)

-- Where logging is on, the entry of a request of at most 8192 bytes, from a peer whose address has
-- at most 45 bytes, at a clock text of at most 31 bytes, holds its whole line, whatever the response
-- is: neither `vsnprintf` nor the offset of the entry passes the end of the buffer.
pub log_entry_whole :
    (h : Host) (c : Client) (buf : Bytes) (d : Client)
    → logs_enabled h.app_flags ≡ true
    → found (strnstr buf header_end c.header_len) ≡ true
    → c.header_len ≤ 8192
    → length c.client_addr ≤ 45
    → length h.now ≤ 31
    → (log_append (read_as h c (some buf)).entry (outcome_note d) ≡ entry_of (log_line h c buf d))
      × (length (log_line h c buf d) < log_buf_size)
log_entry_whole h c buf d on complete short addr time = (
  ap (λ e. log_append e (outcome_note d)) noted_line
      ∙ log_append-fits (peer ++ note) (outcome_note d)
          (omega (arith, sizes, length-append peer note))
      ∙ ap entry_of (append_assoc peer note (outcome_note d)),
  omega (
    arith,
    sizes,
    length-append peer (note ++ outcome_note d),
    length-append note (outcome_note d),
  ),
)
  where
    peer : Bytes
    peer = c.client_addr ++ b' ' ∷ []

    note : Bytes
    note = request_note h.now (request_line buf c.header_len)

    sizes : length peer + (length note + length (outcome_note d)) < log_buf_size
    sizes = omega (
      arith,
      length-append c.client_addr (b' ' ∷ []),
      length-request_note h.now (request_line buf c.header_len),
      length-request_line-le buf c.header_len,
      length-outcome_note-le d,
    )

    noted_peer : noted h peer empty_entry ≡ entry_of peer
    noted_peer =
        ap (λ b. if b then log_append empty_entry peer else empty_entry) on
        ∙ log_append-fits [] peer (omega (arith, sizes))

    noted_line : (read_as h c (some buf)).entry ≡ entry_of (peer ++ note)
    noted_line =
        parse_request-entry h.app_flags h.now buf c.header_len c.resp_val (noted h peer empty_entry)
          complete on
        ∙ ap (λ e. log_append e note) noted_peer
        ∙ log_append-fits peer note (omega (arith, sizes))
