-- ===== src/Read/Complete.antt =====
-- do_read as a whole: a request is answered in the call that completes it.
use simple_web_server.Base.{
  ℕ, ◌+◌, ◌≤◌, ◌≡◌, refl, sym, ap, subst, ◌∙◌, ◌⊎◌, inl, inr, Bool, true, false, Option-cases, none,
  some, List, ◌++◌, arith, length,
}
use simple_web_server.Client.{Client, reading, closing, sending_header, success}
use simple_web_server.CString.{Bytes, strnstr}
use simple_web_server.Connections.{Pollfd, pollout}
use simple_web_server.Host.{Host, World}
use simple_web_server.Logging.{max_request_size}
use simple_web_server.Read.{Recv, Reading, recv_loop, find_end, finish_read, do_read, respond}
use simple_web_server.Read.Append.{IsBuffered}
use simple_web_server.Read.Keeps.{recv_loop-BuffersOnly}
use simple_web_server.Read.Loop.{Refused, gathered, stop, no_input, state_at, recv_loop-Looped}
use simple_web_server.Read.Answers.{IsReliable}
use simple_web_server.Read.Respond.{read_as, asks_script, IsAskedFor, respond-Answers}
use simple_web_server.Response.Error.{is_head}
use simple_web_server.Request.{found, header_end}
use simple_web_server.Resolve.{or_empty}
use simple_web_server.Response.Okay.Framing.{IsAnswered}
use simple_web_server.Read.Headers.{find_end-strnstr, find_end-in_buf}

-- Whether the end of the headers stands in the text.
abbrev pub is_complete : Bytes → Bool
is_complete text = found (strnstr text header_end (length text))

-- The bytes that are there, behind the `recv` loop.
abbrev pub text : List Recv → Client → Bytes
text answers c = or_empty c.in_buf ++ gathered answers

-- The client with all of these bytes in its buffer, and the end of the headers at `i`.
abbrev with_request : Client → Bytes → ℕ → ℕ → Client
with_request c s capacity i = record c {
  in_buf = some s;
  input_length = length s;
  input_capacity = capacity;
  header_len = i + 4;
}

-- The answer is the one to the request in these bytes, up to the end of the headers.
abbrev AnswersTo : Host → Bytes → Client → World → Client → Type 0
AnswersTo h s c w d =
    (capacity : ℕ) × (i : ℕ) × (strnstr s header_end (length s) ≡ some i)
    × IsAnswered (is_head (read_as h (with_request c s capacity i) (some s)).request.method)
        (asks_script h (with_request c s capacity i) w
          (read_as h (with_request c s capacity i) (some s)))
        (IsAskedFor h (with_request c s capacity i) w
          (read_as h (with_request c s capacity i) (some s)))
        (success, d)

-- The request is answered.
abbrev pub IsDone : Host → Bytes → Client → Pollfd → World → Reading → Type 0
IsDone h s c p w r =
    (r.client.state ≡ sending_header)
    × (r.pollfd ≡ record p { events = pollout })
    × AnswersTo h s c w r.client

-- The connection waits for the rest of the request: the bytes are in its input buffer, and nothing
-- else in the client, its slot or the world is changed.
abbrev pub IsWaiting : Bytes → Client → Pollfd → World → Reading → Type 0
IsWaiting s c p w r =
    (r.client.state ≡ reading)
    × (r.client ≡ record c {
      in_buf = r.client.in_buf;
      input_length = r.client.input_length;
      input_capacity = r.client.input_capacity;
    })
    × (or_empty r.client.in_buf ≡ s)
    × IsBuffered r.client
    × (r.pollfd ≡ p)
    × (r.world ≡ w)

-- The connection is to be closed, since memory was refused.
abbrev pub IsDropped : Host → Pollfd → World → Reading → Type 0
IsDropped h p w r = Refused h × (r.client.state ≡ closing) × (r.pollfd ≡ p) × (r.world ≡ w)

module _ (h : Host) (reliable : IsReliable h) (answers : List Recv) (c : Client) (p : Pollfd)
    (w : World) (st : c.state ≡ reading) (buffered : IsBuffered c)
    (open_end : stop answers ≡ no_input)
    (short : c.input_length + length (gathered answers) ≤ max_request_size) where
  -- What do_read makes of the bytes that are there, on a connection that is READING with its buffer
  -- within its bounds, where the peer has not closed, the host is reliable, and the request is of at
  -- most 8192 bytes. If they hold the end of the headers, the connection is SENDING_HEADER, its slot
  -- waits for POLLOUT, and a well-formed response to the request in them is staged, whose entity is
  -- what the request leads to, or else the page of an error; its body is left out for HEAD, unless it
  -- is the output of a script. Otherwise all of the bytes are kept in the input buffer, and nothing
  -- else changes. Only where the host refuses memory is there a third end: the connection is CLOSING,
  -- with its slot and the world as they were.
  pub do_read-Answers :
      ((is_complete (text answers c) ≡ true)
        × IsDone h (text answers c) c p w (do_read h answers c p w))
      ⊎ (((is_complete (text answers c) ≡ false)
            × IsWaiting (text answers c) c p w (do_read h answers c p w))
          ⊎ IsDropped h p w (do_read h answers c p w))
  do_read-Answers =
      let (b, looped) = recv_loop-Looped h answers c st buffered in
      elim looped [
        | inl (long, _, _) ↦ absurd (omega arith)
        | inr (inl (_, ended, code, kept)) ↦
            let d : Client = (recv_loop h answers c).0 in
            let at_end = ended ∙ ap state_at open_end in
            let goes_on : (recv_loop h answers c).1 ≡ true = ap (λ x. x.1) at_end in
            let run : do_read h answers c p w ≡ finish_read h d p w =
              (unfold do_read in rw goes_on) in
            let search =
              find_end-strnstr d b.counted ∙ ap (λ s. strnstr s header_end (length s)) kept in
            elim (Option-cases (strnstr (text answers c) header_end (length (text answers c)))) [
              | inl e ↦ inr (
                  inl (
                    ap found e,
                    subst (IsWaiting (text answers c) c p w) (sym (run ∙ waits d (search ∙ e))) (
                      ap (λ x. x.0) at_end,
                      only (ap (λ x. x.0) at_end) code,
                      kept,
                      b,
                      refl,
                      refl,
                    ),
                  ))
              | inr (i, e) ↦
                  let found_at = search ∙ e in
                  let done = answered i b (ap (λ x. x.0) at_end) code kept found_at e in
                  inl (
                    ap found e,
                    subst (IsDone h (text answers c) c p w) (sym (run ∙ responds d i found_at))
                        done,
                  )
            ]
        | inr (inr (refused, ended, code)) ↦
            let d : Client = (recv_loop h answers c).0 in
            let returns : (recv_loop h answers c).1 ≡ false = ap (λ x. x.1) ended in
            let run : do_read h answers c p w ≡ record { client = d; pollfd = p; world = w } =
              (unfold do_read in rw returns) in
            inr (inr (subst (IsDropped h p w) (sym run) (refused, ap (λ x. x.0) ended, refl, refl)))
      ]
    where
      only :
          let d = (recv_loop h answers c).0 in
          d.state ≡ reading
          → d.resp_val ≡ c.resp_val
          → d ≡ record c {
            in_buf = d.in_buf;
            input_length = d.input_length;
            input_capacity = d.input_capacity;
          }
      only still code =
          let d = (recv_loop h answers c).0 in
          recv_loop-BuffersOnly h answers c ∙ (λ i. record c {
            in_buf = d.in_buf;
            input_length = d.input_length;
            input_capacity = d.input_capacity;
            state = (still ∙ sym st) i;
            resp_val = code i;
          })

      waits :
          (d : Client)
          → find_end d ≡ none
          → finish_read h d p w ≡ record { client = d; pollfd = p; world = w }
      waits d e = unfold finish_read in rw (e, finish_read)

      -- All of the bytes are in the buffer, with the end of the headers at `i`.
      answered :
          let d = (recv_loop h answers c).0 in
          (i : ℕ)
          → IsBuffered d
          → d.state ≡ reading
          → d.resp_val ≡ c.resp_val
          → or_empty d.in_buf ≡ text answers c
          → find_end d ≡ some i
          → strnstr (text answers c) header_end (length (text answers c)) ≡ some i
          → IsDone h (text answers c) c p w (respond h (record d { header_len = i + 4 }) p w)
      answered i b still code kept found_at e =
          let d = (recv_loop h answers c).0 in
          let (buf, full) = find_end-in_buf d i found_at in
          let held : d.in_buf ≡ some (text answers c) =
            full ∙ ap some (ap or_empty (sym full) ∙ kept) in
          let counted : d.input_length ≡ length (text answers c) = sym b.counted ∙ ap length kept in
          let read : record d { header_len = i + 4 }
              ≡ with_request c (text answers c) d.input_capacity i =
            ap (λ (x : Client). record x { header_len = i + 4 }) (only still code) ∙ (λ j.
              record c {
                in_buf = held j;
                input_length = counted j;
                input_capacity = d.input_capacity;
                header_len = i + 4;
              }) in
          let (sending, slot, answer) =
            respond-Answers h reliable (with_request c (text answers c) d.input_capacity i) p w
              (text answers c) refl in
          subst (λ x. IsDone h (text answers c) c p w (respond h x p w)) (sym read)
            (sending, slot, (d.input_capacity, i, e, answer))

      responds :
          (d : Client) (i : ℕ)
          → find_end d ≡ some i
          → finish_read h d p w ≡ respond h (record d { header_len = i + 4 }) p w
      responds d i e = unfold finish_read in rw (e, finish_read)
