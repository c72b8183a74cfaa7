-- ===== src/Server/Exchange.antt =====
-- An exchange: the request that do_read completes, and the response that do_write sends.
use simple_web_server.Base.{
  ℕ, ◌+◌, ◌<◌, ◌≤◌, ◌≡◌, refl, sym, subst, ◌∙◌, ◌⊎◌, inl, inr, Bool, true, false, List, [], ◌∷◌,
  ◌++◌, arith, length,
}
use simple_web_server.Client.{Client, reading, closing, success}
use simple_web_server.CString.{Bytes}
use simple_web_server.Connections.{Pollfd, running, exited}
use simple_web_server.Host.{Host, World, Effect, shut_down}
use simple_web_server.Logging.{max_request_size}
use simple_web_server.Read.{Recv, Reading, do_read}
use simple_web_server.Read.Append.{IsBuffered}
use simple_web_server.Read.Answers.{IsReliable}
use simple_web_server.Read.Complete.{text, is_complete, IsWaiting, IsDropped, do_read-Answers}
use simple_web_server.Read.Pieces.{read_on, after, EachWaits, joined, do_read-joined, stop-joined}
use simple_web_server.Read.Keeps.{do_read-SameSlot}
use simple_web_server.Read.Loop.{gathered, stop, no_input}
use simple_web_server.Response.Message.{Reads, empty_line, header_line}
use simple_web_server.Response.Okay.Framing.{IsAnswered, AnyEntity, IsAnswered-any}
use simple_web_server.Write.{Send, do_write}
use simple_web_server.Write.Delivery.{Pieces, capacity, do_write-Delivers}

-- A message is not empty.
pub nonempty : {s : Bytes} {ls : List Bytes} {b : Bytes} → Reads s ls b → 0 < length s
nonempty (empty_line body) = omega arith
nonempty (header_line [] s ne free r) = absurd (ne refl)
nonempty (header_line (x ∷ l) s ne free r) = omega arith

-- A response that stands whole in the output buffer, of which nothing was sent.
pub record IsStaged (c : Client) : Type 0 where
  pub head : Bool
  pub script : Bool
  pub answered : IsAnswered head script AnyEntity (success, c)
  pub unsent : c.output_sent ≡ 0

-- The socket took the message in order, and was shut down for writing; or the process ended.
abbrev Sends : List Send → Client → World → Bytes → Type 0
Sends answers c w message =
    ((capacity answers < length message) × (do_write answers c w ≡ exited))
    ⊎ ((length message ≤ capacity answers)
        × ((es : List Effect) × Pieces c.fd message es
            × (do_write answers c w
                ≡ running (
                  record c { output_sent = length message; state = closing },
                  record w { effects = w.effects ++ (es ++ shut_down c.fd ∷ []) },
                ))))

-- do_write on a staged response.
pub do_write-Sends :
    (answers : List Send) (c : Client) (w : World) (s : IsStaged c)
    → Sends answers c w s.answered.framed.message
do_write-Sends answers c w s =
    let f = s.answered.framed in
    do_write-Delivers answers c w f.message f.staged (nonempty f.reads) f.counted s.unsent

-- What the client of a complete request gets.
abbrev Exchanged : List Send → ℕ → Reading → Type 0
Exchanged sends fd r =
    (r.client.fd ≡ fd)
    × ((s : IsStaged r.client) × Sends sends r.client r.world s.answered.framed.message)

-- From the request to the last byte of its response. Where the peer has not closed, the host is
-- reliable and the request is of at most 8192 bytes, do_read waits as long as the bytes do not hold
-- the end of the headers. Once they do, the do_write that follows sends on the connection of the
-- request exactly one well-formed message, whole and in order, which announces the length of its
-- entity, then shuts the socket down, and the connection is to be closed; or the process exits, if
-- the socket takes fewer bytes than the message has. Only where the host refuses memory, the
-- connection may be left to be closed instead, with nothing done.
exchange :
    (h : Host) (recvs : List Recv) (sends : List Send) (c : Client) (p : Pollfd) (w : World)
    → IsReliable h
    → c.state ≡ reading
    → IsBuffered c
    → c.output_sent ≡ 0
    → stop recvs ≡ no_input
    → c.input_length + length (gathered recvs) ≤ max_request_size
    → ((is_complete (text recvs c) ≡ true) × Exchanged sends c.fd (do_read h recvs c p w))
      ⊎ (((is_complete (text recvs c) ≡ false)
            × IsWaiting (text recvs c) c p w (do_read h recvs c p w))
          ⊎ IsDropped h p w (do_read h recvs c p w))
exchange h recvs sends c p w reliable st buffered unsent open_end short =
    elim (do_read-Answers h reliable recvs c p w st buffered open_end short) [
      | inl (complete, (sending, slot, (capacity, i, at, answered))) ↦
          let (kept, _) = do_read-SameSlot h recvs c p w in
          let staged : IsStaged (do_read h recvs c p w).client = record {
            head = _;
            script = _;
            answered = IsAnswered-any answered;
            unsent = kept.same_sent ∙ unsent;
          } in
          let r = do_read h recvs c p w in
          inl (complete, (kept.same_fd, (staged, do_write-Sends sends r.client r.world staged)))
      | inr waiting ↦ inr waiting
    ]

-- What becomes of the request in these bytes.
abbrev pub Concerns : Host → List Recv → List Send → Reading → Reading → Type 0
Concerns h recvs sends r d =
    ((is_complete (text recvs r.client) ≡ true) × Exchanged sends r.client.fd d)
    ⊎ (((is_complete (text recvs r.client) ≡ false)
          × IsWaiting (text recvs r.client) r.client r.pollfd r.world d)
        ⊎ IsDropped h r.pollfd r.world d)

-- A request that arrives in any number of pieces, on a connection that is READING, with its input
-- buffer within its bounds and nothing sent. Each call of do_read but the last takes what is there
-- and leaves the connection READING. Where the peer has not closed, the host is reliable and the
-- request is of at most 8192 bytes in all, the last call waits as long as all the bytes together do
-- not hold the end of the headers. Once they do, the do_write that follows sends on the connection
-- of the request exactly one well-formed message, whole and in order, then shuts the socket down,
-- and the connection is to be closed; or the process exits, if the socket takes fewer bytes than the
-- message has. Only where the host refuses memory, the connection may be left to be closed instead,
-- with nothing done.
pub exchange_in_pieces :
    (h : Host) (pieces : List (List Recv)) (last : List Recv) (sends : List Send) (r : Reading)
    → IsReliable h
    → r.client.state ≡ reading
    → IsBuffered r.client
    → r.client.output_sent ≡ 0
    → EachWaits h pieces r
    → stop last ≡ no_input
    → r.client.input_length + length (gathered (joined pieces last)) ≤ max_request_size
    → Concerns h (joined pieces last) sends r (read_on h last (after h pieces r))
exchange_in_pieces h pieces last sends r reliable st buffered unsent waits open_end short =
    subst (Concerns h (joined pieces last) sends r) (sym (do_read-joined h pieces last r waits)) (
      exchange h (joined pieces last) sends r.client r.pollfd r.world reliable st buffered unsent
        (stop-joined h pieces last r waits ∙ open_end) short)
