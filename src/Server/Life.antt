-- ===== src/Server/Life.antt =====
-- The life of a connection: which states do_read and do_write lead to, and what holds in each.
use simple_web_server.Base.{◌≡◌, refl, sym, ap, ◌∙◌, ◌⊎◌, inl, inr, List, arith}
use simple_web_server.Client.{Client, reading, processing, sending_header, closing, resp_414}
use simple_web_server.Connections.{Pollfd, Outcome, running, exited, pollin, pollout}
use simple_web_server.Connections.Fresh.{IsFresh}
use simple_web_server.Host.{Host, World}
use simple_web_server.Read.{Recv, do_read}
use simple_web_server.Read.Append.{IsBuffered}
use simple_web_server.Read.Answers.{IsReliable}
use simple_web_server.Read.Keeps.{do_read-SameSlot}
use simple_web_server.Read.Turns.{do_read-Turned}
use simple_web_server.Write.{Send, do_write}
use simple_web_server.Server.Exchange.{IsStaged, do_write-Sends}

-- A connection between two visits: it waits for its request, within the bounds of its buffer;
-- or it waits to be sent a whole response; or its request is too long.
pub data InLife (p : Pollfd) (c : Client) : Type 0 where
  awaits_request :
      c.state ≡ reading → p.events ≡ pollin → IsBuffered c → c.output_sent ≡ 0 → InLife p c
  awaits_response : c.state ≡ sending_header → p.events ≡ pollout → IsStaged c → InLife p c
  too_long : c.state ≡ processing → c.resp_val ≡ resp_414 → InLife p c

-- A connection within a visit, which may have come to its end.
abbrev pub Visited : Pollfd → Client → Type 0
Visited p c = InLife p c ⊎ (c.state ≡ closing)

-- A new connection is at the beginning of its life.
pub fresh-InLife : (p : Pollfd) (c : Client) → IsFresh p c → InLife p c
fresh-InLife p c f =
    awaits_request f.state f.events
      (record {
        counted = rw f.no_input (sym f.input_length);
        fits = omega (arith, f.input_length);
        allowed = omega (arith, f.input_length);
        bounded = omega (arith, f.input_capacity);
      })
      f.output_sent

-- do_read takes a connection that waits for its request to a state of the life, or to its end.
pub do_read-Visited :
    (h : Host) (answers : List Recv) (c : Client) (p : Pollfd) (w : World)
    → IsReliable h
    → c.state ≡ reading
    → InLife p c
    → Visited (do_read h answers c p w).pollfd (do_read h answers c p w).client
do_read-Visited h answers c p w reliable st (awaits_response st' _ _) =
    absurd (clash (sym st ∙ st'))
  where
    clash : reading ≡ sending_header → ⊥
    clash q = cc
do_read-Visited h answers c p w reliable st (too_long st' _) = absurd (clash (sym st ∙ st'))
  where
    clash : reading ≡ processing → ⊥
    clash q = cc
do_read-Visited h answers c p w reliable st (awaits_request _ events buffered unsent) =
    let (kept, _) = do_read-SameSlot h answers c p w in
    elim (do_read-Turned h reliable p w answers c st buffered) [
      | inl (sending, slot, (head, script, answered)) ↦ inl (
          awaits_response sending (ap (λ (x : Pollfd). x.events) slot) (record {
            head = head;
            script = script;
            answered = answered;
            unsent = kept.same_sent ∙ unsent;
          }))
      | inr (same, inl (r, b)) ↦ inl (
          awaits_request r (ap (λ (x : Pollfd). x.events) same ∙ events) b
            (kept.same_sent ∙ unsent))
      | inr (same, inr (inl (long, code))) ↦ inl (too_long long code)
      | inr (same, inr (inr ended)) ↦ inr ended
    ]

-- What do_write leaves, if the process goes on: a connection that is to be closed.
abbrev pub Concluded : Outcome (Client × World) → Type 0
Concluded exited = Unit {0}
Concluded (running (c, w)) = c.state ≡ closing

-- do_write brings a connection that waits for its response to its end.
pub do_write-Concluded :
    (answers : List Send) (c : Client) (w : World) → IsStaged c → Concluded (do_write answers c w)
do_write-Concluded answers c w s = elim (do_write-Sends answers c w s) [
  | inl (short, e) ↦ rw e tt
  | inr (enough, (es, pieces, e)) ↦ rw e refl
]
