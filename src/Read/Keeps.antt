-- ===== src/Read/Keeps.antt =====
-- What do_read leaves alone: the descriptor of a connection, and how much of its output was sent.
use simple_web_server.Base.{
  ◌+◌, ◌≡◌, refl, ap, ◌∙◌, inl, inr, Bool-cases, List, [], ◌∷◌, ◌++◌, arith, take, Option-cases,
  length, ltb,
}
use simple_web_server.Client.{Client, Status, success, failure}
use simple_web_server.Connections.{Pollfd}
use simple_web_server.CString.{Bytes}
use simple_web_server.Host.{Host, World}
use simple_web_server.Logging.{empty_entry, max_request_size}
use simple_web_server.Response.Common.{is_empty}
use simple_web_server.Read.{
  Recv, received, recv_interrupted, recv_error, append, recv_loop, temp_buffer, Reading,
  answer_resolved, answer_parsed, respond, find_end, finish_read, do_read, noted, write_input,
  new_capacity, is_reading,
}
use simple_web_server.Request.{Parsed, Request, zero_request, parse_request}
use simple_web_server.Resolve.{Resolved, zero_resolved, resolve_path}
use simple_web_server.Resolve.Outcome.{resolve_path-Ends}
use simple_web_server.Response.Okay.Keeps.{build_error_response-Keeps, build_okay_response-Keeps}

pub record Same (c : Client) (d : Client) : Type 0 where
  pub same_fd : d.fd ≡ c.fd
  pub same_sent : d.output_sent ≡ c.output_sent

Same-trans : {c d e : Client} → Same c d → Same d e → Same c e
Same-trans k l = record { same_fd = l.same_fd ∙ k.same_fd; same_sent = l.same_sent ∙ k.same_sent }

append-Same : (h : Host) (c : Client) (s : Bytes) → Same c (append h c s)
unfolding append
append-Same h c s = ground arith

recv_loop-Same : (h : Host) (answers : List Recv) (c : Client) → Same c (recv_loop h answers c).0
unfolding recv_loop
recv_loop-Same h [] c = record { same_fd = refl; same_sent = refl }
recv_loop-Same h (recv_error ∷ rest) c = record { same_fd = refl; same_sent = refl }
recv_loop-Same h (recv_interrupted ∷ rest) c = recv_loop-Same h rest c
recv_loop-Same h (received s ∷ rest) c =
    let chunk = take temp_buffer s in
    let one = append-Same h c chunk in
    let more = recv_loop-Same h rest (append h c chunk) in ground arith

-- The input buffer, the state and the code are all that is written to.
abbrev BuffersOnly : Client → Client → Type 0
BuffersOnly c d = d ≡ record c {
  in_buf = d.in_buf;
  input_length = d.input_length;
  input_capacity = d.input_capacity;
  state = d.state;
  resp_val = d.resp_val;
}

BuffersOnly-trans : (c d e : Client) → BuffersOnly c d → BuffersOnly d e → BuffersOnly c e
BuffersOnly-trans c d e k l =
    l
    ∙ ap
        (λ (x : Client). record x {
          in_buf = e.in_buf;
          input_length = e.input_length;
          input_capacity = e.input_capacity;
          state = e.state;
          resp_val = e.resp_val;
        })
        k

append-BuffersOnly : (h : Host) (c : Client) (s : Bytes) → BuffersOnly c (append h c s)
unfolding append write_input
append-BuffersOnly h c s =
    let needed = c.input_length + length s in
    elim (Bool-cases (ltb max_request_size needed)) [
      | inl e ↦ rw e refl
      | inr e ↦ elim (Bool-cases (ltb c.input_capacity needed)) [
        | inl small ↦ elim (Bool-cases (h.malloc_ok (new_capacity c.input_capacity needed))) [
          | inl ok ↦ rw (e, small, ok) refl
          | inr refused ↦ rw (e, small, refused) refl
        ]
        | inr fits ↦ rw (e, fits) refl
      ]
    ]

pub recv_loop-BuffersOnly :
    (h : Host) (answers : List Recv) (c : Client) → BuffersOnly c (recv_loop h answers c).0
unfolding recv_loop
recv_loop-BuffersOnly h [] c = refl
recv_loop-BuffersOnly h (recv_error ∷ rest) c = refl
recv_loop-BuffersOnly h (recv_interrupted ∷ rest) c = recv_loop-BuffersOnly h rest c
recv_loop-BuffersOnly h (received s ∷ rest) c =
    let chunk = take temp_buffer s in
    let d = append h c chunk in
    let one = append-BuffersOnly h c chunk in
    elim (Bool-cases (is_empty chunk)) [
      | inl e ↦ rw e refl
      | inr e ↦ elim (Bool-cases (is_reading d.state)) [
        | inl on ↦
            let more = recv_loop-BuffersOnly h rest d in
            rw (e, on) (BuffersOnly-trans c d (recv_loop h rest d).0 one more)
        | inr off ↦ rw (e, off) one
      ]
    ]

module _ (h : Host) where
  answer_resolved-Same :
      (req : Request) (r : Resolved) (s : Status) → Same r.client (answer_resolved h req r s).client
  unfolding answer_resolved
  answer_resolved-Same req r success =
      let k = build_okay_response-Keeps h r.client r.rp req in
      record { same_fd = k.same_fd; same_sent = k.same_sent }
  answer_resolved-Same req r failure =
      let k = build_error_response-Keeps h r.client req in
      record { same_fd = k.same_fd; same_sent = k.same_sent }

  resolve_path-Same :
      (c : Client) (req : Request) (w : World)
      → Same c (resolve_path h c req zero_resolved w).client
  resolve_path-Same c req w = elim (resolve_path-Ends h c w req zero_resolved) [
    | inl s ↦ record {
      same_fd = ap (λ (x : Client). x.fd) s.staged;
      same_sent = ap (λ (x : Client). x.output_sent) s.staged;
    }
    | inr (inl l) ↦ record {
      same_fd = ap (λ (x : Client). x.fd) l.staged;
      same_sent = ap (λ (x : Client). x.output_sent) l.staged;
    }
    | inr (inr f) ↦ record {
      same_fd = ap (λ (x : Client). x.fd) f.marked;
      same_sent = ap (λ (x : Client). x.output_sent) f.marked;
    }
  ]

  answer_parsed-Same :
      (c : Client) (w : World) (p : Parsed) (s : Status) → Same c (answer_parsed h c w p s).client
  unfolding answer_parsed
  answer_parsed-Same c w p success =
      let d = record c { resp_val = p.resp } in
      let r = resolve_path h d p.request zero_resolved w in
      let k = resolve_path-Same d p.request w in
      let l = answer_resolved-Same p.request r r.status in
      record { same_fd = l.same_fd ∙ k.same_fd; same_sent = l.same_sent ∙ k.same_sent }
  answer_parsed-Same c w p failure =
      let k = build_error_response-Keeps h (record c { resp_val = p.resp }) p.request in
      record { same_fd = k.same_fd; same_sent = k.same_sent }

  -- What do_read leaves alone in the client and in its slot.
  abbrev pub SameSlot : Client → Pollfd → Reading → Type 0
  SameSlot c p r = Same c r.client × (r.pollfd.fd ≡ p.fd)

  respond-SameSlot : (c : Client) (p : Pollfd) (w : World) → SameSlot c p (respond h c p w)
  unfolding respond
  respond-SameSlot c p w =
      let p' =
        parse_request h.app_flags h.now c.in_buf c.header_len zero_request c.resp_val
          (noted h (c.client_addr ++ b' ' ∷ []) empty_entry) in
      let k = answer_parsed-Same c w p' p'.status in
      (record { same_fd = k.same_fd; same_sent = k.same_sent }, refl)

  pub finish_read-SameSlot :
      (c : Client) (p : Pollfd) (w : World) → SameSlot c p (finish_read h c p w)
  unfolding finish_read
  finish_read-SameSlot c p w = elim (Option-cases (find_end c)) [
    | inl e ↦ rw (e, finish_read) (record { same_fd = refl; same_sent = refl }, refl)
    | inr (i, e) ↦
        let (k, same) = respond-SameSlot (record c { header_len = i + 4 }) p w in
        rw (e, finish_read) (record { same_fd = k.same_fd; same_sent = k.same_sent }, same)
  ]

  pub do_read-SameSlot :
      (answers : List Recv) (c : Client) (p : Pollfd) (w : World)
      → SameSlot c p (do_read h answers c p w)
  unfolding do_read
  do_read-SameSlot answers c p w =
      let looped = recv_loop-Same h answers c in
      elim (Bool-cases (recv_loop h answers c).1) [
        | inl e ↦
            let (k, same) = finish_read-SameSlot (recv_loop h answers c).0 p w in
            rw e (Same-trans looped k, same)
        | inr e ↦ rw e (looped, refl)
      ]
