-- ===== src/Read/Turns.antt =====
-- What becomes of a connection in do_read, whatever `recv` answers.
use simple_web_server.Base.{
  true-false, ◌+◌, ◌≡◌, refl, sym, ap, subst, ◌∙◌, ◌⊎◌, inl, inr, Bool, true, false, Bool-cases,
  Option-cases, List, [], ◌∷◌, take,
}
use simple_web_server.Client.{
  Client, reading, processing, sending_header, closing, resp_414, success,
}
use simple_web_server.Connections.{Pollfd, pollout}
use simple_web_server.Host.{Host, World}
use simple_web_server.Read.{
  Recv, received, recv_interrupted, recv_error, Reading, append, is_reading, recv_loop, find_end,
  finish_read, do_read, temp_buffer,
}
use simple_web_server.Read.Append.{IsBuffered, append-Appended}
use simple_web_server.Read.Answers.{IsReliable}
use simple_web_server.Read.Headers.{find_end-in_buf}
use simple_web_server.Response.Okay.Framing.{IsAnswered, AnyEntity, IsAnswered-any}
use simple_web_server.Read.Respond.{respond-Answers}
use simple_web_server.Response.Common.{is_empty}

-- A response is staged, and the slot waits for POLLOUT.
abbrev IsResponding : Pollfd → Reading → Type 0
IsResponding p r =
    (r.client.state ≡ sending_header)
    × (r.pollfd ≡ record p { events = pollout })
    × ((head : Bool) × (script : Bool) × IsAnswered head script AnyEntity (success, r.client))

-- The response is staged; or the slot is as it was, and the connection waits for more of its
-- request, has one that is too long, or is to be closed.
abbrev Turned : Pollfd → Reading → Type 0
Turned p r =
    IsResponding p r
    ⊎ ((r.pollfd ≡ p)
        × (((r.client.state ≡ reading) × IsBuffered r.client)
            ⊎ (((r.client.state ≡ processing) × (r.client.resp_val ≡ resp_414))
                ⊎ (r.client.state ≡ closing))))

-- What the `recv` loop leaves, and whether do_read goes on: a request that is too long; no more input
-- for now; the end of the stream, or memory that was refused; or an error of `recv`.
abbrev Stopped : Client × Bool → Type 0
Stopped (d, goes_on) =
    ((d.state ≡ processing) × (d.resp_val ≡ resp_414) × (goes_on ≡ false))
    ⊎ (((d.state ≡ reading) × (goes_on ≡ true)) ⊎ (d.state ≡ closing))

in_state : (d : Client) → IsBuffered d → IsBuffered (record d { state = closing })
in_state d b = record {
  counted = b.counted;
  fits = b.fits;
  allowed = b.allowed;
  bounded = b.bounded;
}

recv_loop-Stopped :
    (h : Host) (answers : List Recv) (c : Client)
    → c.state ≡ reading
    → IsBuffered c
    → IsBuffered (recv_loop h answers c).0 × Stopped (recv_loop h answers c)
unfolding recv_loop
recv_loop-Stopped h [] c st s = (s, inr (inl (st, refl)))
recv_loop-Stopped h (recv_error ∷ rest) c st s = (in_state c s, inr (inr refl))
recv_loop-Stopped h (recv_interrupted ∷ rest) c st s = recv_loop-Stopped h rest c st s
recv_loop-Stopped h (received text ∷ rest) c st s =
    let chunk = take temp_buffer text in
    elim (Bool-cases (is_empty chunk)) [
      | inl e ↦ rw e (in_state c s, inr (inr refl))
      | inr e ↦
          let (b, appended) = append-Appended h c chunk s in
          elim appended [
            | inl (long, d) ↦
                let stopped : is_reading (append h c chunk).state ≡ false =
                  ap (λ (x : Client). is_reading x.state) d in
                rw (e, stopped)
                  (b, inl (ap (λ (x : Client). x.state) d, ap (λ (x : Client). x.resp_val) d, refl))
            | inr (fits, inl (refused, d)) ↦
                let stopped : is_reading (append h c chunk).state ≡ false =
                  ap (λ (x : Client). is_reading x.state) d in
                rw (e, stopped) (b, inr (inr (ap (λ (x : Client). x.state) d)))
            | inr (fits, inr stored) ↦
                let still = stored.same_state ∙ st in
                let on : is_reading (append h c chunk).state ≡ true = ap is_reading still in
                rw (e, on) (recv_loop-Stopped h rest (append h c chunk) still b)
          ]
    ]

module _ (h : Host) (reliable : IsReliable h) (p : Pollfd) (w : World) where
  -- Behind the `recv` loop, where it went on.
  finish_read-Turned :
      (d : Client)
      → IsBuffered d
      → (d.state ≡ reading) ⊎ (d.state ≡ closing)
      → Turned p (finish_read h d p w)
  finish_read-Turned d b st = elim (Option-cases (find_end d)) [
    | inl e ↦
        unfold finish_read in
        rw (e, finish_read) (inr (refl, elim st [ inl r ↦ inl (r, b) | inr c ↦ inr (inr c) ]))
    | inr (i, e) ↦
        let (buf, full) = find_end-in_buf d i e in
        let (sending, slot, answered) =
          respond-Answers h reliable (record d { header_len = i + 4 }) p w buf full in
        unfold finish_read in
        rw (e, finish_read) (inl (sending, slot, (_, _, IsAnswered-any answered)))
  ]

  pub do_read-Turned :
      (answers : List Recv) (c : Client)
      → c.state ≡ reading
      → IsBuffered c
      → Turned p (do_read h answers c p w)
  do_read-Turned answers c st buffered =
      let (b, stopped) = recv_loop-Stopped h answers c st buffered in
      elim (Bool-cases (recv_loop h answers c).1) [
        | inl e ↦ subst (Turned p) (sym (goes_on e)) (elim stopped [
          | inl (long, code, stops) ↦ absurd (true-false (sym e ∙ stops))
          | inr (inl (r, on)) ↦ finish_read-Turned (recv_loop h answers c).0 b (inl r)
          | inr (inr ended) ↦ finish_read-Turned (recv_loop h answers c).0 b (inr ended)
        ])
        | inr e ↦ subst (Turned p) (sym (returns e)) (
            inr (
              refl,
              elim stopped [
                | inl (long, code, stops) ↦ inr (inl (long, code))
                | inr (inl (r, on)) ↦ absurd (true-false (sym on ∙ e))
                | inr (inr ended) ↦ inr (inr ended)
              ],
            ))
      ]
    where
      returns :
          (recv_loop h answers c).1 ≡ false
          → do_read h answers c p w
            ≡ record { client = (recv_loop h answers c).0; pollfd = p; world = w }
      returns e = unfold do_read in rw e refl

      goes_on :
          (recv_loop h answers c).1 ≡ true
          → do_read h answers c p w ≡ finish_read h (recv_loop h answers c).0 p w
      goes_on e = unfold do_read in rw e refl
