-- ===== src/Read/Pieces.antt =====
-- do_read, called once for each part of a request.
use simple_web_server.Base.{
  true-false, ◌≡◌, refl, sym, ap, ◌∙◌, true, false, Bool-cases, Option-cases, ◌+◌, inl, inr, List,
  [], ◌∷◌, ◌++◌, take,
}
use simple_web_server.Client.{Client, reading, sending_header}
use simple_web_server.Connections.{Pollfd}
use simple_web_server.Host.{Host, World}
use simple_web_server.Read.{
  Recv, received, recv_interrupted, recv_error, Reading, append, is_reading, recv_loop, find_end,
  finish_read, do_read, respond, temp_buffer,
}
use simple_web_server.Read.Loop.{stop, no_input, failed, end_of_stream}
use simple_web_server.Response.Common.{is_empty}

-- The loop goes on where it waited for input.
recv_loop-append :
    (h : Host) (first second : List Recv) (c : Client)
    → stop first ≡ no_input
    → (recv_loop h first c).0.state ≡ reading
    → ((recv_loop h first c).1 ≡ true)
      × (recv_loop h (first ++ second) c ≡ recv_loop h second (recv_loop h first c).0)
unfolding recv_loop stop
recv_loop-append h [] second c o e = (refl, refl)
recv_loop-append h (recv_error ∷ rest) second c o e = absurd (clash o)
  where
    clash : failed ≡ no_input → ⊥
    clash q = cc
recv_loop-append h (recv_interrupted ∷ rest) second c o e = recv_loop-append h rest second c o e
recv_loop-append h (received text ∷ rest) second c o e =
    let chunk = take temp_buffer text in
    let d = append h c chunk in
    elim (Bool-cases (is_empty chunk)) [
      | inl x ↦
          let ends : stop (received text ∷ rest) ≡ end_of_stream = (unfold stop in rw x) in
          absurd (clash (sym ends ∙ o))
      | inr x ↦
          let goes_on : stop (received text ∷ rest) ≡ stop rest = (unfold stop in rw x) in
          elim (Bool-cases (is_reading d.state)) [
            | inl on ↦
                let next : recv_loop h (received text ∷ rest) c ≡ recv_loop h rest d =
                  (unfold recv_loop in rw (x, on)) in
                let still = ap (λ r. r.0.state) (sym next) ∙ e in
                rw (x, on) (recv_loop-append h rest second d (sym goes_on ∙ o) still)
            | inr off ↦
                let last : recv_loop h (received text ∷ rest) c ≡ (d, false) =
                  (unfold recv_loop in rw (x, off)) in
                absurd (true-false (ap is_reading (sym e ∙ ap (λ r. r.0.state) last) ∙ off))
          ]
    ]
  where
    clash : end_of_stream ≡ no_input → ⊥
    clash q = cc

-- A call that leaves the connection READING only keeps bytes.
do_read-waits :
    (h : Host) (answers : List Recv) (c : Client) (p : Pollfd) (w : World)
    → (do_read h answers c p w).client.state ≡ reading
    → do_read h answers c p w ≡ record { client = (recv_loop h answers c).0; pollfd = p; world = w }
do_read-waits h answers c p w e =
    let d = (recv_loop h answers c).0 in
    elim (Bool-cases (recv_loop h answers c).1) [
      | inl on ↦
          let run : do_read h answers c p w ≡ finish_read h d p w = (unfold do_read in rw on) in
          elim (Option-cases (find_end d)) [
            | inl x ↦ run ∙ (unfold finish_read in rw (x, finish_read))
            | inr (i, x) ↦
                let answered : finish_read h d p w
                    ≡ respond h (record d { header_len = i + 4 }) p w =
                  (unfold finish_read in rw (x, finish_read)) in
                let sends : (respond h (record d { header_len = i + 4 }) p w).client.state
                    ≡ sending_header =
                  (unfold respond in refl) in
                absurd (
                  clash
                    (sym sends ∙ ap (λ (r : Reading). r.client.state) (sym (run ∙ answered)) ∙ e))
          ]
      | inr off ↦ unfold do_read in rw off
    ]
  where
    clash : sending_header ≡ reading → ⊥
    clash q = cc

-- One more call of do_read on the connection.
abbrev pub read_on : Host → List Recv → Reading → Reading
read_on h answers r = do_read h answers r.client r.pollfd r.world

-- The state behind the calls, one for each piece.
abbrev pub after : Host → List (List Recv) → Reading → Reading
after h [] r = r
after h (piece ∷ rest) r = after h rest (read_on h piece r)

-- Each call takes what is there and waits for more.
abbrev pub EachWaits : Host → List (List Recv) → Reading → Type 0
EachWaits h [] r = Unit
EachWaits h (piece ∷ rest) r =
    (stop piece ≡ no_input)
    × ((read_on h piece r).client.state ≡ reading)
    × EachWaits h rest (read_on h piece r)

abbrev pub joined : List (List Recv) → List Recv → List Recv
joined [] last = last
joined (piece ∷ rest) last = piece ++ joined rest last

read_on-append :
    (h : Host) (first second : List Recv) (r : Reading)
    → stop first ≡ no_input
    → (read_on h first r).client.state ≡ reading
    → read_on h (first ++ second) r ≡ read_on h second (read_on h first r)
read_on-append h first second r o e =
    let waits = do_read-waits h first r.client r.pollfd r.world e in
    let still = ap (λ (x : Reading). x.client.state) (sym waits) ∙ e in
    let (on, same) = recv_loop-append h first second r.client o still in
    let whole : do_read h (first ++ second) r.client r.pollfd r.world
        ≡ do_read h second (recv_loop h first r.client).0 r.pollfd r.world =
      (unfold do_read in rw same) in
    whole ∙ ap (read_on h second) (sym waits)

-- It does not matter how the bytes of a request arrive: where each of some calls of do_read takes
-- what is there and leaves the connection READING, whatever the host says and whether or not memory
-- is granted, the call that follows them ends in the state in which one single call ends that finds
-- the bytes of all of them at once.
pub do_read-joined :
    (h : Host) (pieces : List (List Recv)) (last : List Recv) (r : Reading)
    → EachWaits h pieces r
    → read_on h last (after h pieces r) ≡ read_on h (joined pieces last) r
do_read-joined h [] last r waits = refl
do_read-joined h (piece ∷ rest) last r (o, e, waits) =
    do_read-joined h rest last (read_on h piece r) waits
    ∙ sym (read_on-append h piece (joined rest last) r o e)

stop-append :
    (first second : List Recv) → stop first ≡ no_input → stop (first ++ second) ≡ stop second
unfolding stop
stop-append [] second o = refl
stop-append (recv_error ∷ rest) second o = absurd (clash o)
  where
    clash : failed ≡ no_input → ⊥
    clash q = cc
stop-append (recv_interrupted ∷ rest) second o = stop-append rest second o
stop-append (received s ∷ rest) second o = elim (Bool-cases (is_empty (take temp_buffer s))) [
  | inl x ↦ absurd (clash (rw x at o))
  | inr x ↦ rw x (stop-append rest second (rw x at o))
]
  where
    clash : end_of_stream ≡ no_input → ⊥
    clash q = cc

-- The pieces together end as the last one does.
pub stop-joined :
    (h : Host) (pieces : List (List Recv)) (last : List Recv) (r : Reading)
    → EachWaits h pieces r
    → stop (joined pieces last) ≡ stop last
stop-joined h [] last r waits = refl
stop-joined h (piece ∷ rest) last r (o, e, waits) =
    stop-append piece (joined rest last) o ∙ stop-joined h rest last (read_on h piece r) waits
