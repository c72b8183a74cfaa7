-- ===== src/Server/Exits.antt =====
-- Why the loop of main.c ends the process.
use simple_web_server.Base.{
  some-injective, none-some, ℕ, zero, suc, ◌+◌, ◌-◌, ◌*◌, ◌<◌, ◌≤◌, ◌≡◌, ◌⊎◌, refl, sym, ap, ◌∙◌,
  inl, inr, true, false, ◌&&◌, arith, false, Bool-cases, Option-cases, some, List, [], ◌∷◌, ltb,
  ◌==◌,
}
use simple_web_server.Client.{has_flag}
use simple_web_server.Connections.{
  Table, exited, Accepted, socket, accept_interrupted, accept_error, pollfd_at, client_at, pollin,
  pollout, fill_slot, running, add_to_lists, accept_new_conn, set_address,
}
use simple_web_server.Host.{Host, World}
use simple_web_server.Read.{is_reading}
use simple_web_server.Server.{
  Round, read_slot, write_slot, close_if_done, then_close_if_done, write_and_close, visit_listener,
  visit_client, visit, visit_all, Polled, ready, poll_interrupted, poll_error, pass, close_all,
  serve, is_sending, is_closing, error_mask,
}
use simple_web_server.Server.Invariant.{with_client}
use simple_web_server.Server.Rounds.{Visit-cases}
use simple_web_server.Connections.Outcomes.{
  Outcome-cases, running-exited, running-injective, exited-running,
}
use simple_web_server.Server.Reasons.{
  overflows, Stops, no_memory, not_sent, PassReason, here, behind, LoopReason, poll_failed, in_pass,
  later,
}
use simple_web_server.Write.{do_write}
use simple_web_server.Write.Delivery.{capacity, do_write-exits}

module _ (h : Host) where
  add_to_lists-exits :
      (newfd : ℕ) (t : Table)
      → add_to_lists h newfd t ≡ exited
      → h.malloc_ok (t.fd_size * 2) ≡ false
  unfolding add_to_lists
  add_to_lists-exits newfd t e = elim (Bool-cases (h.malloc_ok (t.fd_size * 2))) [
    | inl ok ↦ elim (Bool-cases (t.fd_count == t.fd_size)) [
      | inl full ↦ absurd (running-exited (rw (full, ok) at e))
      | inr free ↦ absurd (running-exited (rw free at e))
    ]
    | inr refused ↦ refused
  ]

  add_to_lists-size :
      (newfd : ℕ) (t : Table) {u : Table} {idx : ℕ}
      → add_to_lists h newfd t ≡ running (u, idx)
      → (u.fd_count ≡ t.fd_count + 1)
        × (((t.fd_count == t.fd_size) ≡ true)
              × (h.malloc_ok (t.fd_size * 2) ≡ true)
              × (u.fd_size ≡ t.fd_size * 2)
            ⊎ ((t.fd_count == t.fd_size) ≡ false) × (u.fd_size ≡ t.fd_size))
  unfolding add_to_lists fill_slot
  add_to_lists-size newfd t e = elim (Bool-cases (t.fd_count == t.fd_size)) [
    | inl full ↦ elim (Bool-cases (h.malloc_ok (t.fd_size * 2))) [
      | inl ok ↦
          let q = running-injective (rw (full, ok) at e) in
          (
            ap (λ (x : Table × ℕ). x.0.fd_count) (sym q),
            inl (full, ok, ap (λ (x : Table × ℕ). x.0.fd_size) (sym q)),
          )
      | inr refused ↦ absurd (exited-running (rw (full, refused) at e))
    ]
    | inr free ↦
        let q = running-injective (rw free at e) in
        (
          ap (λ (x : Table × ℕ). x.0.fd_count) (sym q),
          inr (free, ap (λ (x : Table × ℕ). x.0.fd_size) (sym q)),
        )
  ]

  full_at_end :
      (newfd : ℕ) (t : Table) → add_to_lists h newfd t ≡ exited → (t.fd_count == t.fd_size) ≡ true
  unfolding add_to_lists
  full_at_end newfd t e = elim (Bool-cases (t.fd_count == t.fd_size)) [
    | inl full ↦ full
    | inr free ↦ absurd (running-exited (rw free at e))
  ]

  accept_new_conn-exits :
      (answers : List Accepted) (t : Table) (w : World)
      → accept_new_conn h answers t w ≡ exited
      → overflows h answers t.fd_count t.fd_size ≡ true
  unfolding accept_new_conn overflows set_address
  accept_new_conn-exits [] t w e = absurd (running-exited e)
  accept_new_conn-exits (accept_error ∷ rest) t w e = absurd (running-exited e)
  accept_new_conn-exits (accept_interrupted ∷ rest) t w e = accept_new_conn-exits rest t w e
  accept_new_conn-exits (socket newfd false a ∷ rest) t w e = accept_new_conn-exits rest t _ e
  accept_new_conn-exits (socket newfd true a ∷ rest) t w e =
      elim (Outcome-cases (add_to_lists h newfd t)) [
        | inl stop ↦ rw (full_at_end newfd t stop, add_to_lists-exits newfd t stop) refl
        | inr ((u, idx), go) ↦
            let more =
              accept_new_conn-exits rest (set_address u idx a) _ (rw (go, accept_new_conn) at e) in
            let (count, sizes) = add_to_lists-size newfd t go in
            elim sizes [
              | inl (full, ok, size) ↦ rw (full, ok) (rw (count, size) at more)
              | inr (free, size) ↦ rw free (rw (count, size) at more)
            ]
      ]

  close_if_done-goes_on : (i : ℕ) (t : Table) (w : World) → close_if_done i t w ≡ exited → ⊥
  unfolding close_if_done
  close_if_done-goes_on i t w e = elim (Bool-cases (is_closing (client_at t i).state)) [
    | inl b ↦ running-exited (rw b at e)
    | inr b ↦ running-exited (rw b at e)
  ]

  module _ (r : Round) (n i : ℕ) where
    write_and_close-exits :
        (revents : ℕ) (t : Table) (w : World)
        → write_and_close r revents i t w ≡ exited
        → let c = client_at t i in
          (has_flag revents pollout ≡ true)
          × (is_sending c.state ≡ true)
          × (capacity (r.sends c.fd) < c.output_length - c.output_sent)
    unfolding write_and_close write_slot then_close_if_done
    write_and_close-exits revents t w e =
        let c = client_at t i in
        elim (Bool-cases (has_flag revents pollout && is_sending c.state)) [
          | inl b ↦ elim (Outcome-cases (do_write (r.sends c.fd) c w)) [
            | inl stop ↦ (ground arith, ground arith, do_write-exits (r.sends c.fd) c w stop)
            | inr ((d, v), go) ↦
                absurd (close_if_done-goes_on i (with_client t i d) v (rw (b, write_slot, go) at e))
          ]
          | inr b ↦ absurd (close_if_done-goes_on i t w (rw b at e))
        ]

    visit_client-exits :
        (t : Table) (w : World) → n ≤ i → visit_client h r i t w ≡ exited → Stops h r n i t w
    unfolding visit_client
    visit_client-exits t w client e =
        let revents = (pollfd_at t i).revents in
        elim (Bool-cases (revents == 0)) [
          | inl a ↦ absurd (running-exited (rw a at e))
          | inr a ↦ elim (Bool-cases (has_flag revents error_mask)) [
            | inl b ↦ absurd (running-exited (rw (a, b) at e))
            | inr b ↦
                elim (Bool-cases (has_flag revents pollin && is_reading (client_at t i).state)) [
                  | inl k ↦
                      let (out, sending, short) =
                        write_and_close-exits revents (read_slot h r i t w).0
                          (read_slot h r i t w).1 (rw (a, b, k) at e) in
                      not_sent client out b (rw k sending) (rw k short)
                  | inr k ↦
                      let (out, sending, short) =
                        write_and_close-exits revents t w (rw (a, b, k) at e) in
                      not_sent client out b (rw k sending) (rw k short)
                ]
          ]
        ]

    visit_listener-exits :
        (t : Table) (w : World) → i < n → visit_listener h r i t w ≡ exited → Stops h r n i t w
    unfolding visit_listener
    visit_listener-exits t w listener e =
        elim (Bool-cases (has_flag (pollfd_at t i).revents pollin)) [
          | inl b ↦ elim (Outcome-cases (accept_new_conn h (r.accepts (pollfd_at t i).fd) t w)) [
            | inl stop ↦
                no_memory listener b (accept_new_conn-exits (r.accepts (pollfd_at t i).fd) t w stop)
            | inr ((u, v), go) ↦ absurd (running-exited (rw (b, visit_listener, go) at e))
          ]
          | inr b ↦ absurd (running-exited (rw b at e))
        ]

    visit-exits : (t : Table) (w : World) → visit h r n i t w ≡ exited → Stops h r n i t w
    unfolding visit
    visit-exits t w e = elim (Bool-cases (ltb i n)) [
      | inl b ↦ visit_listener-exits t w (ground arith) (rw b at e)
      | inr b ↦ visit_client-exits t w (ground arith) (rw b at e)
    ]

  visit_all-exits :
      (r : Round) (n fuel i : ℕ) (t : Table) (w : World)
      → visit_all h r n fuel i t w ≡ some exited
      → PassReason h r n i t w
  unfolding visit_all
  visit_all-exits r n zero i t w e = absurd (none-some e)
  visit_all-exits r n (suc fuel) i t w e = elim (Bool-cases (ltb i t.fd_count)) [
    | inl more ↦
        let live : i < t.fd_count = ground arith in
        elim (Visit-cases (visit h r n i t w)) [
          | inl stop ↦ here live (visit-exits r n i t w stop)
          | inr (j, u, v, go) ↦
              behind live go (visit_all-exits r n fuel j u v (rw (more, visit_all, go) at e))
        ]
    | inr done ↦ absurd (running-exited (some-injective (rw (done, visit_all) at e)))
  ]

pass-exits :
    (h : Host) (answer : Polled) (rest : List Polled) (most n fuel : ℕ) (t : Table) (w : World)
    → pass h answer n fuel t w ≡ some exited
    → LoopReason h most n (answer ∷ rest) t w
unfolding pass
pass-exits h poll_interrupted rest most n fuel t w e = absurd (running-exited (some-injective e))
pass-exits h poll_error rest most n fuel t w e = poll_failed
pass-exits h (ready r) rest most n fuel t w e = in_pass (visit_all-exits h r n fuel 0 _ w e)

pub serve-exits :
    (h : Host) (most n : ℕ) (answers : List Polled) (t : Table) (w : World)
    → serve h most n answers t w ≡ some exited
    → LoopReason h most n answers t w
unfolding serve
serve-exits h most n [] t w e = elim (Option-cases (close_all n (suc (t.fd_count - n)) t w)) [
  | inl x ↦ absurd (none-some (rw (x, serve) at e))
  | inr (done, x) ↦ absurd (running-exited (some-injective (rw (x, serve) at e)))
]
serve-exits h most n (answer ∷ rest) t w e =
    elim (Option-cases (pass h answer n (suc (t.fd_count + n * most)) t w)) [
      | inl x ↦ absurd (none-some (rw (x, serve) at e))
      | inr (o, x) ↦ elim (Outcome-cases o) [
        | inl stop ↦
            pass-exits h answer rest most n (suc (t.fd_count + n * most)) t w (x ∙ ap some stop)
        | inr ((u, v), go) ↦
            later (x ∙ ap some go) (serve-exits h most n rest u v (rw (x ∙ ap some go, serve) at e))
      ]
    ]
