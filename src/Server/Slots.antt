-- ===== src/Server/Slots.antt =====
-- One slot of the poll loop of main.c: of a listener, or of a client.
use simple_web_server.Base.{
  lt-cases, ℕ, ◌+◌, ◌<◌, ◌≤◌, refl, sym, ap, ◌∙◌, inl, inr, true, false, ◌&&◌, Bool-cases, List, [],
  ◌∷◌, ltb, ◌==◌, if◌then◌else◌, arith, length,
}
use simple_web_server.Client.{Client, has_flag}
use simple_web_server.Connections.{
  Pollfd, Table, Accepted, socket, accept_interrupted, accept_error, pollfd_at, client_at,
  accept_new_conn, pollin,
}
use simple_web_server.Connections.Fresh.{Grew}
use simple_web_server.Connections.Accept.{taken_count, accept_new_conn-Grew}
use simple_web_server.Host.{Host, World}
use simple_web_server.Read.{is_reading}
use simple_web_server.Server.{
  Round, visit, visit_listener, visit_client, read_slot, write_and_close, error_mask,
}
use simple_web_server.Connections.Outcomes.{Outcome-cases}
use simple_web_server.Server.Invariant.{
  IsTable, Advanced, Steps, Steps-from, closed-Advanced, read-IsTable, read-SameListeners,
  read_count, write_and_close-Steps,
}

module _ (h : Host) (r : Round) (n i : ℕ) (t : Table) (w : World) (s : IsTable n t)
    (live : i < t.fd_count) where
  unchanged-Advanced : (more : ℕ) → Advanced n i t more (i + 1) t
  unchanged-Advanced more = record {
    table = s;
    listeners = λ j l. refl;
    progress = inl (refl, omega arith, omega arith);
  }

  visit_client-Steps : n ≤ i → Steps n i t 0 (visit_client h r i t w)
  unfolding visit_client
  visit_client-Steps client =
      let revents = (pollfd_at t i).revents in
      elim (Bool-cases (revents == 0)) [
        | inl e ↦ rw e (unchanged-Advanced 0)
        | inr quiet ↦ elim (Bool-cases (has_flag revents error_mask)) [
          | inl e ↦ rw (quiet, e) (closed-Advanced n i t w s client live)
          | inr fine ↦
              elim (Bool-cases (has_flag revents pollin && is_reading (client_at t i).state)) [
                | inl e ↦ rw (quiet, fine, e) after_read
                | inr e ↦
                    rw (quiet, fine, e) (write_and_close-Steps h r n i t w s client live revents)
              ]
        ]
      ]
    where
      after_read : Steps n i t 0 (
          write_and_close r
            (pollfd_at t i).revents
            i
            (read_slot h r i t w).0
            (read_slot h r i t w).1)
      after_read =
          let count = read_count h r n i t w s client live in
          Steps-from n i 0 t (read_slot h r i t w).0 _ count
            (read-SameListeners h r n i t w s client live)
            (write_and_close-Steps h r n i (read_slot h r i t w).0 (read_slot h r i t w).1
              (read-IsTable h r n i t w s client live) client (omega arith) (pollfd_at t i).revents)

taken_count-le : (answers : List Accepted) → taken_count answers ≤ length answers
taken_count-le [] = omega arith
taken_count-le (accept_error ∷ rest) = omega arith
taken_count-le (accept_interrupted ∷ rest) = omega (arith, taken_count-le rest)
taken_count-le (socket fd false a ∷ rest) = omega (arith, taken_count-le rest)
taken_count-le (socket fd true a ∷ rest) = omega (arith, taken_count-le rest)

module _ (h : Host) (r : Round) (most : ℕ) (few : (fd : ℕ) → length (r.accepts fd) ≤ most) (n i : ℕ)
    (t : Table) (w : World) (s : IsTable n t) (live : i < t.fd_count) where
  grown-Advanced :
      (u : Table) (k : ℕ) → i < n → k ≤ most → Grew t u k → Advanced n i t most (i + 1) u
  grown-Advanced u k listener le g = record {
    table = record {
      sized = g.sized;
      some_listener = s.some_listener;
      listeners = omega (arith, s.listeners, g.count);
      paired = λ j nj hj. elim (lt-cases j t.fd_count) [
        | inl old ↦
            ap (λ (p : Pollfd). p.fd) (g.kept_pollfd j old)
            ∙ s.paired j nj old
            ∙ ap (λ (c : Client). c.fd) (sym (g.kept_client j old))
        | inr new ↦ (g.fresh j new hj).paired
      ];
    };
    listeners = λ j l. ap (λ (p : Pollfd). p.fd) (g.kept_pollfd j (omega (arith, s.listeners)));
    progress = inl (refl, omega (arith, g.count), omega (arith, g.count));
  }

  visit_listener-Steps : i < n → Steps n i t most (visit_listener h r i t w)
  unfolding visit_listener
  visit_listener-Steps listener = elim (Bool-cases (has_flag (pollfd_at t i).revents pollin)) [
    | inl e ↦ elim (Outcome-cases (accept_new_conn h (r.accepts (pollfd_at t i).fd) t w)) [
      | inl x ↦ rw (e, visit_listener, x) tt
      | inr ((u, v), x) ↦
          let (g, _, _) =
            accept_new_conn-Grew h (r.accepts (pollfd_at t i).fd) t w s.sized
              (omega (arith, s.sized.fits)) x in
          let bound = taken_count-le (r.accepts (pollfd_at t i).fd) in
          let most' = few (pollfd_at t i).fd in
          rw (e, visit_listener, x)
            (grown-Advanced u (taken_count (r.accepts (pollfd_at t i).fd)) listener (omega arith) g)
    ]
    | inr e ↦ rw e (unchanged-Advanced h r n i t w s live most)
  ]

  -- One step of the poll loop, on whatever the kernel answers, keeps the arrays at their sizes, the
  -- listeners' slots, and the pairing of descriptors and clients. It goes on to the next slot, which
  -- for a listener may have added as many slots as `accept` gave sockets; or it has removed the
  -- slot of a client, and looks at what moved there.
  pub visit-Steps : Steps n i t (if ltb i n then most else 0) (visit h r n i t w)
  unfolding visit
  visit-Steps = elim (Bool-cases (ltb i n)) [
    | inl e ↦ rw e (visit_listener-Steps (ground arith))
    | inr e ↦ rw e (visit_client-Steps h r n i t w s live (ground arith))
  ]
