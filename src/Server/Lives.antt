-- ===== src/Server/Lives.antt =====
-- The lives of all connections, over a step of the poll loop of main.c.
pub mod Passes
use simple_web_server.Base.{
  eq-cases, lt-cases, false-true, ℕ, ◌<◌, ◌≤◌, ◌≡◌, ◌≢◌, refl, sym, ap, subst, ◌∙◌, ◌⊎◌, inl, inr,
  true, false, ◌&&◌, Bool-cases, ltb, ◌==◌, arith, set, get_or-set_self, get_or-set_ne,
}
use simple_web_server.Client.{
  Client, ClientState, reading, processing, sending_header, sending_body, closing, has_flag,
}
use simple_web_server.Connections.{
  Pollfd, Table, Outcome, running, exited, pollfd_at, client_at, blank_pollfd, blank_client, pollin,
  pollout, close_conn, accept_new_conn,
}
use simple_web_server.Connections.Fresh.{Grew}
use simple_web_server.Connections.Accept.{taken_count, accept_new_conn-Grew}
use simple_web_server.Connections.Invariant.{AllSlots, AllBut, close_conn-AllBut}
use simple_web_server.Host.{Host, World}
use simple_web_server.Read.{do_read, is_reading}
use simple_web_server.Read.Answers.{IsReliable}
use simple_web_server.Server.{
  Round, Visit, read_slot, write_slot, close_if_done, then_close_if_done, write_and_close, visit,
  visit_client, visit_listener, error_mask, is_sending, is_closing,
}
use simple_web_server.Connections.Outcomes.{Outcome-cases}
use simple_web_server.Server.Invariant.{
  with_client, IsTable, read-IsTable, read_count, set_client-IsTable,
}
use simple_web_server.Server.Keeps.{AfterVisit, AfterPass}
use simple_web_server.Server.Life.{
  InLife, Visited, Concluded, awaits_request, awaits_response, too_long, fresh-InLife,
  do_read-Visited, do_write-Concluded,
}
use simple_web_server.Server.Exchange.{IsStaged}
use simple_web_server.Write.{do_write}
use simple_web_server.Write.Keeps.{KeepsFd, do_write-KeepsFd}

-- All connections are between two visits.
abbrev pub AllInLife : ℕ → Table → World → Type 0
AllInLife n t w = AllSlots InLife n t

abbrev LivesOn : ℕ → Visit → Type 0
LivesOn n v = AfterVisit (AllInLife n) v

closing_now : (c : Client) → c.state ≡ closing → is_closing c.state ≡ true
closing_now c e = ap is_closing e

not_closing : (p : Pollfd) (c : Client) → InLife p c → is_closing c.state ≡ false
not_closing p c (awaits_request st _ _ _) = ap is_closing st
not_closing p c (awaits_response st _ _) = ap is_closing st
not_closing p c (too_long st _) = ap is_closing st

-- The slot of the visit and the others.
module _ (n i : ℕ) (t : Table) (w : World) (s : IsTable n t) (client : n ≤ i)
    (live : i < t.fd_count) (others : AllBut InLife i n t) where
  positive : 0 < i
  positive = omega (arith, s.some_listener)

  all_of_them : InLife (pollfd_at t i) (client_at t i) → AllSlots InLife n t
  all_of_them here j nj l = elim (eq-cases i j) [
    | inl e ↦ subst (λ k. InLife (pollfd_at t k) (client_at t k)) e here
    | inr ne ↦ others j nj l (λ q. ne (sym q))
  ]

  closed-LivesOn : AllSlots InLife n (close_conn i t w).0
  closed-LivesOn = close_conn-AllBut i t w s.sized positive live InLife n client others

  close_if_done-LivesOn : Visited (pollfd_at t i) (client_at t i) → LivesOn n (close_if_done i t w)
  close_if_done-LivesOn (inl here) =
      let goes_on : is_closing (client_at t i).state ≡ false =
        not_closing (pollfd_at t i) (client_at t i) here in
      unfold close_if_done in rw goes_on (all_of_them here)
  close_if_done-LivesOn (inr ended) =
      let done = closing_now (client_at t i) ended in unfold close_if_done in rw done closed-LivesOn

sending_only : (p : Pollfd) (c : Client) → Visited p c → is_sending c.state ≡ true → IsStaged c
sending_only p c (inl (awaits_request st _ _ _)) e =
    absurd (false-true (sym (ap is_sending st) ∙ e))
sending_only p c (inl (awaits_response _ _ staged)) e = staged
sending_only p c (inl (too_long st _)) e = absurd (false-true (sym (ap is_sending st) ∙ e))
sending_only p c (inr st) e = absurd (false-true (sym (ap is_sending st) ∙ e))

module _ (r : Round) (n i : ℕ) (t : Table) (s : IsTable n t) (client : n ≤ i)
    (live : i < t.fd_count) (others : AllBut InLife i n t) where
  with_client-AllBut : (c : Client) → AllBut InLife i n (with_client t i c)
  with_client-AllBut c j nj l ne =
      rw (get_or-set_ne t.clients i j c blank_client (λ q. ne (sym q))) (others j nj l ne)

  set_client : (c : Client) → client_at (with_client t i c) i ≡ c
  set_client c =
      get_or-set_self t.clients i c blank_client (omega (arith, s.sized.fits, s.sized.clients_size))

  written-LivesOn :
      (o : Outcome (Client × World))
      → KeepsFd (client_at t i) o
      → Concluded o
      → LivesOn n (
          then_close_if_done i
            (elim o [ exited ↦ exited | running (c, w') ↦ running (with_client t i c, w') ]))
  unfolding then_close_if_done
  written-LivesOn exited k e = tt
  written-LivesOn (running (c, w')) k e =
      close_if_done-LivesOn n i (with_client t i c) w' (set_client-IsTable n i t c s client live k)
        client live (with_client-AllBut c) (inr (ap (λ (x : Client). x.state) (set_client c) ∙ e))

  write_and_close-LivesOn :
      (revents : ℕ) (w : World)
      → Visited (pollfd_at t i) (client_at t i)
      → LivesOn n (write_and_close r revents i t w)
  unfolding write_and_close write_slot
  write_and_close-LivesOn revents w here =
      let answers = r.sends (client_at t i).fd in
      elim (Bool-cases (has_flag revents pollout && is_sending (client_at t i).state)) [
        | inl e ↦
            let sending : is_sending (client_at t i).state ≡ true = ground arith in
            let staged = sending_only (pollfd_at t i) (client_at t i) here sending in
            rw e (
              written-LivesOn (do_write answers (client_at t i) w)
                (do_write-KeepsFd answers (client_at t i) w)
                (do_write-Concluded answers (client_at t i) w staged))
        | inr e ↦ rw e (close_if_done-LivesOn n i t w s client live others here)
      ]

module _ (h : Host) (reliable : IsReliable h) (r : Round) (n i : ℕ) (t : Table) (w : World)
    (s : IsTable n t) (live : i < t.fd_count) (all : AllSlots InLife n t) where
  abbrev but_this : AllBut InLife i n t
  but_this j nj l ne = all j nj l

  read-AllBut : AllBut InLife i n (read_slot h r i t w).0
  unfolding read_slot
  read-AllBut j nj l ne =
      let done = do_read h (r.recvs (client_at t i).fd) (client_at t i) (pollfd_at t i) w in
      rw
        (
          get_or-set_ne t.pfds i j done.pollfd blank_pollfd (λ q. ne (sym q)),
          get_or-set_ne t.clients i j done.client blank_client (λ q. ne (sym q)),
        )
        (all j nj l)

  read-Visited :
      n ≤ i
      → (client_at t i).state ≡ reading
      → Visited (pollfd_at (read_slot h r i t w).0 i) (client_at (read_slot h r i t w).0 i)
  unfolding read_slot
  read-Visited client st =
      let done = do_read h (r.recvs (client_at t i).fd) (client_at t i) (pollfd_at t i) w in
      rw
        (
          get_or-set_self t.pfds i done.pollfd blank_pollfd
              (omega (arith, s.sized.fits, s.sized.pfds_size)),
          get_or-set_self t.clients i done.client blank_client
              (omega (arith, s.sized.fits, s.sized.clients_size)),
        )
        (do_read-Visited h (r.recvs (client_at t i).fd) (client_at t i) (pollfd_at t i) w reliable
          st (all i client live))

  visit_client-LivesOn : n ≤ i → LivesOn n (visit_client h r i t w)
  unfolding visit_client
  visit_client-LivesOn client =
      let revents = (pollfd_at t i).revents in
      elim (Bool-cases (revents == 0)) [
        | inl e ↦ rw e all
        | inr quiet ↦ elim (Bool-cases (has_flag revents error_mask)) [
          | inl e ↦ rw (quiet, e) (closed-LivesOn n i t w s client live but_this)
          | inr fine ↦
              elim (Bool-cases (has_flag revents pollin && is_reading (client_at t i).state)) [
                | inl e ↦ rw (quiet, fine, e) (after_read (is_read e))
                | inr e ↦
                    rw (quiet, fine, e)
                      (write_and_close-LivesOn r n i t s client live but_this revents w
                        (inl (all i client live)))
              ]
        ]
      ]
    where
      reading_only : (x : ClientState) → is_reading x ≡ true → x ≡ reading
      reading_only reading e = refl
      reading_only processing e = absurd (false-true e)
      reading_only sending_header e = absurd (false-true e)
      reading_only sending_body e = absurd (false-true e)
      reading_only closing e = absurd (false-true e)

      is_read :
          (has_flag (pollfd_at t i).revents pollin && is_reading (client_at t i).state) ≡ true
          → (client_at t i).state ≡ reading
      is_read e = reading_only (client_at t i).state (ground arith)

      after_read :
          (client_at t i).state ≡ reading
          → LivesOn n (
              write_and_close r
                (pollfd_at t i).revents
                i
                (read_slot h r i t w).0
                (read_slot h r i t w).1)
      after_read st =
          let count = read_count h r n i t w s client live in
          write_and_close-LivesOn r n i (read_slot h r i t w).0
            (read-IsTable h r n i t w s client live) client (omega arith) read-AllBut
            (pollfd_at t i).revents (read_slot h r i t w).1 (read-Visited client st)

  grown-LivesOn : (u : Table) (k : ℕ) → Grew t u k → AllSlots InLife n u
  grown-LivesOn u k g j nj l = elim (lt-cases j t.fd_count) [
    | inl old ↦ rw (g.kept_pollfd j old, g.kept_client j old) (all j nj old)
    | inr new ↦ fresh-InLife (pollfd_at u j) (client_at u j) (g.fresh j new l)
  ]

  visit_listener-LivesOn : LivesOn n (visit_listener h r i t w)
  unfolding visit_listener
  visit_listener-LivesOn = elim (Bool-cases (has_flag (pollfd_at t i).revents pollin)) [
    | inl e ↦ elim (Outcome-cases (accept_new_conn h (r.accepts (pollfd_at t i).fd) t w)) [
      | inl x ↦ rw (e, visit_listener, x) tt
      | inr ((u, v), x) ↦
          let (g, _, _) =
            accept_new_conn-Grew h (r.accepts (pollfd_at t i).fd) t w s.sized
              (omega (arith, s.sized.fits)) x in
          rw (e, visit_listener, x) (grown-LivesOn u (taken_count (r.accepts (pollfd_at t i).fd)) g)
    ]
    | inr e ↦ rw e all
  ]

  pub visit-LivesOn : LivesOn n (visit h r n i t w)
  unfolding visit
  visit-LivesOn = elim (Bool-cases (ltb i n)) [
    | inl e ↦ rw e visit_listener-LivesOn
    | inr e ↦ rw e (visit_client-LivesOn (ground arith))
  ]
