-- ===== src/Server/Descriptors.antt =====
-- The descriptors of the connections, over the passes of the poll loop of main.c.
use simple_web_server.Base.{
  eq-cases, ℕ, ◌+◌, ◌<◌, ◌≤◌, ◌≡◌, refl, ap, ◌∙◌, inl, inr, ◌&&◌, Bool-cases, ltb, ◌==◌, arith,
  length, set, get_or, get_or-set_self, get_or-set_ne,
}
use simple_web_server.Client.{Client, has_flag}
use simple_web_server.Connections.{
  Table, Outcome, running, exited, pollfd_at, client_at, blank_client, pollin, pollout,
  accept_new_conn,
}
use simple_web_server.Connections.Balance.{
  total, total-same, accepts, closes, tally, holds, IsBalanced,
}
use simple_web_server.Connections.Balance.Kept.{
  holds-same, close_conn-IsBalanced, Balances, accept_new_conn-Balances,
}
use simple_web_server.Host.{Host, World}
use simple_web_server.Read.{do_read, is_reading}
use simple_web_server.Read.Quiet.{do_read-Same}
use simple_web_server.Read.Streams.{do_read-fd}
use simple_web_server.Server.{
  Round, read_slot, write_slot, close_if_done, then_close_if_done, write_and_close, visit,
  visit_client, visit_listener, error_mask, is_sending, is_closing,
}
use simple_web_server.Server.Keeps.{AfterVisit}
use simple_web_server.Server.Invariant.{
  with_client, IsTable, read-IsTable, read_count, set_client-IsTable,
}
use simple_web_server.Write.{do_write}
use simple_web_server.Write.Keeps.{KeepsFd, do_write-KeepsFd}
use simple_web_server.Write.Quiet.{SameAfter, do_write-SameAfter}

-- A client with the same descriptor is written to slot `i`.
set_client-IsBalanced :
    (n i : ℕ) (t u : Table) (c : Client) (w v : World)
    → i < length t.clients
    → u.fd_count ≡ t.fd_count
    → u.clients ≡ set t.clients i c
    → c.fd ≡ (client_at t i).fd
    → ((d : ℕ) → tally (accepts d) v.effects ≡ tally (accepts d) w.effects)
    → ((d : ℕ) → tally (closes d) v.effects ≡ tally (closes d) w.effects)
    → IsBalanced n t w
    → IsBalanced n u v
set_client-IsBalanced n i t u c w v within count clients e a k b d = omega (
  arith,
  b d,
  a d,
  k d,
  ap (total (holds d n u)) count,
  total-same (holds d n u) (holds d n t) t.fd_count (λ j l. holds-same d n j j t u refl (same j)),
)
  where
    at : (j : ℕ) → (get_or (set t.clients i c) j blank_client).fd ≡ (client_at t j).fd
    at j = elim (eq-cases i j) [
      | inl q ↦
          rw (← q)
            (ap (λ (x : Client). x.fd) (get_or-set_self t.clients i c blank_client within) ∙ e)
      | inr ne ↦ ap (λ (x : Client). x.fd) (get_or-set_ne t.clients i j c blank_client ne)
    ]

    same : (j : ℕ) → (client_at u j).fd ≡ (client_at t j).fd
    same j = ap (λ cs. (get_or cs j blank_client).fd) clients ∙ at j

module _ (h : Host) (r : Round) (n i : ℕ) (t : Table) (s : IsTable n t) (client : n ≤ i)
    (live : i < t.fd_count) where
  within : i < length t.clients
  within = omega (arith, s.sized.fits, s.sized.clients_size)

  close_if_done-AfterVisit :
      (w : World) → IsBalanced n t w → AfterVisit (IsBalanced n) (close_if_done i t w)
  close_if_done-AfterVisit w b = elim (Bool-cases (is_closing (client_at t i).state)) [
    | inl e ↦
        unfold close_if_done in
        rw e (close_conn-IsBalanced n i t w s.sized s.some_listener client live b)
    | inr e ↦ unfold close_if_done in rw e b
  ]

  read-IsBalanced :
      (w : World) → IsBalanced n t w → IsBalanced n (read_slot h r i t w).0 (read_slot h r i t w).1
  unfolding read_slot
  read-IsBalanced w b =
      let done = do_read h (r.recvs (client_at t i).fd) (client_at t i) (pollfd_at t i) w in
      set_client-IsBalanced n i t
        (record t { pfds = set t.pfds i done.pollfd; clients = set t.clients i done.client })
        done.client w done.world within refl refl
        (do_read-fd h (r.recvs (client_at t i).fd) (client_at t i) (pollfd_at t i) w).0
        (λ d. do_read-Same (accepts d) (λ x. refl) h _ (client_at t i) (pollfd_at t i) w)
        (λ d. do_read-Same (closes d) (λ x. refl) h _ (client_at t i) (pollfd_at t i) w) b

module _ (h : Host) (r : Round) (n i : ℕ) (t : Table) (s : IsTable n t) (client : n ≤ i)
    (live : i < t.fd_count) where
  written-AfterVisit :
      (w : World) (o : Outcome (Client × World))
      → KeepsFd (client_at t i) o
      → ((d : ℕ) → SameAfter (accepts d) (λ fd x. refl) (λ fd. refl) w o)
      → ((d : ℕ) → SameAfter (closes d) (λ fd x. refl) (λ fd. refl) w o)
      → IsBalanced n t w
      → AfterVisit (IsBalanced n) (
          then_close_if_done i
            (elim o [ exited ↦ exited | running (c, w') ↦ running (with_client t i c, w') ]))
  unfolding then_close_if_done
  written-AfterVisit w exited k a e b = tt
  written-AfterVisit w (running (c, w')) k a e b =
      close_if_done-AfterVisit h r n i (with_client t i c)
        (set_client-IsTable n i t c s client live k) client live w'
        (set_client-IsBalanced n i t (with_client t i c) c w w' (within h r n i t s client live)
          refl refl k a e b)

  write_and_close-AfterVisit :
      (revents : ℕ) (w : World)
      → IsBalanced n t w
      → AfterVisit (IsBalanced n) (write_and_close r revents i t w)
  unfolding write_and_close write_slot
  write_and_close-AfterVisit revents w b =
      elim (Bool-cases (has_flag revents pollout && is_sending (client_at t i).state)) [
        | inl e ↦
            let answers = r.sends (client_at t i).fd in
            rw e (
              written-AfterVisit w (do_write answers (client_at t i) w)
                (do_write-KeepsFd answers (client_at t i) w)
                (λ d.
                  do_write-SameAfter (accepts d) (λ fd x. refl) (λ fd. refl) answers (client_at t i)
                    w)
                (λ d.
                  do_write-SameAfter (closes d) (λ fd x. refl) (λ fd. refl) answers (client_at t i)
                    w)
                b)
        | inr e ↦ rw e (close_if_done-AfterVisit h r n i t s client live w b)
      ]

module _ (h : Host) (r : Round) (n i : ℕ) (t : Table) (w : World) (s : IsTable n t)
    (live : i < t.fd_count) (b : IsBalanced n t w) where
  visit_client-AfterVisit : n ≤ i → AfterVisit (IsBalanced n) (visit_client h r i t w)
  unfolding visit_client
  visit_client-AfterVisit client =
      let revents = (pollfd_at t i).revents in
      elim (Bool-cases (revents == 0)) [
        | inl e ↦ rw e b
        | inr quiet ↦ elim (Bool-cases (has_flag revents error_mask)) [
          | inl e ↦
              rw (quiet, e) (close_conn-IsBalanced n i t w s.sized s.some_listener client live b)
          | inr fine ↦
              elim (Bool-cases (has_flag revents pollin && is_reading (client_at t i).state)) [
                | inl e ↦ rw (quiet, fine, e) after_read
                | inr e ↦
                    rw (quiet, fine, e)
                      (write_and_close-AfterVisit h r n i t s client live revents w b)
              ]
        ]
      ]
    where
      after_read : AfterVisit (IsBalanced n) (
          write_and_close r
            (pollfd_at t i).revents
            i
            (read_slot h r i t w).0
            (read_slot h r i t w).1)
      after_read =
          let count = read_count h r n i t w s client live in
          write_and_close-AfterVisit h r n i (read_slot h r i t w).0
            (read-IsTable h r n i t w s client live) client (omega arith) (pollfd_at t i).revents
            (read_slot h r i t w).1 (read-IsBalanced h r n i t s client live w b)

  visit_listener-AfterVisit : AfterVisit (IsBalanced n) (visit_listener h r i t w)
  unfolding visit_listener
  visit_listener-AfterVisit = elim (Bool-cases (has_flag (pollfd_at t i).revents pollin)) [
    | inl e ↦
        rw (e, visit_listener)
          (moved (accept_new_conn h (r.accepts (pollfd_at t i).fd) t w) (
            accept_new_conn-Balances h (r.accepts (pollfd_at t i).fd) n t w s.sized
              (omega (arith, s.sized.fits)) s.listeners b))
    | inr e ↦ rw e b
  ]
    where
      moved :
          (o : Outcome (Table × World))
          → Balances n o
          → AfterVisit
              (IsBalanced n)
              (elim o [ exited ↦ exited | running (u, v) ↦ running (i + 1, u, v) ])
      moved exited k = tt
      moved (running (u, v)) k = k

  -- One step of the poll loop leaves the account balanced.
  pub visit-AfterVisit : AfterVisit (IsBalanced n) (visit h r n i t w)
  unfolding visit
  visit-AfterVisit = elim (Bool-cases (ltb i n)) [
    | inl e ↦ rw e visit_listener-AfterVisit
    | inr e ↦ rw e (visit_client-AfterVisit (ground arith))
  ]
