-- ===== src/Server/Waiting.antt =====
-- Connections that the poll loop of main.c passes over.
use simple_web_server.Base.{
  ℕ, ◌+◌, ◌≤◌, ◌≡◌, refl, ap, inl, inr, false, Bool-cases, ltb, ◌==◌, arith,
}
use simple_web_server.Client.{processing, has_flag}
use simple_web_server.Connections.{Table, running, pollfd_at, client_at, pollin, pollout}
use simple_web_server.Host.{Host, World}
use simple_web_server.Read.{is_reading}
use simple_web_server.Server.{
  Round, visit, visit_client, close_if_done, write_and_close, error_mask, is_sending, is_closing,
}

-- A connection that is PROCESSING, as one with a request of more than 8192 bytes is, is neither read
-- from, written to nor closed by any step of the poll loop, unless `poll` reports an error of its
-- descriptor.
pub visit-processing :
    (h : Host) (r : Round) (n i : ℕ) (t : Table) (w : World)
    → n ≤ i
    → (client_at t i).state ≡ processing
    → has_flag (pollfd_at t i).revents error_mask ≡ false
    → visit h r n i t w ≡ running (i + 1, t, w)
unfolding visit visit_client write_and_close close_if_done
visit-processing h r n i t w client p fine =
    let not_listener : ltb i n ≡ false = ground arith in
    elim (Bool-cases ((pollfd_at t i).revents == 0)) [
      | inl e ↦ rw (not_listener, e) refl
      | inr e ↦ elim (Bool-cases (has_flag (pollfd_at t i).revents pollin)) [
        | inl a ↦ elim (Bool-cases (has_flag (pollfd_at t i).revents pollout)) [
          | inl b ↦
              rw (not_listener, e, fine, a, ap is_reading p, b, ap is_sending p, ap is_closing p)
                refl
          | inr b ↦ rw (not_listener, e, fine, a, ap is_reading p, b, ap is_closing p) refl
        ]
        | inr a ↦ elim (Bool-cases (has_flag (pollfd_at t i).revents pollout)) [
          | inl b ↦ rw (not_listener, e, fine, a, b, ap is_sending p, ap is_closing p) refl
          | inr b ↦ rw (not_listener, e, fine, a, b, ap is_closing p) refl
        ]
      ]
    ]
