-- ===== src/Server/Reasons.antt =====
-- What can end the process in the loop of main.c, without regard to how the code finds it.
use simple_web_server.Base.{
  ℕ, suc, ◌+◌, ◌-◌, ◌*◌, ◌<◌, ◌≤◌, ◌≡◌, Bool, true, false, ◌&&◌, not, some, List, [], ◌∷◌, ◌==◌,
  if◌then◌else◌,
}
use simple_web_server.Client.{Client, has_flag}
use simple_web_server.Connections.{
  Table, running, Accepted, socket, accept_interrupted, accept_error, pollfd_at, client_at, pollin,
  pollout,
}
use simple_web_server.Host.{Host, World}
use simple_web_server.Read.{is_reading}
use simple_web_server.Server.{
  Round, read_slot, visit, Polled, ready, poll_error, poll, pass, is_sending, error_mask,
}
use simple_web_server.Write.Delivery.{capacity}

-- Whether memory is refused for one of the sockets: the arrays, of this count and size, are full
-- when it comes, and cannot be given twice the size.
unfoldable pub overflows : Host → List Accepted → ℕ → ℕ → Bool
overflows h [] count size = false
overflows h (accept_error ∷ rest) count size = false
overflows h (accept_interrupted ∷ rest) count size = overflows h rest count size
overflows h (socket newfd false a ∷ rest) count size = overflows h rest count size
overflows h (socket newfd true a ∷ rest) count size =
    let grown = overflows h rest (count + 1) (size * 2) in
    let as_it_is = overflows h rest (count + 1) size in
    if count == size then (if not (h.malloc_ok (size * 2)) then true else grown) else as_it_is

-- The arrays at the write part of a visit.
abbrev at_write : Host → Round → ℕ → Table → World → Table
at_write h r i t w =
    if has_flag (pollfd_at t i).revents pollin && is_reading (client_at t i).state
    then (read_slot h r i t w).0
    else t

abbrev client_at_write : Host → Round → ℕ → Table → World → Client
client_at_write h r i t w = client_at (at_write h r i t w) i

-- What ends the process at slot `i`: a listener has a connection, and memory for the arrays is
-- refused; or a client that is to be sent a response is ready for it and not broken, and its socket
-- takes fewer bytes than are left to send.
pub data Stops (h : Host) (r : Round) (n i : ℕ) (t : Table) (w : World) : Type 0 where
  no_memory :
      i < n
      → has_flag (pollfd_at t i).revents pollin ≡ true
      → overflows h (r.accepts (pollfd_at t i).fd) t.fd_count t.fd_size ≡ true
      → Stops h r n i t w
  not_sent :
      n ≤ i
      → has_flag (pollfd_at t i).revents pollout ≡ true
      → has_flag (pollfd_at t i).revents error_mask ≡ false
      → is_sending (client_at_write h r i t w).state ≡ true
      → capacity (r.sends (client_at_write h r i t w).fd)
        < (client_at_write h r i t w).output_length - (client_at_write h r i t w).output_sent
      → Stops h r n i t w

-- A live slot that stops the pass, at this index or at one that the pass comes to.
pub data PassReason (h : Host) (r : Round) (n : ℕ) : ℕ → Table → World → Type 0 where
  here :
      {i : ℕ} {t : Table} {w : World} → i < t.fd_count → Stops h r n i t w → PassReason h r n i t w
  behind :
      {i j : ℕ} {t u : Table} {w v : World}
      → i < t.fd_count
      → visit h r n i t w ≡ running (j, u, v)
      → PassReason h r n j u v
      → PassReason h r n i t w

-- What ended the loop, from this table on: `poll` failed, or a pass had its reason.
pub data LoopReason (h : Host) (most n : ℕ) : List Polled → Table → World → Type 0 where
  poll_failed :
      {rest : List Polled} {t : Table} {w : World} → LoopReason h most n (poll_error ∷ rest) t w
  in_pass :
      {r : Round} {rest : List Polled} {t : Table} {w : World}
      → PassReason h r n 0 (record t { pfds = poll r.revents t.pfds }) w
      → LoopReason h most n (ready r ∷ rest) t w
  later :
      {answer : Polled} {rest : List Polled} {t u : Table} {w v : World}
      → pass h answer n (suc (t.fd_count + n * most)) t w ≡ some (running (u, v))
      → LoopReason h most n rest u v
      → LoopReason h most n (answer ∷ rest) t w
