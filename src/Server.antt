-- ===== src/Server.antt =====
-- main.c: the listeners' slots, and the passes of the poll loop over the table.
pub mod Slots
pub mod Rounds
pub mod Start
pub mod Waiting
pub mod Run
pub mod Descriptors
pub mod Keeps
pub mod Closing
pub mod Exchange
pub mod Life
pub mod Lives
pub mod Reachable
pub mod Reasons
pub mod Exits
pub mod Invariant
use Prim.Native.Nat.{bit_or}
use simple_web_server.Base.{
  ℕ, zero, suc, ◌+◌, ◌-◌, ◌*◌, Bool, true, false, not, ◌&&◌, ◌||◌, Option, none, some, List, [],
  ◌∷◌, ltb, ◌==◌, if◌then◌else◌, get_or, set,
}
use simple_web_server.Client.{
  Client, ClientState, sending_header, sending_body, closing, has_flag, b4_flag, b6_flag,
}
use simple_web_server.Connections.{
  Pollfd, Table, Outcome, running, exited, Accepted, pollfd_at, client_at, pollin, pollout, pollerr,
  pollhup, pollnval, close_conn, accept_new_conn, blank_pollfd, blank_client, blanks,
}
use simple_web_server.Host.{Host, World}
use simple_web_server.Read.{Recv, do_read, is_reading}
use simple_web_server.Write.{Send, do_write}

abbrev pub initial_size : ℕ
initial_size = 32

abbrev pub use_v4 : ℕ → Bool
use_v4 app_flags = has_flag app_flags b4_flag || not (has_flag app_flags b6_flag)

abbrev pub use_v6 : ℕ → Bool
use_v6 app_flags = has_flag app_flags b6_flag || not (has_flag app_flags b4_flag)

-- `if (-1 != listener) …`: a slot for a listener that was created.
pub add_listener : Option ℕ → List Pollfd × ℕ → List Pollfd × ℕ
add_listener none (pfds, n) = (pfds, n)
add_listener (some fd) (pfds, n) =
    (set pfds n (record { fd = fd; events = pollin; revents = 0 }), n + 1)

abbrev pub wanted : Bool → Option ℕ → Option ℕ
wanted true l = l
wanted false l = none

-- The table for the listeners that there are, with their number; with none the process exits.
unfoldable pub set_up : Option ℕ → Option ℕ → Outcome (Table × ℕ)
unfolding add_listener
set_up listener_v4 listener_v6 =
    let first = add_listener listener_v4 (blanks initial_size blank_pollfd, 0) in
    let (pfds, num_listeners) = add_listener listener_v6 first in
    if num_listeners == 0
    then exited
    else running (
      record {
        pfds = pfds;
        clients = blanks initial_size blank_client;
        fd_count = num_listeners;
        fd_size = initial_size;
      },
      num_listeners,
    )

-- What is before the loop; `get_listener_v4` and `get_listener_v6` are given by what they return.
pub start : ℕ → Option ℕ → Option ℕ → Outcome (Table × ℕ)
unfolding set_up
start app_flags listener_v4 listener_v6 =
    set_up (wanted (use_v4 app_flags) listener_v4) (wanted (use_v6 app_flags) listener_v6)

-- What the kernel says in one pass: the masks of `poll`, and the answers to `accept`, `recv` and
-- `send` by descriptor.
pub record Round : Type 0 where
  pub revents : List ℕ
  pub accepts : ℕ → List Accepted
  pub recvs : ℕ → List Recv
  pub sends : ℕ → List Send

-- `poll` writes the masks of the live slots.
unfoldable pub poll : List ℕ → List Pollfd → List Pollfd
poll [] pfds = pfds
poll (r ∷ rs) [] = []
poll (r ∷ rs) (p ∷ pfds) = record p { revents = r } ∷ poll rs pfds

abbrev pub is_sending : ClientState → Bool
is_sending sending_header = true
is_sending sending_body = true
is_sending _ = false

abbrev pub is_closing : ClientState → Bool
is_closing closing = true
is_closing _ = false

-- The next index, with the table and the world.
abbrev pub Visit : Type 0
Visit = Outcome (ℕ × Table × World)

pub visit_listener : Host → Round → ℕ → Table → World → Visit
visit_listener h r i t w =
    let p = pollfd_at t i in
    if has_flag p.revents pollin
    then elim (accept_new_conn h (r.accepts p.fd) t w) [
      | exited ↦ exited
      | running (t', w') ↦ running (i + 1, t', w')
    ]
    else running (i + 1, t, w)

-- `do_read(i, clients, pfds, magic)` on the arrays
pub read_slot : Host → Round → ℕ → Table → World → Table × World
read_slot h r i t w =
    let done = do_read h (r.recvs (client_at t i).fd) (client_at t i) (pollfd_at t i) w in
    (
      record t { pfds = set t.pfds i done.pollfd; clients = set t.clients i done.client },
      done.world,
    )

-- `do_write(i, clients)` on the arrays
pub write_slot : Round → ℕ → Table → World → Outcome (Table × World)
write_slot r i t w = elim (do_write (r.sends (client_at t i).fd) (client_at t i) w) [
  | exited ↦ exited
  | running (c, w') ↦ running (record t { clients = set t.clients i c }, w')
]

-- The last test of the loop's body; a slot that is closed is looked at again, for what moved there.
pub close_if_done : ℕ → Table → World → Visit
close_if_done i t w =
    if is_closing (client_at t i).state
    then (let closed_conn = close_conn i t w in running (i, closed_conn.0, closed_conn.1))
    else running (i + 1, t, w)

pub then_close_if_done : ℕ → Outcome (Table × World) → Visit
unfolding close_if_done
then_close_if_done i exited = exited
then_close_if_done i (running (t, w)) = close_if_done i t w

-- The write part and what is behind it; `revents` is the mask read at the start.
pub write_and_close : Round → ℕ → ℕ → Table → World → Visit
unfolding then_close_if_done
write_and_close r revents i t w =
    if has_flag revents pollout && is_sending (client_at t i).state
    then then_close_if_done i (write_slot r i t w)
    else close_if_done i t w

abbrev pub error_mask : ℕ
error_mask = bit_or pollerr (bit_or pollhup pollnval)

pub visit_client : Host → Round → ℕ → Table → World → Visit
unfolding write_and_close
visit_client h r i t w =
    let revents = (pollfd_at t i).revents in
    let was_read = read_slot h r i t w in
    let closed_conn = close_conn i t w in
    if revents == 0
    then running (i + 1, t, w)
    else if has_flag revents error_mask
    then running (i, closed_conn.0, closed_conn.1)
    else if has_flag revents pollin && is_reading (client_at t i).state
    then write_and_close r revents i was_read.0 was_read.1
    else write_and_close r revents i t w

-- The body of the loop for slot `i`.
unfoldable pub visit : Host → Round → ℕ → ℕ → Table → World → Visit
unfolding visit_listener visit_client
visit h r num_listeners i t w =
    if ltb i num_listeners then visit_listener h r i t w else visit_client h r i t w

-- `for (int i = 0; i < fd_count; i++)`, with fuel; `none` means that the fuel ran out.
unfoldable pub visit_all :
    Host → Round → ℕ → ℕ → ℕ → Table → World → Option (Outcome (Table × World))
visit_all h r num_listeners zero i t w = none
visit_all h r num_listeners (suc fuel) i t w = elim (ltb i t.fd_count) [
  | false ↦ some (running (t, w))
  | true ↦ elim (visit h r num_listeners i t w) [
    | exited ↦ some exited
    | running (j, t', w') ↦ visit_all h r num_listeners fuel j t' w'
  ]
]

-- What `poll` returns: masks, EINTR, or another error.
pub data Polled : Type 0 where
  ready : Round → Polled
  poll_interrupted : Polled
  poll_error : Polled

-- One pass of `while (running)`.
unfoldable pub pass : Host → Polled → ℕ → ℕ → Table → World → Option (Outcome (Table × World))
unfolding poll
pass h poll_interrupted num_listeners fuel t w = some (running (t, w))
pass h poll_error num_listeners fuel t w = some exited
pass h (ready r) num_listeners fuel t w =
    visit_all h r num_listeners fuel 0 (record t { pfds = poll r.revents t.pfds }) w

-- The loop behind `while (running)`, which closes every client.
unfoldable pub close_all : ℕ → ℕ → Table → World → Option (Table × World)
close_all num_listeners zero t w = none
close_all num_listeners (suc fuel) t w = elim (ltb num_listeners t.fd_count) [
  | false ↦ some (t, w)
  | true ↦
      let closed_conn = close_conn num_listeners t w in
      close_all num_listeners fuel closed_conn.0 closed_conn.1
]

-- The loop, and what is behind it, for the answers of `poll` up to the signal that ends it; the fuel
-- is counted for `most` answers of `accept` to a listener in a pass.
unfoldable pub serve : Host → ℕ → ℕ → List Polled → Table → World → Option (Outcome (Table × World))
serve h most num_listeners [] t w =
    elim (close_all num_listeners (suc (t.fd_count - num_listeners)) t w) [
      | none ↦ none
      | some done ↦ some (running done)
    ]
serve h most num_listeners (answer ∷ rest) t w =
    elim (pass h answer num_listeners (suc (t.fd_count + num_listeners * most)) t w) [
      | none ↦ none
      | some exited ↦ some exited
      | some (running (t', w')) ↦ serve h most num_listeners rest t' w'
    ]
