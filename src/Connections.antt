-- ===== src/Connections.antt =====
-- client_conn/connections.h, client_conn/connections.c and client_conn/accept_new_conn.c: the two
-- parallel arrays of the poll loop. An array is the list of its allocated slots; `fd_count` of them
-- are live.
pub mod Outcomes
pub mod Entries
pub mod Invariant
pub mod Room
pub mod Fresh
pub mod Accept
pub mod Balance
pub mod Bag
use simple_web_server.Base.{
  ℕ, ◌+◌, ◌-◌, ◌*◌, Bool, true, false, not, ◌&&◌, Option, none, some, List, [], ◌∷◌, ◌++◌, ◌==◌,
  if◌then◌else◌, length, get_or, set,
}
use simple_web_server.Client.{Client, reading, num_client_resp}
use simple_web_server.CString.{Bytes, codes}
use simple_web_server.Host.{Host, World, accepted, closed, emit, fclose}

-- `struct pollfd`, and the bits of its masks.
pub record Pollfd : Type 0 where
  pub fd : ℕ
  pub events : ℕ
  pub revents : ℕ

abbrev pub pollin : ℕ
pollin = 1

abbrev pub pollout : ℕ
pollout = 4

abbrev pub pollerr : ℕ
pollerr = 8

abbrev pub pollhup : ℕ
pollhup = 16

abbrev pub pollnval : ℕ
pollnval = 32

pub record Table : Type 0 where
  pub pfds : List Pollfd
  pub clients : List Client
  pub fd_count : ℕ
  pub fd_size : ℕ

-- What a slot holds that nothing was written to. No function reads such a slot.
abbrev pub blank_pollfd : Pollfd
blank_pollfd = record { fd = 0; events = 0; revents = 0 }

abbrev pub blank_client : Client
blank_client = record {
  in_buf = none;
  out_buf = none;
  file_ptr = none;
  file_size = 0;
  body_sent = 0;
  input_length = 0;
  input_capacity = 0;
  output_length = 0;
  output_capacity = 0;
  output_sent = 0;
  header_len = 0;
  body_len = 0;
  fd = 0;
  state = reading;
  resp_val = num_client_resp;
  client_addr = [];
}

abbrev pub pollfd_at : Table → ℕ → Pollfd
pollfd_at t i = get_or t.pfds i blank_pollfd

abbrev pub client_at : Table → ℕ → Client
client_at t i = get_or t.clients i blank_client

-- A result, or the end of the process by `exit`.
pub data Outcome {ℓ} (A : Type ℓ) : Type ℓ where
  running : A → Outcome A
  exited : Outcome A

-- The stream of a client, if any, is closed.
unfoldable pub close_file : Client → World → World
close_file c w = elim c.file_ptr [ none ↦ w | some f ↦ fclose f w ]

unfoldable pub close_conn : ℕ → Table → World → Table × World
unfolding close_file
close_conn i t w =
    let c = client_at t i in
    let last = t.fd_count - 1 in
    let moved =
      if not (i == last)
      then record t {
        pfds = set t.pfds i (pollfd_at t last);
        clients = set t.clients i (client_at t last);
      }
      else t in
    if i == 0
    then (t, w)
    else (record moved { fd_count = last }, close_file c (emit (closed c.fd) w))

-- Slots that `realloc` adds.
unfoldable pub blanks {ℓ} : {A : Type ℓ} → ℕ → A → List A
blanks ℕ.zero a = []
blanks (ℕ.suc n) a = a ∷ blanks n a

-- The growth of both arrays to twice the size, or the end of the process.
unfoldable grow : Host → Table → Outcome Table
unfolding blanks
grow h t =
    let size = t.fd_size * 2 in
    if not (h.malloc_ok size)
    then exited
    else running (record {
      pfds = t.pfds ++ blanks t.fd_size blank_pollfd;
      clients = t.clients ++ blanks t.fd_size blank_client;
      fd_count = t.fd_count;
      fd_size = size;
    })

-- The new slot; `client_addr` is left as it is.
abbrev pub new_pollfd : ℕ → Pollfd
new_pollfd newfd = record { fd = newfd; events = pollin; revents = 0 }

abbrev pub new_client : Client → ℕ → Client
new_client old newfd = record old {
  fd = newfd;
  state = reading;
  in_buf = none;
  input_capacity = 0;
  input_length = 0;
  out_buf = none;
  output_capacity = 0;
  output_length = 0;
  output_sent = 0;
  header_len = 0;
  body_len = 0;
  body_sent = 0;
  file_size = 0;
  file_ptr = none;
  resp_val = num_client_resp;
}

unfoldable pub fill_slot : ℕ → Table → Table × ℕ
fill_slot newfd t =
    let index = t.fd_count in
    (
      record t {
        pfds = set t.pfds index (new_pollfd newfd);
        clients = set t.clients index (new_client (client_at t index) newfd);
        fd_count = index + 1;
      },
      index,
    )

abbrev then_fill : ℕ → Outcome Table → Outcome (Table × ℕ)
then_fill newfd exited = exited
then_fill newfd (running t) = running (fill_slot newfd t)

unfoldable pub add_to_lists : Host → ℕ → Table → Outcome (Table × ℕ)
unfolding grow fill_slot
add_to_lists h newfd t =
    if t.fd_count == t.fd_size then then_fill newfd (grow h t) else running (fill_slot newfd t)

-- One `accept`: a socket with the outcome of the `fcntl` calls and what `inet_ntop` makes of the
-- peer's address; EINTR; or another error. No more: EAGAIN.
pub data Accepted : Type 0 where
  socket : ℕ → Bool → Option Bytes → Accepted
  accept_interrupted : Accepted
  accept_error : Accepted

abbrev pub address_text : Option Bytes → Bytes
address_text none = codes "Unknown IP"
address_text (some a) = a

unfoldable pub set_address : Table → ℕ → Option Bytes → Table
set_address t idx a = record t {
  clients = set t.clients idx (record (client_at t idx) { client_addr = address_text a });
}

-- The loop of accept_new_conn, over what `accept` gives.
unfoldable pub accept_new_conn : Host → List Accepted → Table → World → Outcome (Table × World)
unfolding set_address
accept_new_conn h [] t w = running (t, w)
accept_new_conn h (accept_error ∷ rest) t w = running (t, w)
accept_new_conn h (accept_interrupted ∷ rest) t w = accept_new_conn h rest t w
accept_new_conn h (socket newfd false a ∷ rest) t w =
    accept_new_conn h rest t (emit (closed newfd) (emit (accepted newfd) w))
accept_new_conn h (socket newfd true a ∷ rest) t w = elim (add_to_lists h newfd t) [
  | exited ↦ exited
  | running (t', idx) ↦ accept_new_conn h rest (set_address t' idx a) (emit (accepted newfd) w)
]
