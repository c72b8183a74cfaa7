-- ===== src/Sockets.antt =====
-- sockets/get_listener_v4.c and sockets/get_listener_v6.c: the listening sockets.
pub mod Listens
use Prim.Native.Nat.{bit_or}
use simple_web_server.Base.{
  ℕ, ◌+◌, ◌*◌, ◌/◌, ◌%◌, ◌^◌, Bool, true, false, not, Option, none, some, List, [], ◌∷◌, ◌++◌,
  if◌then◌else◌,
}
use simple_web_server.Connections.{blanks}
use simple_web_server.Client.{has_flag, v_flag, b4_flag, b6_flag}
use simple_web_server.CString.{Bytes, codes, decimal}
use simple_web_server.Flags.{Config, or_none}

abbrev pub o_nonblock : ℕ
o_nonblock = 4

-- What the calls of the socket interface answer, for one address family.
pub record Calls : Type 0 where
  -- `socket`, or none for a negative result
  pub socket : Option ℕ
  -- whether `setsockopt` sets SO_REUSEADDR and IPV6_V6ONLY
  pub sets_reuse : Bool
  pub sets_v6_only : Bool
  -- `fcntl` with F_GETFL, or none for a negative result, and with F_SETFL
  pub get_flags : Option ℕ
  pub set_flags_ok : Bool
  -- the address that `inet_pton` makes of a text, where it returns 1
  pub inet_pton : Bytes → Option Bytes
  -- `bind`, to an address and a port in network order
  pub bind_ok : Bytes → Bytes → Bool
  -- the port in network order that `getsockname` writes
  pub getsockname : Option (ℕ × ℕ)
  pub listen_ok : Bool

-- What the kernel knows of the socket.
pub record Socket : Type 0 where
  pub fd : ℕ
  pub reuse_addr : Bool
  pub v6_only : Bool
  pub status_flags : ℕ
  pub address : Bytes
  pub port : Bytes
  pub is_bound : Bool
  pub is_listening : Bool

abbrev pub new_socket : ℕ → Bool → Bool → Socket
new_socket fd reuse_addr v6_only = record {
  fd = fd;
  reuse_addr = reuse_addr;
  v6_only = v6_only;
  status_flags = 0;
  address = [];
  port = [];
  is_bound = false;
  is_listening = false;
}

-- `exit(EXIT_FAILURE)`; `return -1`, with the socket that stays open; or the descriptor of a
-- listener, with what was printed.
pub data Made : Type 0 where
  exits : Made
  returns_error : Socket → Made
  listener : Socket → Bytes → Made

-- `htons`: the two bytes of the port that are sent, of 32 bits that are passed.
pub htons : ℕ → Bytes
htons port = port / 2 ^ 8 % 2 ^ 8 ∷ port % 2 ^ 8 ∷ []

abbrev ntohs : ℕ × ℕ → ℕ
ntohs (high, low) = high * 2 ^ 8 + low

-- `fcntl` twice: O_NONBLOCK is added to the flags of the socket.
pub set_nonblocking : Calls → Socket → Option Socket
set_nonblocking k s = elim k.get_flags [
  | none ↦ none
  | some flags ↦
      if k.set_flags_ok then some (record s { status_flags = bit_or flags o_nonblock }) else none
]

-- What is printed with -v.
abbrev pub port_note : Bytes → Config → ℕ × ℕ → Bytes
port_note name c local_port =
    if has_flag c.app_flags v_flag
    then name ++ (codes " has port #" ++ (decimal (ntohs local_port) ++ codes "\n"))
    else []

-- `bind`, `getsockname`, the message for -v, and `listen`.
pub bind_and_listen : Bytes → Calls → Config → Socket → Bytes → Made
unfolding htons
bind_and_listen name k c s address =
    let port = htons c.port_addr in
    let bound = record s { address = address; port = port; is_bound = true } in
    if not (k.bind_ok address port) then exits else elim k.getsockname [
      | none ↦ exits
      | some local_port ↦
          if k.listen_ok
          then listener (record bound { is_listening = true }) (port_note name c local_port)
          else exits
    ]

-- Behind the choice of the address.
with_address : Bytes → Calls → Config → Socket → Option Bytes → Made
unfolding bind_and_listen
with_address name k c s none = returns_error s
with_address name k c s (some address) = bind_and_listen name k c s address

with_nonblocking : Bytes → Calls → Config → Option Bytes → Option Socket → Made
unfolding with_address
with_nonblocking name k c address none = exits
with_nonblocking name k c address (some s) = with_address name k c s address

-- From the socket on: the address that is asked for, or that of all interfaces.
pub set_up_listener : Bytes → Bool → Option Bytes → Bytes → Calls → Config → Socket → Made
unfolding set_nonblocking with_nonblocking
set_up_listener name is_given bind_addr any k c opened =
    with_nonblocking name k c (if is_given then k.inet_pton (or_none bind_addr) else some any)
      (set_nonblocking k opened)

abbrev pub inaddr_any : Bytes
inaddr_any = blanks 4 0

abbrev pub in6addr_any : Bytes
in6addr_any = blanks 16 0

unfoldable pub get_listener_v4 : Calls → Config → Made
unfolding set_up_listener
get_listener_v4 k c = elim k.socket [
  | none ↦ exits
  | some fd ↦
      set_up_listener (codes "listener_v4") (has_flag c.app_flags b4_flag) c.bind_addr4 inaddr_any k
        c (new_socket fd k.sets_reuse false)
]

unfoldable pub get_listener_v6 : Calls → Config → Made
unfolding set_up_listener
get_listener_v6 k c = elim k.socket [
  | none ↦ exits
  | some fd ↦
      set_up_listener (codes "listener_v6") (has_flag c.app_flags b6_flag) c.bind_addr6 in6addr_any
        k c (new_socket fd k.sets_reuse k.sets_v6_only)
]
