-- ===== src/Sockets/Listens.antt =====
-- What the sockets of get_listener_v4.c and get_listener_v6.c are.
use Prim.Native.Nat.{bit_or}
use simple_web_server.Base.{
  ℕ, ◌+◌, ◌*◌, ◌%◌, ◌^◌, ◌≡◌, refl, Bool, true, false, Option, none, some, get_or, subst, sym,
  Option-cases, Bool-cases, inl, inr, ◌⊎◌, arith,
}
use simple_web_server.Base.Bits.{and-or-four}
use simple_web_server.Client.{has_flag, b4_flag, b6_flag}
use simple_web_server.CString.{Bytes, codes}
use simple_web_server.Flags.{Config, or_none}
use simple_web_server.Sockets.{
  Calls, Socket, new_socket, Made, exits, returns_error, listener, o_nonblock, htons,
  set_nonblocking, bind_and_listen, set_up_listener, port_note, inaddr_any, in6addr_any,
  get_listener_v4, get_listener_v6,
}

-- The address that a listener is for: the given one, or that of all interfaces.
pub data Chosen (k : Calls) (is_given : Bool) (bind_addr : Option Bytes) (any : Bytes)
    : Bytes → Type 0 where
  given :
      (address : Bytes)
      → is_given ≡ true
      → k.inet_pton (or_none bind_addr) ≡ some address
      → Chosen k is_given bind_addr any address
  all_interfaces : is_given ≡ false → Chosen k is_given bind_addr any any

-- The call that failed.
pub data Failed (k : Calls) (is_given : Bool) (bind_addr : Option Bytes) (any : Bytes)
    : Type 0 where
  no_socket : k.socket ≡ none → Failed k is_given bind_addr any
  no_flags : k.get_flags ≡ none → Failed k is_given bind_addr any
  flags_not_set : k.set_flags_ok ≡ false → Failed k is_given bind_addr any
  not_bound :
      (address port : Bytes)
      → Chosen k is_given bind_addr any address
      → k.bind_ok address port ≡ false
      → Failed k is_given bind_addr any
  no_name : k.getsockname ≡ none → Failed k is_given bind_addr any
  not_listening : k.listen_ok ≡ false → Failed k is_given bind_addr any

-- A listener: a socket of its own that does not block, bound to the address and to the low 16 bits
-- of the port, and listening.
pub record IsListener (k : Calls) (is_given : Bool) (bind_addr : Option Bytes) (any : Bytes)
    (v6_only : Bool) (port_addr : ℕ) (s : Socket) : Type 0 where
  pub fd : k.socket ≡ some s.fd
  pub reuse : s.reuse_addr ≡ k.sets_reuse
  pub family_only : s.v6_only ≡ v6_only
  pub nonblocking : has_flag s.status_flags o_nonblock ≡ true
  pub address : Chosen k is_given bind_addr any s.address
  pub port : get_or s.port 0 0 * 2 ^ 8 + get_or s.port 1 0 ≡ port_addr % 2 ^ 16
  pub accepted : k.bind_ok s.address s.port ≡ true
  pub bound : s.is_bound ≡ true
  pub listening : s.is_listening ≡ true

module _ (k : Calls) (is_given : Bool) (bind_addr : Option Bytes) (any : Bytes) (v6_only : Bool)
    (port_addr : ℕ) where
  -- What comes of it: a call failed; the address could not be read, and the socket stays open; or
  -- there is a listener.
  abbrev pub Results : Made → Type 0
  Results exits = Failed k is_given bind_addr any
  Results (returns_error s) =
      (is_given ≡ true)
      × (k.inet_pton (or_none bind_addr) ≡ none)
      × (k.socket ≡ some s.fd)
      × (s.is_bound ≡ false)
  Results (listener s note) = IsListener k is_given bind_addr any v6_only port_addr s

module _ (name : Bytes) (k : Calls) (is_given : Bool) (bind_addr : Option Bytes) (any : Bytes)
    (v6_only : Bool) (c : Config) where
  abbrev ResultsOf : Made → Type 0
  ResultsOf m = Results k is_given bind_addr any v6_only c.port_addr m

  nonblocking-flags : (flags : ℕ) → has_flag (bit_or flags o_nonblock) o_nonblock ≡ true
  unfolding has_flag
  nonblocking-flags flags = rw (and-or-four flags) refl

  port-htons : (n : ℕ) → get_or (htons n) 0 0 * 2 ^ 8 + get_or (htons n) 1 0 ≡ n % 2 ^ 16
  unfolding htons
  port-htons n = omega arith

  abbrev nonblocking_socket : ℕ → ℕ → Socket
  nonblocking_socket fd flags = record (new_socket fd k.sets_reuse v6_only) {
    status_flags = bit_or flags o_nonblock;
  }

  abbrev listening_socket : ℕ → ℕ → Bytes → Socket
  listening_socket fd flags address = record (nonblocking_socket fd flags) {
    address = address;
    port = htons c.port_addr;
    is_bound = true;
    is_listening = true;
  }

  by : {m m' : Made} → m ≡ m' → ResultsOf m' → ResultsOf m
  by e r = subst ResultsOf (sym e) r

  bind_and_listen-Results :
      (fd flags : ℕ) (address : Bytes)
      → k.socket ≡ some fd
      → Chosen k is_given bind_addr any address
      → ResultsOf (bind_and_listen name k c (nonblocking_socket fd flags) address)
  bind_and_listen-Results fd flags address opened chosen =
      elim (Bool-cases (k.bind_ok address (htons c.port_addr))) [
        | inl b ↦ elim (Option-cases k.getsockname) [
          | inl e ↦ by {m' = exits} (unfold bind_and_listen in rw (b, e)) (no_name e)
          | inr (p, e) ↦ elim (Bool-cases k.listen_ok) [
            | inl l ↦
                by {m' = listener (listening_socket fd flags address) (port_note name c p)}
                  (unfold bind_and_listen in rw (b, e, l) refl)
                  (record {
                    fd = opened;
                    reuse = refl;
                    family_only = refl;
                    nonblocking = nonblocking-flags flags;
                    address = chosen;
                    port = port-htons c.port_addr;
                    accepted = b;
                    bound = refl;
                    listening = refl;
                  })
            | inr l ↦ by {m' = exits} (unfold bind_and_listen in rw (b, e, l)) (not_listening l)
          ]
        ]
        | inr b ↦
            by {m' = exits} (unfold bind_and_listen in rw b)
              (not_bound address (htons c.port_addr) chosen b)
      ]

  abbrev set_up_from : ℕ → Made
  set_up_from fd =
      set_up_listener name is_given bind_addr any k c (new_socket fd k.sets_reuse v6_only)

  set_up_listener-Results :
      (fd : ℕ)
      → k.socket ≡ some fd
      → (is_given ≡ true) ⊎ (is_given ≡ false)
      → ResultsOf (set_up_from fd)
  set_up_listener-Results fd opened which = elim (Option-cases k.get_flags) [
    | inl e ↦ by {m' = exits} (unfold set_up_listener in rw (e, set_nonblocking)) (no_flags e)
    | inr (flags, e) ↦ elim (Bool-cases k.set_flags_ok) [
      | inl o ↦ elim which [
        | inl g ↦ elim (Option-cases (k.inet_pton (or_none bind_addr))) [
          | inl a ↦
              by {m' = returns_error (nonblocking_socket fd flags)}
                (unfold set_up_listener in rw (e, set_nonblocking, o, g, a) refl)
                (g, a, opened, refl)
          | inr (address, a) ↦
              by {m' = bind_and_listen name k c (nonblocking_socket fd flags) address}
                (unfold set_up_listener in rw (e, set_nonblocking, o, g, a) refl)
                (bind_and_listen-Results fd flags address opened (given address g a))
        ]
        | inr g ↦
            by {m' = bind_and_listen name k c (nonblocking_socket fd flags) any}
              (unfold set_up_listener in rw (e, set_nonblocking, o, g) refl)
              (bind_and_listen-Results fd flags any opened (all_interfaces g))
      ]
      | inr o ↦
          by {m' = exits} (unfold set_up_listener in rw (e, set_nonblocking, o)) (flags_not_set o)
    ]
  ]

abbrev pub Results4 : Calls → Config → Made → Type 0
Results4 k c = Results k (has_flag c.app_flags b4_flag) c.bind_addr4 inaddr_any false c.port_addr

abbrev pub Results6 : Calls → Config → Made → Type 0
Results6 k c =
    Results k (has_flag c.app_flags b6_flag) c.bind_addr6 in6addr_any k.sets_v6_only c.port_addr

-- On every answer of the socket interface, get_listener_v4 and get_listener_v6 exit because of a
-- call that failed; or return -1 with the socket left open and not bound, because the address that
-- was asked for is none; or return the socket, which then does not block, is bound to the address
-- that was asked for, or to all interfaces, and to the low 16 bits of the port, and listens. Where
-- the system lets it, the IPv6 one takes no IPv4 connections.
pub get_listener-Results :
    (k4 k6 : Calls) (c : Config)
    → Results4 k4 c (get_listener_v4 k4 c) × Results6 k6 c (get_listener_v6 k6 c)
get_listener-Results k4 k6 c = (
  elim (Option-cases k4.socket) [
    | inl e ↦ subst (Results4 k4 c) {x = exits} (sym (unfold get_listener_v4 in rw e)) (no_socket e)
    | inr (fd, e) ↦
        subst (Results4 k4 c)
          {x = set_up_listener (codes "listener_v4") (has_flag c.app_flags b4_flag) c.bind_addr4
            inaddr_any k4 c (new_socket fd k4.sets_reuse false)}
          (sym (unfold get_listener_v4 in rw e refl))
          (set_up_listener-Results (codes "listener_v4") k4 (has_flag c.app_flags b4_flag)
            c.bind_addr4 inaddr_any false c fd e (Bool-cases (has_flag c.app_flags b4_flag)))
  ],
  elim (Option-cases k6.socket) [
    | inl e ↦ subst (Results6 k6 c) {x = exits} (sym (unfold get_listener_v6 in rw e)) (no_socket e)
    | inr (fd, e) ↦
        subst (Results6 k6 c)
          {x = set_up_listener (codes "listener_v6") (has_flag c.app_flags b6_flag) c.bind_addr6
            in6addr_any k6 c (new_socket fd k6.sets_reuse k6.sets_v6_only)}
          (sym (unfold get_listener_v6 in rw e refl))
          (set_up_listener-Results (codes "listener_v6") k6 (has_flag c.app_flags b6_flag)
            c.bind_addr6 in6addr_any k6.sets_v6_only c fd e
            (Bool-cases (has_flag c.app_flags b6_flag)))
  ],
)
