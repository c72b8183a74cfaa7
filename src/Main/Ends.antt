-- ===== src/Main/Ends.antt =====
-- How main.c ends.
use simple_web_server.Base.{
  ℕ, ◌≡◌, refl, ◌⊎◌, inl, inr, false, Option, some, List, Bool-cases, true,
}
use simple_web_server.Client.{has_flag, b4_flag, b6_flag}
use simple_web_server.Connections.{running, exited}
use simple_web_server.CString.{Bytes}
use simple_web_server.Flags.{Config, initial, set_flags}
use simple_web_server.Flags.Configured.{IsConfigured}
use simple_web_server.Flags.Sound.{set_flags-IsConfigured}
use simple_web_server.Host.{Host, World}
use simple_web_server.Main.{
  System, Exit, exit_failure, exit_success, and_then, setup_signal_handler, get_if, run_listeners,
  run_server, main,
}
use simple_web_server.Main.Loop.{EveryClosed, LoopFailed, Finished, run_listeners-Finished}
use simple_web_server.Main.Listeners.{some-Opens, Agrees, Opens, get_if-Opens, valued4, valued6}
use simple_web_server.Server.{Polled, use_v4, use_v6}
use simple_web_server.Server.Run.{AllFew}
use simple_web_server.Sockets.{Socket, inaddr_any, in6addr_any, get_listener_v4, get_listener_v6}
use simple_web_server.Connections.Outcomes.{Outcome-cases, running-exited}
use simple_web_server.Sockets.Listens.{Failed, IsListener, get_listener-Results}

-- The listeners for a configuration.
abbrev IsListener4 : System → Config → Socket → Type 0
IsListener4 sys c =
    IsListener sys.calls4 (has_flag c.app_flags b4_flag) c.bind_addr4 inaddr_any false c.port_addr

abbrev IsListener6 : System → Config → Socket → Type 0
IsListener6 sys c =
    IsListener sys.calls6 (has_flag c.app_flags b6_flag) c.bind_addr6 in6addr_any
      sys.calls6.sets_v6_only c.port_addr

-- What a clean end has behind it.
pub record CleanEnd (sys : System) (args : List Bytes) (w : World) : Type 0 where
  pub config : Config
  pub flags : set_flags sys.env args initial ≡ running config
  pub checked : IsConfigured sys.env config
  pub v4 : Option ℕ
  pub v6 : Option ℕ
  pub opened4 : Opens (use_v4 config.app_flags) (IsListener4 sys config) v4
  pub opened6 : Opens (use_v6 config.app_flags) (IsListener6 sys config) v6
  pub every_closed : EveryClosed v4 v6 w

-- The host, with the flags of the configuration.
abbrev host_of : System → Config → Host
host_of sys c = record (sys.host) { app_flags = c.app_flags }

-- What a failure has behind it.
pub data FailedEnd (sys : System) (most : ℕ) (answers : List Polled) (args : List Bytes)
    : Type 0 where
  no_handler : (sys.sigterm_ok ≡ false) ⊎ (sys.sigint_ok ≡ false) → FailedEnd sys most answers args
  bad_flags : set_flags sys.env args initial ≡ exited → FailedEnd sys most answers args
  no_magic : sys.magic_ok ≡ false → FailedEnd sys most answers args
  no_arrays : (sys.pfds_ok ≡ false) ⊎ (sys.clients_ok ≡ false) → FailedEnd sys most answers args
  no_listener4 :
      (c : Config)
      → set_flags sys.env args initial ≡ running c
      → use_v4 c.app_flags ≡ true
      → Failed sys.calls4 (has_flag c.app_flags b4_flag) c.bind_addr4 inaddr_any
      → FailedEnd sys most answers args
  no_listener6 :
      (c : Config)
      → set_flags sys.env args initial ≡ running c
      → use_v6 c.app_flags ≡ true
      → Failed sys.calls6 (has_flag c.app_flags b6_flag) c.bind_addr6 in6addr_any
      → FailedEnd sys most answers args
  in_loop :
      (c : Config) (v4 v6 : Option ℕ)
      → set_flags sys.env args initial ≡ running c
      → Opens (use_v4 c.app_flags) (IsListener4 sys c) v4
      → Opens (use_v6 c.app_flags) (IsListener6 sys c) v6
      → LoopFailed (host_of sys c) most answers v4 v6
      → FailedEnd sys most answers args

abbrev pub Ending : System → ℕ → List Polled → List Bytes → Exit → Type 0
Ending sys most answers args exit_failure = FailedEnd sys most answers args
Ending sys most answers args (exit_success w) = CleanEnd sys args w

Ends : System → ℕ → List Polled → List Bytes → Option Exit → Type 0
Ends sys most answers args r = (e : Exit) × (r ≡ some e) × Ending sys most answers args e

module _ (sys : System) (most : ℕ) (answers : List Polled) (few : AllFew most answers)
    (args : List Bytes) (c : Config) (flags : set_flags sys.env args initial ≡ running c)
    (agrees4 : Agrees sys.env.is_ipv4 sys.calls4)
    (agrees6 : Agrees sys.env.is_ipv6 sys.calls6) where
  abbrev h : Host
  h = host_of sys c

  checked : IsConfigured sys.env c
  checked = set_flags-IsConfigured sys.env args flags

  clean :
      {v4 v6 : Option ℕ} (e : Exit)
      → Opens (use_v4 c.app_flags) (IsListener4 sys c) v4
      → Opens (use_v6 c.app_flags) (IsListener6 sys c) v6
      → Finished h most answers v4 v6 e
      → Ending sys most answers args e
  clean {v4} {v6} exit_failure o4 o6 why = in_loop c v4 v6 flags o4 o6 why
  clean {v4} {v6} (exit_success w) o4 o6 f = record {
    config = c;
    flags = flags;
    checked = checked;
    v4 = v4;
    v6 = v6;
    opened4 = o4;
    opened6 = o6;
    every_closed = f;
  }

  listeners-Ends : Ends sys most answers args (
      and_then (get_if (use_v4 c.app_flags) (get_listener_v4 sys.calls4 c)) (λ v4.
        and_then
          (get_if (use_v6 c.app_flags) (get_listener_v6 sys.calls6 c))
          (λ v6. run_listeners h most answers v4 v6)))
  unfolding Ends
  listeners-Ends =
      let (r4, r6) = get_listener-Results sys.calls4 sys.calls6 c in
      elim (get_if-Opens sys.calls4 sys.env.is_ipv4 (has_flag c.app_flags b4_flag) c.bind_addr4
        inaddr_any false c.port_addr agrees4 (valued4 sys.env c checked) (use_v4 c.app_flags)
        (get_listener_v4 sys.calls4 c) r4) [
          | inl (stop, is_wanted, why) ↦
              rw stop (exit_failure, refl, no_listener4 c flags is_wanted why)
          | inr (v4, got4, o4) ↦
              elim (get_if-Opens sys.calls6 sys.env.is_ipv6 (has_flag c.app_flags b6_flag)
                c.bind_addr6 in6addr_any sys.calls6.sets_v6_only c.port_addr agrees6
                (valued6 sys.env c checked) (use_v6 c.app_flags) (get_listener_v6 sys.calls6 c)
                r6) [
                  | inl (stop, is_wanted, why) ↦
                      rw (got4, stop) (exit_failure, refl, no_listener6 c flags is_wanted why)
                  | inr (v6, got6, o6) ↦
                      let (e, run, f) =
                        run_listeners-Finished h most answers few v4 v6
                          (some-Opens c.app_flags o4 o6) in
                      rw (got4, got6) (e, run, clean e o4 o6 f)
                ]
        ]

  run_server-Ends : Ends sys most answers args (run_server sys most answers c)
  unfolding run_server Ends
  run_server-Ends = elim (Bool-cases sys.magic_ok) [
    | inl m ↦ elim (Bool-cases sys.pfds_ok) [
      | inl p ↦ elim (Bool-cases sys.clients_ok) [
        | inl k ↦ go m p k listeners-Ends
        | inr k ↦ (exit_failure, rw (m, p, k) refl, no_arrays (inr k))
      ]
      | inr p ↦ (exit_failure, rw (m, p) refl, no_arrays (inl p))
    ]
    | inr m ↦ (exit_failure, rw m refl, no_magic m)
  ]
    where
      go :
          sys.magic_ok ≡ true
          → sys.pfds_ok ≡ true
          → sys.clients_ok ≡ true
          → Ends sys most answers args (
              and_then (get_if (use_v4 c.app_flags) (get_listener_v4 sys.calls4 c)) (λ v4.
                and_then
                  (get_if (use_v6 c.app_flags) (get_listener_v6 sys.calls6 c))
                  (λ v6. run_listeners h most answers v4 v6)))
          → Ends sys most answers args (run_server sys most answers c)
      go m p k (e, run, ending) = (e, (unfold run_server in rw (m, p, k) run), ending)

no_signals :
    (sys : System)
    → setup_signal_handler sys ≡ exited
    → (sys.sigterm_ok ≡ false) ⊎ (sys.sigint_ok ≡ false)
unfolding setup_signal_handler
no_signals sys e = elim (Bool-cases sys.sigterm_ok) [
  | inl a ↦ elim (Bool-cases sys.sigint_ok) [
    | inl b ↦ absurd (running-exited (rw (a, b) at e))
    | inr b ↦ inr b
  ]
  | inr a ↦ inl a
]

-- The program ends, on every command line and whatever the system answers, if `inet_pton` answers
-- as it did for the command line. If it ends with EXIT_SUCCESS, then the command line was let
-- through by setFlags and its configuration was checked; for each address family that it asks for,
-- and no other, there was a listener that did not block, bound to the address that it asks for and
-- to the low 16 bits of its port; and by the end every descriptor that `accept` gave was closed as
-- often as it was accepted, and each listener once more. It ends with EXIT_FAILURE only where a
-- signal handler, libmagic or the arrays could not be set up, setFlags refused the command line,
-- a call for a listener that is asked for failed, or the loop had a reason, at the pass that it had
-- come to from the table of these listeners: `poll` failed with another error than EINTR, memory for
-- the arrays was refused when a listener's sockets had filled them, or a client that was ready to
-- be sent the rest of its response took fewer bytes.
pub main-Ending :
    (sys : System) (most : ℕ) (answers : List Polled) (args : List Bytes)
    → AllFew most answers
    → Agrees sys.env.is_ipv4 sys.calls4
    → Agrees sys.env.is_ipv6 sys.calls6
    → (e : Exit) × (main sys most answers args ≡ some e) × Ending sys most answers args e
unfolding main Ends
main-Ending sys most answers args few agrees4 agrees6 =
    elim (Outcome-cases (setup_signal_handler sys)) [
      | inl stop ↦ (exit_failure, rw stop refl, no_handler (no_signals sys stop))
      | inr (_, ready_for_signals) ↦ elim (Outcome-cases (set_flags sys.env args initial)) [
        | inl stop ↦ (exit_failure, rw (ready_for_signals, stop) refl, bad_flags stop)
        | inr (c, flags) ↦
            let (e, run, ending) =
              run_server-Ends sys most answers few args c flags agrees4 agrees6 in
            (e, rw (ready_for_signals, flags) run, ending)
      ]
    ]
