-- ===== src/Main.antt =====
-- main.c: the server from its command line to its end.
pub mod Listeners
pub mod Loop
pub mod Ends
use simple_web_server.Base.{ℕ, Bool, true, false, not, Option, none, some, List, [], if◌then◌else◌}
use simple_web_server.CString.{Bytes}
use simple_web_server.Connections.{Table, Outcome, running, exited}
use simple_web_server.Flags.{Env, Config, initial, set_flags}
use simple_web_server.Host.{Host, World, closed, emit}
use simple_web_server.Server.{Polled, use_v4, use_v6, set_up, serve}
use simple_web_server.Sockets.{
  Calls, Made, exits, returns_error, listener, get_listener_v4, get_listener_v6,
}

-- What the process asks of the system before it serves.
pub record System : Type 0 where
  -- `sigaction` for SIGTERM and for SIGINT
  pub sigterm_ok : Bool
  pub sigint_ok : Bool
  pub env : Env
  -- `magic_load`, and both calls of `malloc`
  pub magic_ok : Bool
  pub pfds_ok : Bool
  pub clients_ok : Bool
  pub calls4 : Calls
  pub calls6 : Calls
  pub host : Host

-- EXIT_FAILURE, or EXIT_SUCCESS with all that the outside has seen.
pub data Exit : Type 0 where
  exit_failure : Exit
  exit_success : World → Exit

-- How it goes on behind a part that may end the process.
abbrev pub and_then {ℓ} : {A : Type ℓ} → Outcome A → (A → Option Exit) → Option Exit
and_then exited f = some exit_failure
and_then (running a) f = f a

pub setup_signal_handler : System → Outcome (Unit {0})
setup_signal_handler sys =
    if not sys.sigterm_ok then exited else if not sys.sigint_ok then exited else running tt

-- `if (use_v4) listener_v4 = get_listener_v4();`, where none is -1.
pub get_if : Bool → Made → Outcome (Option ℕ)
get_if false m = running none
get_if true exits = exited
get_if true (returns_error s) = running none
get_if true (listener s note) = running (some s.fd)

-- `close(listener)`, which does nothing for -1
abbrev pub close_listener : Option ℕ → World → World
close_listener none w = w
close_listener (some fd) w = emit (closed fd) w

-- Behind the loop that closes the clients.
pub finish : Option ℕ → Option ℕ → Option (Outcome (Table × World)) → Option Exit
finish v4 v6 none = none
finish v4 v6 (some exited) = some exit_failure
finish v4 v6 (some (running (u, v))) = some (exit_success (close_listener v6 (close_listener v4 v)))

abbrev pub fresh_world : World
fresh_world = record { next_handle = 0; open_files = []; bad_closes = 0; effects = [] }

-- From the listeners on.
pub run_listeners : Host → ℕ → List Polled → Option ℕ → Option ℕ → Option Exit
unfolding finish
run_listeners h most answers v4 v6 =
    and_then (set_up v4 v6) (λ r. finish v4 v6 (serve h most r.1 answers r.0 fresh_world))

-- From the configuration on.
pub run_server : System → ℕ → List Polled → Config → Option Exit
unfolding run_listeners get_if
run_server sys most answers c =
    let h = record (sys.host) { app_flags = c.app_flags } in
    if not sys.magic_ok
    then some exit_failure
    else if not sys.pfds_ok
    then some exit_failure
    else if not sys.clients_ok
    then some exit_failure
    else and_then (get_if (use_v4 c.app_flags) (get_listener_v4 sys.calls4 c)) (λ v4.
      and_then (get_if (use_v6 c.app_flags) (get_listener_v6 sys.calls6 c))
        (λ v6. run_listeners h most answers v4 v6))

unfoldable pub main : System → ℕ → List Polled → List Bytes → Option Exit
unfolding setup_signal_handler run_server
main sys most answers args =
    and_then (setup_signal_handler sys)
      (λ s. and_then (set_flags sys.env args initial) (λ c. run_server sys most answers c))
