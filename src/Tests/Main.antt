-- ===== src/Tests/Main.antt =====
-- The theorems on the listeners and on the program as a whole.
use simple_web_server.Client.{has_flag}
use simple_web_server.Base.{
  ℕ, ◌≤◌, ◌≡◌, refl, subst, true, some, none, [], ◌∷◌, List, arith, length,
}
use simple_web_server.Connections.{
  socket, accept_new_conn, add_to_lists, fill_slot, set_address, blanks, close_conn,
}
use simple_web_server.Connections.Balance.{IsBalanced}
use simple_web_server.CString.{Bytes, codes, strcmp_zero}
use simple_web_server.Flags.{Config, initial, set_flags, with_flag, without_flag}
use simple_web_server.Host.{World, accepted, closed}
use simple_web_server.Main.{System, Exit, main, exit_success, fresh_world}
use simple_web_server.Main.Ends.{Ending, main-Ending}
use simple_web_server.Main.Listeners.{Agrees}
use simple_web_server.Server.{
  set_up, Round, Polled, ready, poll_interrupted, serve, pass, poll, visit_all, visit, close_all,
}
use simple_web_server.Server.Closing.{AllClosed, HasReason, serve-closes_all}
use simple_web_server.Server.Run.{AllFew, Served}
use simple_web_server.Connections.{Table, Outcome}
use simple_web_server.Sockets.{Calls, get_listener_v4, get_listener_v6}
use simple_web_server.Sockets.Listens.{Results4, Results6, get_listener-Results}
use simple_web_server.Tests.Fixtures.{host, world, table, table-IsTable}
use simple_web_server.Tests.Flags.{env}

abbrev calls : ℕ → Calls
calls fd = record {
  socket = some fd;
  sets_reuse = true;
  sets_v6_only = true;
  get_flags = some 2;
  set_flags_ok = true;
  inet_pton = λ a. some (127 ∷ 0 ∷ 0 ∷ 1 ∷ []);
  bind_ok = λ a p. true;
  getsockname = some (31, 144);
  listen_ok = true;
}

abbrev config : Config
config = record initial { port_addr = 65616 }

get_listener-Results_example :
    Results4 (calls 3) config (get_listener_v4 (calls 3) config)
    × Results6 (calls 4) config (get_listener_v6 (calls 4) config)
get_listener-Results_example = get_listener-Results (calls 3) (calls 4) config

-- A listener has a connection, and a client has closed its own.
abbrev pub busy : Round
busy = record {
  revents = 1 ∷ 0 ∷ 16 ∷ [];
  accepts = λ fd. socket 7 true none ∷ [];
  recvs = λ fd. [];
  sends = λ fd. [];
}

abbrev polls : List Polled
polls = ready busy ∷ poll_interrupted ∷ []

pub busy-few : (r : Round) → ready busy ≡ ready r → (fd : ℕ) → length (r.accepts fd) ≤ 1
busy-few r e fd = subst (λ (x : Round). length (x.accepts fd) ≤ 1) (same e) (omega arith)
  where
    same : {r : Round} → ready busy ≡ ready r → busy ≡ r
    same q = cc

polls-AllFew : AllFew 1 polls
polls-AllFew = (busy-few, (interrupted, tt))
  where
    interrupted : (r : Round) → poll_interrupted ≡ ready r → (fd : ℕ) → length (r.accepts fd) ≤ 1
    interrupted r e fd = absurd (clash e)
      where
        clash : {r : Round} → poll_interrupted ≡ ready r → ⊥
        clash q = cc

abbrev accounted : World
accounted = record world { effects = accepted 5 ∷ accepted 6 ∷ [] }

table-IsBalanced : IsBalanced 1 table accounted
table-IsBalanced d = omega arith

serve-closes_all_example :
    (o : Outcome (Table × World)) × (serve host 1 1 polls table accounted ≡ some o)
    × Served 1 table o
    × AllClosed o
    × HasReason host 1 1 polls table accounted o
serve-closes_all_example =
    serve-closes_all host 1 1 polls table accounted polls-AllFew table-IsTable table-IsBalanced

abbrev system : System
system = record {
  sigterm_ok = true;
  sigint_ok = true;
  env = record env { is_ipv4 = λ a. true; is_ipv6 = λ a. true };
  magic_ok = true;
  pfds_ok = true;
  clients_ok = true;
  calls4 = calls 3;
  calls6 = calls 4;
  host = host;
}

abbrev pub args : List Bytes
args = codes "-v" ∷ codes "-bind4" ∷ codes "127.0.0.1" ∷ []

agrees : (fd : ℕ) → Agrees (λ a. true) (calls fd)
agrees fd a e = (127 ∷ 0 ∷ 0 ∷ 1 ∷ [], refl)

main-Ending_example :
    (e : Exit) × (main system 1 polls args ≡ some e) × Ending system 1 polls args e
main-Ending_example = main-Ending system 1 polls args polls-AllFew (agrees 3) (agrees 4)

-- One connection comes in and is closed at the signal, then the listener.
main_run :
    main system 1 polls args
    ≡ some (exit_success (record fresh_world { effects = accepted 7 ∷ closed 7 ∷ closed 3 ∷ [] }))
unfolding main set_flags with_flag without_flag strcmp_zero has_flag get_listener_v4 get_listener_v6
    set_up serve pass poll visit_all visit accept_new_conn add_to_lists fill_slot set_address blanks
    close_all close_conn
main_run = refl
