-- ===== src/Server/Start.antt =====
-- The table that main.c begins with.
use simple_web_server.Base.{
  ℕ, zero, suc, ◌<◌, ◌≤◌, ◌≡◌, refl, ◌⊎◌, inl, inr, Option, none, some, arith, length, List, [],
  ◌∷◌, ◌++◌, map, take, get_or,
}
use simple_web_server.Connections.{
  Pollfd, Table, running, exited, pollfd_at, pollin, blanks, blank_pollfd, blank_client,
}
use simple_web_server.Server.{start, set_up, use_v4, use_v6, wanted, add_listener, initial_size}
use simple_web_server.Server.Invariant.{IsTable}

-- The listeners that are asked for and were created.
abbrev pub opened : ℕ → Option ℕ → Option ℕ → Option ℕ × Option ℕ
opened app_flags v4 v6 = (wanted (use_v4 app_flags) v4, wanted (use_v6 app_flags) v6)

abbrev present : Option ℕ → List ℕ
present none = []
present (some fd) = fd ∷ []

-- What is before the loop: a slot for each of them that waits for connections, and no client.
pub record Begins (listeners : Option ℕ × Option ℕ) (t : Table) (n : ℕ) : Type 0 where
  pub table : IsTable n t
  pub no_clients : t.fd_count ≡ n
  pub all : map (λ (p : Pollfd). p.fd) (take n t.pfds) ≡ present listeners.0 ++ present listeners.1
  pub waiting : (j : ℕ) → j < n → (pollfd_at t j).events ≡ pollin

abbrev listener : ℕ → Pollfd
listener fd = record { fd = fd; events = pollin; revents = 0 }

abbrev first_table : List Pollfd → ℕ → Table
first_table pfds n = record {
  pfds = pfds;
  clients = blanks initial_size blank_client;
  fd_count = n;
  fd_size = initial_size;
}

in_order :
    (pfds : List Pollfd) (n : ℕ)
    → length pfds ≡ initial_size
    → 0 < n
    → n ≤ initial_size
    → IsTable n (first_table pfds n)
unfolding blanks
in_order pfds n size some_listener few = record {
  sized = record { fits = few; pfds_size = size; clients_size = refl };
  some_listener = some_listener;
  listeners = omega arith;
  paired = λ j nj l. absurd (omega arith);
}

listener-Begins :
    (x : ℕ) (both : Option ℕ × Option ℕ)
    → x ∷ [] ≡ present both.0 ++ present both.1
    → Begins both (first_table (listener x ∷ blanks 31 blank_pollfd) 1) 1
unfolding blanks
listener-Begins x both e = record {
  table = in_order (listener x ∷ blanks 31 blank_pollfd) 1 refl (omega arith) (omega arith);
  no_clients = refl;
  all = e;
  waiting = λ j l. one j l;
}
  where
    one :
        (j : ℕ)
        → j < 1
        → (get_or (listener x ∷ blanks 31 blank_pollfd) j blank_pollfd).events ≡ pollin
    one zero l = refl
    one (suc j) l = absurd (omega arith)

pub set_up-Begins :
    (a b : Option ℕ)
    → ((a ≡ none) × (b ≡ none) × (set_up a b ≡ exited))
      ⊎ ((t : Table) × (n : ℕ) × (set_up a b ≡ running (t, n)) × Begins (a, b) t n)
unfolding set_up add_listener blanks
set_up-Begins none none = inl (refl, refl, refl)
set_up-Begins none (some y) = inr (_, _, refl, listener-Begins y (none, some y) refl)
set_up-Begins (some x) none = inr (_, _, refl, listener-Begins x (some x, none) refl)
set_up-Begins (some x) (some y) = inr (
  _,
  _,
  refl,
  record {
    table = in_order _ 2 refl (omega arith) (omega arith);
    no_clients = refl;
    all = refl;
    waiting = λ j l. two j l;
  },
)
  where
    two :
        (j : ℕ)
        → j < 2
        → (get_or (listener x ∷ listener y ∷ blanks 30 blank_pollfd) j blank_pollfd).events ≡ pollin
    two zero l = refl
    two (suc zero) l = refl
    two (suc (suc j)) l = absurd (omega arith)

-- The server begins with a table in order that has a slot, waiting for connections, for each
-- listener that was asked for and could be created, IPv4 first, and no client. It exits exactly
-- where there is no such listener.
pub start-Begins :
    (app_flags : ℕ) (v4 v6 : Option ℕ)
    → (((opened app_flags v4 v6).0 ≡ none)
        × ((opened app_flags v4 v6).1 ≡ none)
        × (start app_flags v4 v6 ≡ exited))
      ⊎ ((t : Table) × (n : ℕ) × (start app_flags v4 v6 ≡ running (t, n))
          × Begins (opened app_flags v4 v6) t n)
unfolding start
start-Begins app_flags v4 v6 =
    set_up-Begins (wanted (use_v4 app_flags) v4) (wanted (use_v6 app_flags) v6)
