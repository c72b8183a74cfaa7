-- ===== src/Server/Run.antt =====
-- The main loop of main.c as a whole, from the first table to the closing of all clients.
use simple_web_server.Base.{
  ℕ, suc, ◌+◌, ◌-◌, ◌*◌, ◌≤◌, ◌≡◌, refl, ◌∙◌, some, List, [], ◌∷◌, arith, length,
}
use simple_web_server.Connections.{Table, Outcome, running, exited}
use simple_web_server.Host.{Host, World}
use simple_web_server.Server.{Round, Polled, ready, pass, serve}
use simple_web_server.Server.Invariant.{IsTable, SameListeners}
use simple_web_server.Server.Rounds.{Ended, pass-Ended, close_all-Ended}

-- No listener is given more than `most` answers in a pass.
abbrev pub AllFew : ℕ → List Polled → Type 0
AllFew most [] = Unit {0}
AllFew most (answer ∷ rest) =
    ((r : Round) → answer ≡ ready r → (fd : ℕ) → length (r.accepts fd) ≤ most) × AllFew most rest

-- The process has exited; or the loop has ended, and the listeners are left.
abbrev pub Served : ℕ → Table → Outcome (Table × World) → Type 0
Served n t exited = Unit {0}
Served n t (running (u, v)) = (u.fd_count ≡ n) × IsTable n u × SameListeners n t u

Served-from :
    (n : ℕ) (t u : Table) (o : Outcome (Table × World))
    → SameListeners n t u
    → Served n u o
    → Served n t o
Served-from n t u exited l s = tt
Served-from n t u (running (x, w)) l (count, table, m) = (count, table, λ j k. m j k ∙ l j k)

-- Whatever `poll` and the other calls answer until the signal arrives, the server does not hang: each
-- pass ends, and so does the loop that closes the clients. Unless the process exits, the listeners are
-- left at the end, in their slots, and no client.
pub serve-Served :
    (h : Host) (most n : ℕ) (answers : List Polled) (t : Table) (w : World)
    → AllFew most answers
    → IsTable n t
    → (o : Outcome (Table × World)) × (serve h most n answers t w ≡ some o) × Served n t o
unfolding serve
serve-Served h most n [] t w few s =
    let (u, v, run, count, table, same) =
      close_all-Ended n (t.fd_count - n) t w s (omega (arith, s.listeners)) in
    (running (u, v), rw (run, serve) refl, (count, table, same))
serve-Served h most n (answer ∷ rest) t w few s =
    let (o, run, ended) = pass-Ended h answer most n t w few.0 s in
    go o run ended (λ u v. serve-Served h most n rest u v few.1)
  where
    go :
        (o : Outcome (Table × World))
        → pass h answer n (suc (t.fd_count + n * most)) t w ≡ some o
        → Ended n t o
        → ((u : Table) (v : World)
            → IsTable n u
            → (o' : Outcome (Table × World)) × (serve h most n rest u v ≡ some o') × Served n u o')
        → (o' : Outcome (Table × World)) × (serve h most n (answer ∷ rest) t w ≡ some o')
          × Served n t o'
    go exited run ended next = (exited, rw (run, serve) refl, tt)
    go (running (u, v)) run (table, same) next =
        let (o', more, served) = next u v table in
        (o', rw (run, serve) more, Served-from n t u o' same served)
