-- ===== src/Server/Closing.antt =====
-- Every connection that was accepted is closed: the main loop of main.c up to its end.
use simple_web_server.Base.{
  some-injective, none-some, ℕ, zero, suc, ◌+◌, ◌-◌, ◌*◌, ◌<◌, ◌≤◌, ◌≡◌, refl, ap, subst, inl, inr,
  false, Bool-cases, List, [], ◌∷◌, ltb, leb, arith, some,
}
use simple_web_server.Connections.{Table, Outcome, running, exited, close_conn}
use simple_web_server.Connections.Balance.{total, accepts, closes, tally, holds, IsBalanced}
use simple_web_server.Connections.Balance.Kept.{close_conn-IsBalanced}
use simple_web_server.Host.{Host, World}
use simple_web_server.Server.{Polled, close_all, serve}
use simple_web_server.Server.Descriptors.{visit-AfterVisit}
use simple_web_server.Server.Keeps.{AfterPass, pass-keeps}
use simple_web_server.Server.Exits.{serve-exits}
use simple_web_server.Server.Reasons.{LoopReason}
use simple_web_server.Server.Invariant.{IsTable, closed-Advanced}
use simple_web_server.Server.Rounds.{Ended, pass-Ended, close_all-Ended}
use simple_web_server.Server.Run.{AllFew, Served, serve-Served}

close_all-IsBalanced :
    (n fuel : ℕ) (t : Table) (w : World) {u : Table} {v : World}
    → IsTable n t
    → IsBalanced n t w
    → close_all n fuel t w ≡ some (u, v)
    → IsBalanced n u v
unfolding close_all
close_all-IsBalanced n zero t w s b e = absurd (none-some e)
close_all-IsBalanced n (suc fuel) t w s b e = elim (Bool-cases (ltb n t.fd_count)) [
  | inl more ↦
      let live : n < t.fd_count = ground arith in
      let a = closed-Advanced n n t w s (omega arith) live in
      close_all-IsBalanced n fuel (close_conn n t w).0 (close_conn n t w).1 a.table
        (close_conn-IsBalanced n n t w s.sized s.some_listener (omega arith) live b)
        (rw (more, close_all) at e)
  | inr done ↦
      subst (λ (x : Table × World). IsBalanced n x.0 x.1)
        (some-injective (rw (done, close_all) at e)) b
]

pub none_live : (d n m : ℕ) (t : Table) → m ≤ n → total (holds d n t) m ≡ 0
none_live d n zero t l = refl
none_live d n (suc m) t l =
    let listener : leb n m ≡ false = ground arith in
    let none_here : holds d n t m ≡ 0 = rw listener refl in
    omega (arith, none_live d n m t (omega arith), none_here)

-- Every descriptor was closed as often as it was accepted.
abbrev pub AllClosed : Outcome (Table × World) → Type 0
AllClosed exited = Unit {0}
AllClosed (running (u, v)) = (d : ℕ) → tally (accepts d) v.effects ≡ tally (closes d) v.effects

serve-AllClosed :
    (h : Host) (most n : ℕ) (answers : List Polled) (t : Table) (w : World)
    (o : Outcome (Table × World))
    → AllFew most answers
    → IsTable n t
    → IsBalanced n t w
    → serve h most n answers t w ≡ some o
    → AllClosed o
unfolding serve
serve-AllClosed h most n [] t w o few s b e =
    let (u, v, run, count, table, same) =
      close_all-Ended n (t.fd_count - n) t w s (omega (arith, s.listeners)) in
    let end = close_all-IsBalanced n (suc (t.fd_count - n)) t w s b run in
    subst AllClosed (some-injective (rw (run, serve) at e))
      (λ d. omega (arith, end d, ap (total (holds d n u)) count, none_live d n n u (omega arith)))
serve-AllClosed h most n (answer ∷ rest) t w o few s b e =
    let (p, run, ended) = pass-Ended h answer most n t w few.0 s in
    let after =
      pass-keeps h n (IsBalanced n) (λ r i u v. visit-AfterVisit h r n i u v) answer most
        (suc (t.fd_count + n * most)) t w p (λ rs. b) few.0 s b run in
    go p ended after (rw (run, serve) at e) (λ u v. serve-AllClosed h most n rest u v o few.1)
  where
    go :
        (p : Outcome (Table × World))
        → Ended n t p
        → AfterPass (IsBalanced n) p
        → (elim p [ exited ↦ some exited | running (u, v) ↦ serve h most n rest u v ]) ≡ some o
        → ((u : Table) (v : World)
            → IsTable n u
            → IsBalanced n u v
            → serve h most n rest u v ≡ some o
            → AllClosed o)
        → AllClosed o
    go exited ended after q next = subst AllClosed (some-injective q) tt
    go (running (u, v)) (table, same) after q next = next u v table after q

-- Why the process exited, if it did.
abbrev pub HasReason : Host → ℕ → ℕ → List Polled → Table → World → Outcome (Table × World) → Type 0
HasReason h most n answers t w exited = LoopReason h most n answers t w
HasReason h most n answers t w (running r) = Unit {0}

-- The server leaks no connection: from a table in order and an account in balance, the main loop ends
-- whatever `poll` and the other calls answer up to the signal, and unless the process exits, each
-- descriptor that `accept` gave was then closed as often as it was accepted, whatever became of
-- its connection: never made non-blocking, answered, given up, reported as broken, or still open at
-- the signal. If the process exits, then for one of three reasons, at the pass that it had come to:
-- `poll` failed with another error than EINTR; or the pass came to a listener with POLLIN, whose
-- sockets filled the arrays, and memory for twice their size was refused; or it came to a client
-- that was to be sent a response and had POLLOUT and no error, and whose socket took fewer bytes than
-- were left to send.
pub serve-closes_all :
    (h : Host) (most n : ℕ) (answers : List Polled) (t : Table) (w : World)
    → AllFew most answers
    → IsTable n t
    → IsBalanced n t w
    → (o : Outcome (Table × World)) × (serve h most n answers t w ≡ some o)
      × Served n t o
      × AllClosed o
      × HasReason h most n answers t w o
serve-closes_all h most n answers t w few s b =
    let (o, run, served) = serve-Served h most n answers t w few s in
    (o, run, served, serve-AllClosed h most n answers t w o few s b run, why o run)
  where
    why :
        (o : Outcome (Table × World))
        → serve h most n answers t w ≡ some o
        → HasReason h most n answers t w o
    why exited run = serve-exits h most n answers t w run
    why (running r) run = tt
