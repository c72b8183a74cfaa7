-- ===== src/Server/Reachable.antt =====
-- The states that the poll loop of main.c goes through, as a relation, and what holds in all of them.
use simple_web_server.Base.{
  some-injective, ℕ, suc, ◌+◌, ◌*◌, ◌≤◌, ◌≡◌, refl, sym, ap, subst, ◌∙◌, Option, some, [], length,
  arith,
}
use simple_web_server.Connections.{Table, running}
use simple_web_server.Connections.Balance.{total, holds, IsBalanced}
use simple_web_server.Host.{Host, World}
use simple_web_server.Read.Answers.{IsReliable}
use simple_web_server.Server.{Round, Polled, ready, pass}
use simple_web_server.Server.Closing.{none_live}
use simple_web_server.Server.Descriptors.{visit-AfterVisit}
use simple_web_server.Server.Invariant.{IsTable, SameListeners}
use simple_web_server.Server.Keeps.{AfterPass, pass-keeps}
use simple_web_server.Server.Lives.{AllInLife}
use simple_web_server.Server.Lives.Passes.{pass-AllInLife}
use simple_web_server.Server.Rounds.{Ended}
use simple_web_server.Server.Start.{Begins}

-- The table and the world behind some passes, each on its own answers, from the first ones on.
pub data Reaches (h : Host) (most n : ℕ) (t : Table) (w : World) : Table → World → Type 0 where
  at_first : Reaches h most n t w t w
  behind :
      (answer : Polled) {u v : Table} {x y : World}
      → ((r : Round) → answer ≡ ready r → (fd : ℕ) → length (r.accepts fd) ≤ most)
      → Reaches h most n t w u x
      → pass h answer n (suc (u.fd_count + n * most)) u x ≡ some (running (v, y))
      → Reaches h most n t w v y

-- The arrays are in order, the listeners have their slots, every connection is in its life, and
-- every descriptor is accounted for.
pub record IsSound (n : ℕ) (first t : Table) (w : World) : Type 0 where
  pub table : IsTable n t
  pub listeners : SameListeners n first t
  pub lives : AllInLife n t w
  pub balanced : IsBalanced n t w

first-IsSound :
    (both : Option ℕ × Option ℕ) (n : ℕ) (t : Table) (w : World)
    → Begins both t n
    → w.effects ≡ []
    → IsSound n t t w
first-IsSound both n t w b e = record {
  table = b.table;
  listeners = λ j l. refl;
  lives = λ j nj l. absurd (omega (arith, b.no_clients));
  balanced = λ d.
      rw e (omega (arith, ap (total (holds d n t)) b.no_clients, none_live d n n t (omega arith)));
}

-- In every state that the server reaches from its start, whatever the kernel answers, on a reliable
-- host: both arrays have their size and pair each connection with its slot, the listeners have kept
-- their slots, every connection waits for its request, waits to be sent a whole response or has a
-- request that is too long, and every descriptor was accepted as often as it was closed and stands
-- in live slots.
pub reaches-IsSound :
    (h : Host) (most n : ℕ) (both : Option ℕ × Option ℕ) (t : Table) (w : World) {u : Table}
    {v : World}
    → IsReliable h
    → Begins both t n
    → w.effects ≡ []
    → Reaches h most n t w u v
    → IsSound n t u v
reaches-IsSound h most n both t w reliable b e at_first = first-IsSound both n t w b e
reaches-IsSound h most n both t w reliable b e (behind answer {u} {v} {x} {y} few before run) =
    let s = reaches-IsSound h most n both t w reliable b e before in
    let (o, ran, ended, lives) = pass-AllInLife h answer most n u x reliable few s.table s.lives in
    let same = some-injective (sym ran ∙ run) in
    let (table, listeners) = subst (Ended n u) same ended in
    record {
      table = table;
      listeners = λ j l. listeners j l ∙ s.listeners j l;
      lives = subst (AfterPass (AllInLife n)) same lives;
      balanced =
          pass-keeps h n (IsBalanced n) (λ r i a c. visit-AfterVisit h r n i a c) answer most
            (suc (u.fd_count + n * most)) u x (running (v, y)) (λ rs. s.balanced) few s.table
            s.balanced run;
    }
