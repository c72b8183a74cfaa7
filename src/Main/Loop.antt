-- ===== src/Main/Loop.antt =====
-- The last part of main.c, from the listeners on.
use simple_web_server.Base.{ℕ, ◌+◌, ◌≡◌, refl, ap, inl, inr, Option, none, some, List, arith}
use simple_web_server.Connections.{Table, Outcome, running, exited}
use simple_web_server.Connections.Balance.{total, accepts, closes, tally, tally-emit, holds}
use simple_web_server.Host.{Host, World, closed}
use simple_web_server.Main.{
  Exit, exit_failure, exit_success, close_listener, finish, fresh_world, run_listeners,
}
use simple_web_server.Server.{Polled, set_up}
use simple_web_server.Server.Closing.{AllClosed, HasReason, none_live, serve-closes_all}
use simple_web_server.Server.Reasons.{LoopReason}
use simple_web_server.Server.Run.{AllFew}
use simple_web_server.Server.Start.{set_up-Begins}

-- 1 where the listener has this descriptor.
abbrev times_listener : ℕ → Option ℕ → ℕ
times_listener d none = 0
times_listener d (some fd) = closes d (closed fd)

-- All that was accepted, and both listeners, were closed.
abbrev pub EveryClosed : Option ℕ → Option ℕ → World → Type 0
EveryClosed v4 v6 w =
    (d : ℕ)
    → tally (closes d) w.effects
      ≡ tally (accepts d) w.effects + (times_listener d v4 + times_listener d v6)

closed-closes :
    (d : ℕ) (v : Option ℕ) (w : World)
    → (tally (closes d) (close_listener v w).effects
        ≡ tally (closes d) w.effects + times_listener d v)
      × (tally (accepts d) (close_listener v w).effects ≡ tally (accepts d) w.effects)
closed-closes d none w = (omega arith, refl)
closed-closes d (some fd) w = (
  tally-emit (closes d) w.effects (closed fd),
  omega (arith, tally-emit (accepts d) w.effects (closed fd)),
)

-- Why the loop ended the process, from the table that the listeners begin with.
pub record LoopFailed (h : Host) (most : ℕ) (answers : List Polled) (v4 v6 : Option ℕ)
    : Type 0 where
  pub table : Table
  pub num_listeners : ℕ
  pub begun : set_up v4 v6 ≡ running (table, num_listeners)
  pub reason : LoopReason h most num_listeners answers table fresh_world

-- The last part: whatever `poll` answers, the process ends.
abbrev pub Finished : Host → ℕ → List Polled → Option ℕ → Option ℕ → Exit → Type 0
Finished h most answers v4 v6 exit_failure = LoopFailed h most answers v4 v6
Finished h most answers v4 v6 (exit_success w) = EveryClosed v4 v6 w

module _ (h : Host) (most : ℕ) (answers : List Polled) (few : AllFew most answers)
    (v4 v6 : Option ℕ) where
  finish-Finished :
      (t : Table) (n : ℕ) (o : Outcome (Table × World))
      → set_up v4 v6 ≡ running (t, n)
      → AllClosed o
      → HasReason h most n answers t fresh_world o
      → (e : Exit) × (finish v4 v6 (some o) ≡ some e) × Finished h most answers v4 v6 e
  unfolding finish
  finish-Finished t n exited begun a why =
      (exit_failure, refl, record { table = t; num_listeners = n; begun = begun; reason = why })
  finish-Finished t n (running (u, v)) begun a why = (
    exit_success (close_listener v6 (close_listener v4 v)),
    refl,
    λ d.
        let (c4, a4) = closed-closes d v4 v in
        let (c6, a6) = closed-closes d v6 (close_listener v4 v) in
        omega (arith, a d, c4, a4, c6, a6),
  )

  pub run_listeners-Finished :
      (v4 ≡ none → v6 ≡ none → ⊥)
      → (e : Exit) × (run_listeners h most answers v4 v6 ≡ some e) × Finished h most answers v4 v6 e
  unfolding run_listeners
  run_listeners-Finished some_listener = elim (set_up-Begins v4 v6) [
    | inl (no4, no6, e) ↦ absurd (some_listener no4 no6)
    | inr (t, n, e, begins) ↦
        let (o, run, _, all, why) =
          serve-closes_all h most n answers t fresh_world few begins.table (λ d.
            omega (
              arith,
              ap (total (holds d n t)) begins.no_clients,
              none_live d n n t (omega arith),
            )) in
        rw (e, run) (finish-Finished t n o e all why)
  ]
