-- ===== src/Server/Keeps.antt =====
-- What every step of the poll loop of main.c keeps, a pass keeps.
use simple_web_server.Base.{
  some-injective, none-some, ℕ, zero, suc, ◌<◌, ◌≤◌, ◌≡◌, refl, subst, inl, inr, Bool-cases, some,
  List, ltb, if◌then◌else◌, arith, length,
}
use simple_web_server.Connections.{Table, Outcome, running, exited}
use simple_web_server.Host.{Host, World}
use simple_web_server.Server.{
  Round, Visit, visit, visit_all, Polled, ready, poll_interrupted, poll_error, poll, pass,
}
use simple_web_server.Server.Invariant.{IsTable, Steps}
use simple_web_server.Server.Rounds.{Visit-cases, polled-IsTable}
use simple_web_server.Server.Slots.{visit-Steps}

-- `P` holds behind a step, or a pass, that does not end the process.
abbrev pub AfterVisit : (Table → World → Type 0) → Visit → Type 0
AfterVisit P exited = Unit {0}
AfterVisit P (running (j, u, v)) = P u v

abbrev pub AfterPass : (Table → World → Type 0) → Outcome (Table × World) → Type 0
AfterPass P exited = Unit {0}
AfterPass P (running (u, v)) = P u v

-- Every step on a table in order keeps `P`.
abbrev EachStep : Host → ℕ → (Table → World → Type 0) → Type 0
EachStep h n P =
    (r : Round) (i : ℕ) (t : Table) (w : World)
    → IsTable n t
    → i < t.fd_count
    → P t w
    → AfterVisit P (visit h r n i t w)

module _ (h : Host) (n : ℕ) (P : Table → World → Type 0) (step : EachStep h n P) where
  visit_all-keeps :
      (r : Round) (most : ℕ)
      → ((fd : ℕ) → length (r.accepts fd) ≤ most)
      → (fuel i : ℕ) (t : Table) (w : World) (o : Outcome (Table × World)) → IsTable n t
      → P t w
      → visit_all h r n fuel i t w ≡ some o
      → AfterPass P o
  unfolding visit_all
  visit_all-keeps r most few zero i t w o s b e = absurd (none-some e)
  visit_all-keeps r most few (suc fuel) i t w o s b e = elim (Bool-cases (ltb i t.fd_count)) [
    | inl more ↦
        let live : i < t.fd_count = ground arith in
        let order = visit-Steps h r most few n i t w s live in
        let after = step r i t w s live b in
        elim (Visit-cases (visit h r n i t w)) [
          | inl x ↦ subst (AfterPass P) (some-injective (rw (more, visit_all, x) at e)) tt
          | inr (j, u, v, x) ↦
              let a = subst (Steps n i t (if ltb i n then most else 0)) x order in
              visit_all-keeps r most few fuel j u v o a.table (subst (AfterVisit P) x after)
                (rw (more, visit_all, x) at e)
        ]
    | inr done ↦ subst (AfterPass P) (some-injective (rw (done, visit_all) at e)) b
  ]

  -- `P` does not read the masks that `poll` writes.
  pub pass-keeps :
      (answer : Polled) (most fuel : ℕ) (t : Table) (w : World) (o : Outcome (Table × World))
      → ((rs : List ℕ) → P (record t { pfds = poll rs t.pfds }) w)
      → ((r : Round) → answer ≡ ready r → (fd : ℕ) → length (r.accepts fd) ≤ most)
      → IsTable n t
      → P t w
      → pass h answer n fuel t w ≡ some o
      → AfterPass P o
  unfolding pass
  pass-keeps poll_interrupted most fuel t w o masks few s b e =
      subst (AfterPass P) (some-injective e) b
  pass-keeps poll_error most fuel t w o masks few s b e = subst (AfterPass P) (some-injective e) tt
  pass-keeps (ready r) most fuel t w o masks few s b e =
      visit_all-keeps r most (few r refl) fuel 0 (record t { pfds = poll r.revents t.pfds }) w o
        (polled-IsTable n r.revents t s) (masks r.revents) e
