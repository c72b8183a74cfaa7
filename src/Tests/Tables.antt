-- ===== src/Tests/Tables.antt =====
-- The theorems on the arrays and the poll loop at a listener and two connections.
use simple_web_server.Base.{
  ℕ, ◌*◌, ◌+◌, ◌≡◌, ◌≤◌, subst, ◌⊎◌, refl, suc, true, none, some, [], ◌∷◌, List, arith, length,
}
use simple_web_server.Client.{processing, has_flag}
use simple_web_server.Connections.{
  Table, Outcome, running, exited, Accepted, socket, accept_interrupted, accept_new_conn,
  blank_client, set_address, add_to_lists, fill_slot,
}
use simple_web_server.Connections.Fresh.{Grew}
use simple_web_server.Connections.Accept.{InSlots, accept_new_conn-Grew}
use simple_web_server.CString.{codes}
use simple_web_server.Host.{World, accepted}
use simple_web_server.Server.{Round, ready, visit, pass, close_all, start, serve, poll_interrupted}
use simple_web_server.Server.Invariant.{IsTable, SameListeners, Steps}
use simple_web_server.Server.Rounds.{Ended, pass-Ended, close_all-Ended}
use simple_web_server.Server.Run.{Served, serve-Served}
use simple_web_server.Server.Slots.{visit-Steps}
use simple_web_server.Server.Start.{Begins, opened, start-Begins}
use simple_web_server.Server.Waiting.{visit-processing}
use simple_web_server.Tests.Fixtures.{
  host, world, table, slot_of, client_of, table-IsSized, table-IsTable,
}

abbrev quiet : Round
quiet = record { revents = 1 ∷ 0 ∷ 16 ∷ []; accepts = λ fd. []; recvs = λ fd. []; sends = λ fd. [] }

abbrev answers : List Accepted
answers = accept_interrupted ∷ socket 7 true none ∷ []

abbrev behind : Table
behind = record {
  pfds = slot_of 3 ∷ slot_of 5 ∷ slot_of 6 ∷ slot_of 7 ∷ [];
  clients =
      blank_client
      ∷ client_of 5
      ∷ client_of 6
      ∷ record (client_of 7) { client_addr = codes "Unknown IP" }
      ∷ [];
  fd_count = 4;
  fd_size = 4;
}

abbrev accepting : World
accepting = record world { effects = accepted 7 ∷ [] }

added_one : accept_new_conn host answers table world ≡ running (behind, accepting)
unfolding accept_new_conn add_to_lists fill_slot set_address
added_one = refl

accept_new_conn-Grew_example :
    Grew table behind 1
    × (InSlots behind 3 ((7, codes "Unknown IP") ∷ []))
    × (accepting.open_files ≡ world.open_files)
accept_new_conn-Grew_example =
    accept_new_conn-Grew host answers table world table-IsSized (omega arith) added_one

pass-Ended_example :
    (o : Outcome (Table × World)) × (pass host (ready quiet) 1 (suc (3 + 1 * 0)) table world
      ≡ some o)
    × Ended 1 table o
pass-Ended_example =
    pass-Ended host (ready quiet) 0 1 table world (λ r e fd. few r e fd) table-IsTable
  where
    few : (r : Round) → ready quiet ≡ ready r → (fd : ℕ) → length (r.accepts fd) ≤ 0
    few r e fd = subst (λ (x : Round). length (x.accepts fd) ≤ 0) (same e) (omega arith)
      where
        same : {r : Round} → ready quiet ≡ ready r → quiet ≡ r
        same q = cc

visit-Steps_example : Steps 1 1 table 0 (visit host quiet 1 1 table world)
visit-Steps_example =
    visit-Steps host quiet 0 (λ fd. omega arith) 1 1 table world table-IsTable (omega arith)

close_all-Ended_example :
    (u : Table) × (v : World) × (close_all 1 3 table world ≡ some (u, v))
    × (u.fd_count ≡ 1)
    × IsTable 1 u
    × SameListeners 1 table u
close_all-Ended_example = close_all-Ended 1 2 table world table-IsTable refl

start-Begins_example :
    (((opened 0 (some 3) none).0 ≡ none)
      × ((opened 0 (some 3) none).1 ≡ none)
      × (start 0 (some 3) none ≡ exited))
    ⊎ ((t : Table) × (n : ℕ) × (start 0 (some 3) none ≡ running (t, n))
        × Begins (opened 0 (some 3) none) t n)
start-Begins_example = start-Begins 0 (some 3) none

abbrev stuck : Table
stuck = record table { clients = blank_client ∷ record (blank_client) { state = processing } ∷ [] }

visit-processing_example : visit host quiet 1 1 stuck world ≡ running (2, stuck, world)
visit-processing_example =
    visit-processing host quiet 1 1 stuck world (omega arith) refl (unfold has_flag in refl)

serve-Served_example :
    (o : Outcome (Table × World)) × (serve host 0 1
        (ready quiet ∷ poll_interrupted ∷ [])
        table
        world
      ≡ some o)
    × Served 1 table o
serve-Served_example =
    serve-Served host 0 1 (ready quiet ∷ poll_interrupted ∷ []) table world
      (quiet-few, (interrupted-few, tt)) table-IsTable
  where
    same : {r : Round} → ready quiet ≡ ready r → quiet ≡ r
    same q = cc

    quiet-few : (r : Round) → ready quiet ≡ ready r → (fd : ℕ) → length (r.accepts fd) ≤ 0
    quiet-few r e fd = subst (λ (x : Round). length (x.accepts fd) ≤ 0) (same e) (omega arith)

    interrupted-few :
        (r : Round) → poll_interrupted ≡ ready r → (fd : ℕ) → length (r.accepts fd) ≤ 0
    interrupted-few r e fd = absurd (clash e)
      where
        clash : {r : Round} → poll_interrupted ≡ ready r → ⊥
        clash q = cc
