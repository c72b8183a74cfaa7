-- ===== src/Tests/Exchanges.antt =====
-- The theorems on exchanges, on the lives of connections, on the bag of them and on listings.
use simple_web_server.Base.{
  zero, suc, ◌+◌, ◌*◌, ◌≡◌, refl, true, false, ℕ, ◌<◌, none, some, [], ◌∷◌, List, arith, length,
}
use simple_web_server.Client.{Client, success}
use simple_web_server.CString.{codes}
use simple_web_server.Connections.{
  Table, Outcome, running, new_pollfd, add_to_lists, fill_slot, close_conn, pollfd_at, client_at,
}
use simple_web_server.Connections.Fresh.{IsFresh}
use simple_web_server.Connections.Bag.{put, bag_of, close_conn-put, add_to_lists-put}
use simple_web_server.Connections.Entries.{entry_at}
use simple_web_server.Host.{Host, Dirent, World}
use simple_web_server.Read.Loop.{gathered, stop}
use simple_web_server.Request.{Request, http_get, http_1_0}
use simple_web_server.Resolve.{ResolvedPath, is_dir, zero_resolved}
use simple_web_server.Response.Common.{okay_header}
use simple_web_server.Response.Listing.{build_response_dir}
use simple_web_server.Response.Message.{served}
use simple_web_server.Response.Okay.Listed.{page_of, visible, build_response_dir-page}
use simple_web_server.Server.{ready, pass, visit_all, visit, poll}
use simple_web_server.Server.Exchange.{Concerns, exchange_in_pieces}
use simple_web_server.Read.Pieces.{read_on, after, joined}
use simple_web_server.Tests.Reads.{pieces, last_piece, at_start, pieces-EachWaits}
use simple_web_server.Server.Keeps.{AfterPass}
use simple_web_server.Server.Life.{awaits_request}
use simple_web_server.Server.Lives.{AllInLife}
use simple_web_server.Server.Lives.Passes.{pass-AllInLife}
use simple_web_server.Server.Rounds.{Ended}
use simple_web_server.Server.Reachable.{IsSound, at_first, behind, reaches-IsSound}
use simple_web_server.Server.Start.{Begins}
use simple_web_server.Client.{has_flag}
use simple_web_server.Host.{accepted}
use simple_web_server.Connections.{Pollfd, blank_pollfd, blank_client, accept_new_conn, set_address}
use simple_web_server.Tests.Fixtures.{
  host, host-IsReliable, world, table, table-IsSized, table-IsTable, client, client-IsBuffered,
  client_of, slot_of,
}
use simple_web_server.Tests.Main.{busy, busy-few}
use simple_web_server.Write.{Send, takes}

abbrev sends : List Send
sends = takes 40 ∷ takes 1000 ∷ []

exchange_in_pieces_example :
    Concerns host
      (joined pieces last_piece)
      sends
      at_start
      (read_on host last_piece (after host pieces at_start))
exchange_in_pieces_example =
    exchange_in_pieces host pieces last_piece sends at_start host-IsReliable refl client-IsBuffered
      refl pieces-EachWaits (unfold stop in refl) (unfold gathered in omega arith)

table-AllInLife : AllInLife 1 table world
table-AllInLife zero nj l = absurd (omega arith)
table-AllInLife (suc zero) nj l =
    awaits_request refl refl
      (record { counted = refl; fits = omega arith; allowed = omega arith; bounded = omega arith })
      refl
table-AllInLife (suc (suc zero)) nj l =
    awaits_request refl refl
      (record { counted = refl; fits = omega arith; allowed = omega arith; bounded = omega arith })
      refl
table-AllInLife (suc (suc (suc j))) nj l = absurd (omega arith)

pass-AllInLife_example :
    (o : Outcome (Table × World)) × (pass host (ready busy) 1 (suc (3 + 1 * 1)) table world
      ≡ some o)
    × Ended 1 table o
    × AfterPass (AllInLife 1) o
pass-AllInLife_example =
    pass-AllInLife host (ready busy) 1 1 table world host-IsReliable busy-few table-IsTable
      table-AllInLife

close_conn-put_example : bag_of table ≡ put (entry_at table 1) (bag_of (close_conn 1 table world).0)
close_conn-put_example = close_conn-put 1 table world table-IsSized (omega arith) (omega arith)

abbrev added : Table
added = record table {
  pfds = pollfd_at table 0 ∷ pollfd_at table 1 ∷ pollfd_at table 2 ∷ new_pollfd 7 ∷ [];
  clients = client_at table 0 ∷ client_at table 1 ∷ client_at table 2 ∷ client_of 7 ∷ [];
  fd_count = 4;
}

added_run : add_to_lists host 7 table ≡ running (added, 3)
unfolding add_to_lists fill_slot
added_run = refl

add_to_lists-put_example :
    (p : Pollfd) × (c : Client) × IsFresh p c
    × (c.fd ≡ 7)
    × (bag_of added ≡ put (p, c) (bag_of table))
add_to_lists-put_example = add_to_lists-put host 7 table table-IsSized (omega arith) added_run

abbrev dirents : List Dirent
dirents =
    record { d_name = codes "."; is_dir = true }
    ∷ record { d_name = codes "b.txt"; is_dir = false }
    ∷ record { d_name = codes "a"; is_dir = true }
    ∷ []

abbrev listing_host : Host
listing_host = record host { opendir = λ p. some dirents }

abbrev asked : Request
asked = record {
  method = http_get;
  version = http_1_0;
  time_received = codes "Thu";
  path = codes "/docs";
}

abbrev directory : ResolvedPath
directory = record zero_resolved { path_type = is_dir }

build_response_dir-page_example : build_response_dir listing_host client directory asked ≡ (
  success,
  served client
      (okay_header
        (codes "Thu")
        (codes "Fri")
        (codes "text/html")
        (length (page_of (codes "docs") (visible dirents))))
      (page_of (codes "docs") (visible dirents))
      (length (page_of (codes "docs") (visible dirents))),
)
build_response_dir-page_example =
    build_response_dir-page listing_host client directory asked dirents (codes "Fri") refl refl refl
      refl refl refl

abbrev first : Table
first = record {
  pfds = slot_of 3 ∷ blank_pollfd ∷ [];
  clients = blank_client ∷ blank_client ∷ [];
  fd_count = 1;
  fd_size = 2;
}

abbrev second : Table
second = record {
  pfds = record (slot_of 3) { revents = 1 } ∷ slot_of 7 ∷ [];
  clients = blank_client ∷ record (client_of 7) { client_addr = codes "Unknown IP" } ∷ [];
  fd_count = 2;
  fd_size = 2;
}

abbrev second_world : World
second_world = record world { effects = accepted 7 ∷ [] }

passed :
    pass host (ready busy) 1 (suc (1 + 1 * 1)) first world ≡ some (running (second, second_world))
unfolding pass visit_all visit accept_new_conn add_to_lists fill_slot set_address has_flag poll
passed = refl

first-Begins : Begins (some 3, none) first 1
first-Begins = record {
  table = record {
    sized = record { fits = omega arith; pfds_size = refl; clients_size = refl };
    some_listener = omega arith;
    listeners = omega arith;
    paired = λ j nj l. absurd (omega arith);
  };
  no_clients = refl;
  all = refl;
  waiting = λ j l. listens j l;
}
  where
    listens : (j : ℕ) → j < 1 → (pollfd_at first j).events ≡ 1
    listens zero l = refl
    listens (suc j) l = absurd (omega arith)

reaches-IsSound_example : IsSound 1 first second second_world
reaches-IsSound_example =
    reaches-IsSound host 1 1 (some 3, none) first world host-IsReliable first-Begins refl
      (behind (ready busy) busy-few at_first passed)
