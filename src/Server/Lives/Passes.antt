-- ===== src/Server/Lives/Passes.antt =====
-- The lives of all connections, over a pass of the poll loop of main.c.
use simple_web_server.Base.{
  ℕ, zero, suc, ◌+◌, ◌*◌, ◌≤◌, ◌≡◌, refl, ◌∙◌, List, [], ◌∷◌, length, get_or, some,
}
use simple_web_server.Client.{Client}
use simple_web_server.Connections.{Pollfd, Table, Outcome, pollfd_at, client_at, blank_pollfd}
use simple_web_server.Host.{Host, World}
use simple_web_server.Read.Answers.{IsReliable}
use simple_web_server.Server.{Round, Polled, ready, poll, pass}
use simple_web_server.Server.Invariant.{IsTable}
use simple_web_server.Server.Keeps.{AfterPass, pass-keeps}
use simple_web_server.Server.Life.{InLife, awaits_request, awaits_response, too_long}
use simple_web_server.Server.Lives.{AllInLife, visit-LivesOn}
use simple_web_server.Server.Rounds.{Ended, pass-Ended}

-- The masks of `poll` do not touch what a connection waits for.
poll-events :
    (rs : List ℕ) (ps : List Pollfd) (j : ℕ)
    → (get_or (poll rs ps) j blank_pollfd).events ≡ (get_or ps j blank_pollfd).events
unfolding poll
poll-events [] ps j = refl
poll-events (r ∷ rs) [] j = refl
poll-events (r ∷ rs) (p ∷ ps) zero = refl
poll-events (r ∷ rs) (p ∷ ps) (suc j) = poll-events rs ps j

same_events : (p q : Pollfd) (c : Client) → q.events ≡ p.events → InLife p c → InLife q c
same_events p q c e (awaits_request st ev b u) = awaits_request st (e ∙ ev) b u
same_events p q c e (awaits_response st ev s) = awaits_response st (e ∙ ev) s
same_events p q c e (too_long st r) = too_long st r

-- Where the host is reliable, a pass of the main loop ends, whether memory is granted or not, and
-- unless the process has exited, every connection is then where one of three things holds, if it
-- was so before: it is READING, waits for POLLIN and has its buffer within its bounds; it is
-- SENDING_HEADER, waits for POLLOUT, and its output buffer holds one whole well-formed response of
-- which nothing was sent; or its request is too long, and it is PROCESSING with the code 414.
-- So no connection is left CLOSING or SENDING_BODY.
pub pass-AllInLife :
    (h : Host) (answer : Polled) (most n : ℕ) (t : Table) (w : World)
    → IsReliable h
    → ((r : Round) → answer ≡ ready r → (fd : ℕ) → length (r.accepts fd) ≤ most)
    → IsTable n t
    → AllInLife n t w
    → (o : Outcome (Table × World)) × (pass h answer n (suc (t.fd_count + n * most)) t w ≡ some o)
      × Ended n t o
      × AfterPass (AllInLife n) o
pass-AllInLife h answer most n t w reliable few s all =
    let (o, run, ended) = pass-Ended h answer most n t w few s in
    (
      o,
      run,
      ended,
      pass-keeps h n (AllInLife n)
          (λ r i u v order live lives. visit-LivesOn h reliable r n i u v order live lives) answer
          most (suc (t.fd_count + n * most)) t w o polled few s all run,
    )
  where
    polled : (rs : List ℕ) → AllInLife n (record t { pfds = poll rs t.pfds }) w
    polled rs j nj l =
        same_events (pollfd_at t j) (pollfd_at (record t { pfds = poll rs t.pfds }) j)
          (client_at t j) (poll-events rs t.pfds j) (all j nj l)
