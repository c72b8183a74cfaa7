-- ===== src/Read/Streams.antt =====
-- What do_read leaves of the streams, and of the descriptor of a connection.
use simple_web_server.Base.{
  ℕ, ◌+◌, ◌<◌, ◌≤◌, ◌≡◌, refl, ap, ◌∙◌, inl, inr, false, Bool-cases, some, List, [], ◌∷◌, ◌==◌,
  if◌then◌else◌, arith,
}
use simple_web_server.Client.{Client, success}
use simple_web_server.Connections.{Pollfd, close_file}
use simple_web_server.Host.{Host, World, fclose, is_open}
use simple_web_server.Host.Streams.{fclose-first, fclose-bad}
use simple_web_server.Logging.{log_append}
use simple_web_server.Read.{
  Recv, answer_resolved, answer_parsed, respond, do_read, do_logging, outcome_note,
}
use simple_web_server.Read.Keeps.{do_read-SameSlot}
use simple_web_server.Read.Respond.{read_as}
use simple_web_server.Request.{Parsed, logs_enabled}
use simple_web_server.Resolve.{
  Resolved, ResolvedPath, zero_resolved, resolve_path, close_resolve_path_ptr,
}
use simple_web_server.Resolve.Ends.{Serves}
use simple_web_server.Response.Okay.Keeps.{build_okay_response-Keeps}

module _ (h : Host) where
  -- The connection and its slot keep their descriptor.
  pub do_read-fd :
      (answers : List Recv) (c : Client) (p : Pollfd) (w : World)
      → ((do_read h answers c p w).client.fd ≡ c.fd) × ((do_read h answers c p w).pollfd.fd ≡ p.fd)
  do_read-fd answers c p w = let (k, same) = do_read-SameSlot h answers c p w in (k.same_fd, same)

-- No stream of the world has the number of the next one, or a later one.
abbrev AllBelow : ℕ → List ℕ → Type 0
AllBelow n [] = Unit {0}
AllBelow n (m ∷ ms) = (m < n) × AllBelow n ms

not_open : (n k : ℕ) (ms : List ℕ) → AllBelow n ms → n ≤ k → is_open k ms ≡ false
unfolding is_open
not_open n k [] a l = refl
not_open n k (m ∷ ms) a l =
    let rest = not_open n k ms a.1 l in
    let other : (k == m) ≡ false = ground (arith, a.0) in rw (other, rest) refl

module _ (h : Host) (c : Client) (p : Pollfd) (w : World)
    (numbered : AllBelow w.next_handle w.open_files) where
  abbrev parsed : Parsed
  parsed = read_as h c c.in_buf

  abbrev resolved : Resolved
  resolved = resolve_path h (record c { resp_val = parsed.resp }) parsed.request zero_resolved w

  module _ (read : parsed.status ≡ success)
      (s : Serves h (record c { resp_val = parsed.resp }) w resolved) where
    served_client : (answer_parsed h c w parsed parsed.status).client.file_ptr ≡ some s.file
    unfolding answer_parsed answer_resolved
    served_client =
        ap (λ x. (answer_parsed h c w parsed x).client.file_ptr) read
        ∙ ap (λ x. (answer_resolved h parsed.request resolved x).client.file_ptr) s.done
        ∙ (build_okay_response-Keeps h resolved.client resolved.rp parsed.request).same_file
        ∙ ap (λ (x : Client). x.file_ptr) s.staged

    answer_is :
        ((answer_parsed h c w parsed parsed.status).rp.file_ptr ≡ some s.file)
        × ((answer_parsed h c w parsed parsed.status).world ≡ resolved.world)
    unfolding answer_parsed answer_resolved
    answer_is = (
      ap (λ x. (answer_parsed h c w parsed x).rp.file_ptr) read
          ∙ ap (λ x. (answer_resolved h parsed.request resolved x).rp.file_ptr) s.done
          ∙ s.rp_file,
      ap (λ x. (answer_parsed h c w parsed x).world) read
          ∙ ap (λ x. (answer_resolved h parsed.request resolved x).world) s.done,
    )

    closed_world :
        (rp : ResolvedPath) (lw : World)
        → rp.file_ptr ≡ some s.file
        → lw.open_files ≡ s.file.handle ∷ w.open_files
        → (close_resolve_path_ptr rp lw).1 ≡ record lw { open_files = w.open_files }
    closed_world rp lw e o =
        let run : (close_resolve_path_ptr rp lw).1 ≡ fclose s.file lw =
          (unfold close_resolve_path_ptr in rw (e, close_resolve_path_ptr)) in
        run ∙ fclose-first s.file lw w.open_files o

    logged_world : World
    logged_world =
        if logs_enabled h.app_flags
        then do_logging
            (log_append parsed.entry
              (outcome_note (answer_parsed h c w parsed parsed.status).client))
            (answer_parsed h c w parsed parsed.status).world
        else (answer_parsed h c w parsed parsed.status).world

    logged-streams :
        (logged_world.open_files ≡ (answer_parsed h c w parsed parsed.status).world.open_files)
        × (logged_world.bad_closes ≡ (answer_parsed h c w parsed parsed.status).world.bad_closes)
    unfolding logged_world do_logging
    logged-streams = elim (Bool-cases (logs_enabled h.app_flags)) [
      | inl e ↦ rw e (refl, refl)
      | inr e ↦ rw e (refl, refl)
    ]

    world_is : (respond h c p w).world ≡ record logged_world { open_files = w.open_files }
    unfolding respond logged_world
    world_is =
        let (rp_file, world) = answer_is in
        let (opened, _) = logged-streams in
        closed_world (answer_parsed h c w parsed parsed.status).rp logged_world rp_file
          (opened ∙ ap (λ (x : World). x.open_files) world ∙ s.opened)

    -- Where a file was opened for the response, do_read closes its stream, and no other one. But
    -- the connection still refers to it, so that closing the connection calls `fclose` on a stream
    -- that is closed already.
    pub respond_double_close :
        ((respond h c p w).world.open_files ≡ w.open_files)
        × ((respond h c p w).world.bad_closes ≡ w.bad_closes)
        × ((close_file (respond h c p w).client (respond h c p w).world).bad_closes
            ≡ w.bad_closes + 1)
    unfolding respond
    respond_double_close =
        let (_, world) = answer_is in
        let (_, bad) = logged-streams in
        let balance =
          ap (λ (x : World). x.bad_closes) world_is
          ∙ bad
          ∙ ap (λ (x : World). x.bad_closes) world
          ∙ s.balanced in
        let streams = ap (λ (x : World). x.open_files) world_is in
        let again : close_file (respond h c p w).client (respond h c p w).world
            ≡ fclose s.file (respond h c p w).world =
          (unfold close_file in rw (served_client, close_file)) in
        (
          streams,
          balance,
          ap (λ (x : World). x.bad_closes) again
              ∙ ap (λ (x : World). x.bad_closes)
                  (fclose-bad s.file (respond h c p w).world (
                    ap (is_open s.file.handle) streams
                    ∙ not_open w.next_handle s.file.handle w.open_files numbered s.fresh))
              ∙ ap (λ n. n + 1) balance,
        )
