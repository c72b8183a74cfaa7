-- ===== src/Read/Quiet.antt =====
-- What the outside sees of do_read is a note in the log: no descriptor is accepted or closed.
use simple_web_server.Base.{
  ℕ, ◌+◌, ◌≡◌, refl, ap, ◌∙◌, inl, inr, Bool-cases, Option-cases, List, arith, if◌then◌else◌, Bool,
  true, false,
}
use simple_web_server.Client.{Client, Status, success, failure}
use simple_web_server.Connections.{Pollfd}
use simple_web_server.Connections.Balance.{tally, tally-emit}
use simple_web_server.CString.{Bytes, c_string}
use simple_web_server.Host.{Host, World, Effect, logged}
use simple_web_server.Logging.{LogEntry, log_append}
use simple_web_server.Read.{
  Recv, answer_resolved, answer_parsed, respond, finish_read, find_end, do_read, recv_loop,
  do_logging, outcome_note,
}
use simple_web_server.Read.Respond.{read_as}
use simple_web_server.Request.{Request, Parsed, logs_enabled}
use simple_web_server.Resolve.{Resolved, zero_resolved, resolve_path}
use simple_web_server.Resolve.Effects.{resolve_path-effects, close_resolve_path_ptr-effects}

module _ (h : Host) where
  answer_resolved-effects :
      (req : Request) (r : Resolved) (s : Status) → (answer_resolved h req r s).world ≡ r.world
  unfolding answer_resolved
  answer_resolved-effects req r success = refl
  answer_resolved-effects req r failure = refl

  answer_parsed-effects :
      (c : Client) (w : World) (p : Parsed) (s : Status)
      → (answer_parsed h c w p s).world.effects ≡ w.effects
  unfolding answer_parsed
  answer_parsed-effects c w p success =
      let d = record c { resp_val = p.resp } in
      let r = resolve_path h d p.request zero_resolved w in
      ap (λ (v : World). v.effects) (answer_resolved-effects p.request r r.status)
      ∙ resolve_path-effects h d p.request zero_resolved w
  answer_parsed-effects c w p failure = refl

-- `f` counts no note in the log.
module _ (f : Effect → ℕ) (silent : (s : Bytes) → f (logged s) ≡ 0) (h : Host) where
  abbrev Same : World → World → Type 0
  Same v w = tally f v.effects ≡ tally f w.effects

  do_logging-Same : (le : LogEntry) (w : World) → Same (do_logging le w) w
  unfolding do_logging
  do_logging-Same le w =
      omega (arith, tally-emit f w.effects (logged (c_string le.buf)), silent (c_string le.buf))

  if_logged-Same :
      (b : Bool) (le : LogEntry) (w : World) → Same (if b then do_logging le w else w) w
  if_logged-Same true le w = do_logging-Same le w
  if_logged-Same false le w = refl

  respond-Same : (c : Client) (p : Pollfd) (w : World) → Same (respond h c p w).world w
  unfolding respond
  respond-Same c p w =
      let parsed = read_as h c c.in_buf in
      let a = answer_parsed h c w parsed parsed.status in
      let le = log_append parsed.entry (outcome_note a.client) in
      let v = if logs_enabled h.app_flags then do_logging le a.world else a.world in
      ap (tally f) (close_resolve_path_ptr-effects a.rp v)
      ∙ if_logged-Same (logs_enabled h.app_flags) le a.world
      ∙ ap (tally f) (answer_parsed-effects h c w parsed parsed.status)

  finish_read-Same : (c : Client) (p : Pollfd) (w : World) → Same (finish_read h c p w).world w
  unfolding finish_read
  finish_read-Same c p w = elim (Option-cases (find_end c)) [
    | inl e ↦ rw (e, finish_read) refl
    | inr (i, e) ↦ rw (e, finish_read) (respond-Same (record c { header_len = i + 4 }) p w)
  ]

  pub do_read-Same :
      (answers : List Recv) (c : Client) (p : Pollfd) (w : World)
      → Same (do_read h answers c p w).world w
  unfolding do_read
  do_read-Same answers c p w = elim (Bool-cases (recv_loop h answers c).1) [
    | inl e ↦ rw e (finish_read-Same (recv_loop h answers c).0 p w)
    | inr e ↦ rw e refl
  ]
