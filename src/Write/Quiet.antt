-- ===== src/Write/Quiet.antt =====
-- What the outside sees of do_write: bytes that are sent, and the shutdown of the socket.
use simple_web_server.Base.{
  ℕ, ◌+◌, ◌≡◌, refl, inl, inr, Bool-cases, List, [], ◌∷◌, arith, ◌||◌, ◌==◌, ltb,
}
use simple_web_server.Client.{Client}
use simple_web_server.Connections.{Outcome, running, exited}
use simple_web_server.Connections.Balance.{tally, tally-emit}
use simple_web_server.CString.{Bytes}
use simple_web_server.Host.{World, Effect, sent, shut_down, emit}
use simple_web_server.Write.{
  Send, takes, send_error, chunk_of, taken, send_loop, is_null, then_close, do_write,
}

-- `f` counts neither.
module _ (f : Effect → ℕ) (no_sent : (fd : ℕ) (s : Bytes) → f (sent fd s) ≡ 0)
    (no_shut : (fd : ℕ) → f (shut_down fd) ≡ 0) where
  abbrev pub SameAfter : World → Outcome (Client × World) → Type 0
  SameAfter w exited = Unit {0}
  SameAfter w (running (c, v)) = tally f v.effects ≡ tally f w.effects

  send_loop-SameAfter :
      (answers : List Send) (c : Client) (w : World) → SameAfter w (send_loop answers c w)
  unfolding send_loop
  send_loop-SameAfter [] c w = elim (Bool-cases (ltb c.output_sent c.output_length)) [
    | inl e ↦ rw e tt
    | inr e ↦ rw e refl
  ]
  send_loop-SameAfter (send_error ∷ rest) c w =
      elim (Bool-cases (ltb c.output_sent c.output_length)) [ inl e ↦ rw e tt | inr e ↦ rw e refl ]
  send_loop-SameAfter (takes m ∷ rest) c w =
      let k : ℕ = taken c m in
      let one : World = emit (sent c.fd (chunk_of c k)) w in
      let more = send_loop-SameAfter rest (record c { output_sent = c.output_sent + k }) one in
      elim (Bool-cases (ltb c.output_sent c.output_length)) [
        | inl e ↦ elim (Bool-cases (k == 0)) [
          | inl z ↦ rw (e, z) tt
          | inr z ↦ rw (e, z) (from_one (send_loop rest _ one) more)
        ]
        | inr e ↦ rw e refl
      ]
    where
      from_one :
          (o : Outcome (Client × World))
          → SameAfter (emit (sent c.fd (chunk_of c (taken c m))) w) o
          → SameAfter w o
      from_one exited s = tt
      from_one (running (d, v)) s = omega (
        arith,
        s,
        tally-emit f w.effects (sent c.fd (chunk_of c (taken c m))),
        no_sent c.fd (chunk_of c (taken c m)),
      )

  pub do_write-SameAfter :
      (answers : List Send) (c : Client) (w : World) → SameAfter w (do_write answers c w)
  unfolding do_write
  do_write-SameAfter answers c w = elim (Bool-cases (is_null c.out_buf || c.output_length == 0)) [
    | inl e ↦ rw e refl
    | inr e ↦ rw e (shut (send_loop answers c w) (send_loop-SameAfter answers c w))
  ]
    where
      shut : (o : Outcome (Client × World)) → SameAfter w o → SameAfter w (then_close o)
      shut exited s = tt
      shut (running (d, v)) s =
          omega (arith, s, tally-emit f v.effects (shut_down d.fd), no_shut d.fd)
