-- ===== src/Write/Keeps.antt =====
-- do_write keeps the descriptor of its connection.
use simple_web_server.Base.{ℕ, ◌+◌, ◌≡◌, refl, inl, inr, Bool-cases, List, [], ◌∷◌, ltb, ◌==◌, ◌||◌}
use simple_web_server.Client.{Client}
use simple_web_server.Host.{World, sent, emit}
use simple_web_server.Connections.{Outcome, running, exited}
use simple_web_server.Write.{
  Send, takes, send_error, chunk_of, taken, send_loop, is_null, then_close, do_write,
}

-- The connection keeps its descriptor.
abbrev pub KeepsFd : Client → Outcome (Client × World) → Type 0
KeepsFd c exited = Unit {0}
KeepsFd c (running (d, v)) = d.fd ≡ c.fd

send_loop-KeepsFd :
    (answers : List Send) (c : Client) (w : World) → KeepsFd c (send_loop answers c w)
unfolding send_loop
send_loop-KeepsFd [] c w = elim (Bool-cases (ltb c.output_sent c.output_length)) [
  | inl e ↦ rw e tt
  | inr e ↦ rw e refl
]
send_loop-KeepsFd (send_error ∷ rest) c w = elim (Bool-cases (ltb c.output_sent c.output_length)) [
  | inl e ↦ rw e tt
  | inr e ↦ rw e refl
]
send_loop-KeepsFd (takes m ∷ rest) c w =
    let k : ℕ = taken c m in
    let more =
      send_loop-KeepsFd rest (record c { output_sent = c.output_sent + k })
        (emit (sent c.fd (chunk_of c k)) w) in
    elim (Bool-cases (ltb c.output_sent c.output_length)) [
      | inl e ↦ elim (Bool-cases (k == 0)) [ inl z ↦ rw (e, z) tt | inr z ↦ rw (e, z) more ]
      | inr e ↦ rw e refl
    ]

pub do_write-KeepsFd :
    (answers : List Send) (c : Client) (w : World) → KeepsFd c (do_write answers c w)
unfolding do_write
do_write-KeepsFd answers c w = elim (Bool-cases (is_null c.out_buf || c.output_length == 0)) [
  | inl e ↦ rw e refl
  | inr e ↦ rw e (closed_fd (send_loop answers c w) (send_loop-KeepsFd answers c w))
]
  where
    closed_fd : (o : Outcome (Client × World)) → KeepsFd c o → KeepsFd c (then_close o)
    closed_fd exited k = tt
    closed_fd (running (d, v)) k = k
