-- ===== src/Write/Delivery.antt =====
-- The bytes of the output buffer reach the socket whole and in order.
use simple_web_server.Base.{
  ℕ, length-take, drop_all, length-drop, take-drop, ◌+◌, ◌-◌, ◌<◌, ◌≤◌, ◌≡◌, refl, sym, ap, subst,
  ◌∙◌, ◌⊎◌, inl, inr, true, false, Bool-cases, some, List, [], ◌∷◌, ◌++◌, append_assoc, append-nil,
  ltb, ◌==◌, if◌then◌else◌, ◌||◌, arith, length, drop,
}
use simple_web_server.Client.{Client, closing}
use simple_web_server.CString.{Bytes}
use simple_web_server.Host.{World, Effect, sent, shut_down, emit}
use simple_web_server.Connections.{Outcome, running, exited}
use simple_web_server.Connections.Outcomes.{Outcome-cases, running-exited}
use simple_web_server.Resolve.{or_empty}
use simple_web_server.Write.{
  Send, takes, send_error, chunk_of, taken, send_loop, is_null, then_close, do_write,
}

-- Some bytes, in the pieces that `send` took, each of them not empty.
pub data Pieces (fd : ℕ) : Bytes → List Effect → Type 0 where
  no_more : Pieces fd [] []
  piece :
      (s rest : Bytes) {es : List Effect}
      → 0 < length s
      → Pieces fd rest es
      → Pieces fd (s ++ rest) (sent fd s ∷ es)

-- What is left to send.
abbrev pub left : Client → Bytes
left c = drop c.output_sent (or_empty c.out_buf)

-- How many bytes the socket takes before a call fails, or takes none.
pub capacity : List Send → ℕ
capacity [] = 0
capacity (send_error ∷ rest) = 0
capacity (takes n ∷ rest) = if n == 0 then 0 else n + capacity rest

-- The rest of the buffer is sent.
abbrev Delivered : Client → World → Outcome (Client × World) → Type 0
Delivered c w r =
    (es : List Effect) × Pieces c.fd (left c) es
    × (r
        ≡ running
            (record c { output_sent = c.output_length }, record w { effects = w.effects ++ es }))

-- What the loop does: all of the rest is sent, or the process ends.
abbrev Outcomes : List Send → Client → World → Outcome (Client × World) → Type 0
Outcomes answers c w r =
    ((capacity answers < c.output_length - c.output_sent) × (r ≡ exited))
    ⊎ ((c.output_length - c.output_sent ≤ capacity answers) × Delivered c w r)

module _ (c : Client) (w : World) (n : length (or_empty c.out_buf) ≡ c.output_length) where
  nothing_left : c.output_sent ≡ c.output_length → Delivered c w (running (c, w))
  nothing_left e =
      let no_bytes : left c ≡ [] = drop_all c.output_sent (or_empty c.out_buf) (omega (arith, n)) in
      (
        [],
        rw no_bytes no_more,
        (λ i.
            running (
              record c { output_sent = e i },
              record w { effects = sym (append-nil w.effects) i },
            )),
      )

  abbrev stepped : ℕ → Client
  stepped k = record c { output_sent = c.output_sent + k }

  abbrev stepped_world : ℕ → World
  stepped_world k = emit (sent c.fd (chunk_of c k)) w

  one_piece :
      (k : ℕ) (r : Outcome (Client × World))
      → 0 < k
      → k ≤ c.output_length - c.output_sent
      → Delivered (stepped k) (stepped_world k) r
      → Delivered c w r
  one_piece k r p l (es, pieces, e) = (
    sent c.fd (chunk_of c k) ∷ es,
    subst (λ s. Pieces c.fd s (sent c.fd (chunk_of c k) ∷ es))
        (take-drop k c.output_sent (or_empty c.out_buf))
        (piece (chunk_of c k) (left (stepped k)) full pieces),
    e ∙ (λ i. running (
      record c { output_sent = c.output_length },
      record w { effects = append_assoc w.effects (sent c.fd (chunk_of c k) ∷ []) es i },
    )),
  )
    where
      full : 0 < length (chunk_of c k)
      full =
          omega (arith, length-take k (left c), length-drop c.output_sent (or_empty c.out_buf), n)

send_loop-Outcomes :
    (answers : List Send) (c : Client) (w : World)
    → length (or_empty c.out_buf) ≡ c.output_length
    → c.output_sent ≤ c.output_length
    → Outcomes answers c w (send_loop answers c w)
unfolding send_loop capacity
send_loop-Outcomes [] c w n l = elim (Bool-cases (ltb c.output_sent c.output_length)) [
  | inl e ↦ rw e (inl (ground arith, refl))
  | inr e ↦ rw e (inr (ground arith, nothing_left c w n (ground arith)))
]
send_loop-Outcomes (send_error ∷ rest) c w n l =
    elim (Bool-cases (ltb c.output_sent c.output_length)) [
      | inl e ↦ rw e (inl (ground arith, refl))
      | inr e ↦ rw e (inr (ground arith, nothing_left c w n (ground arith)))
    ]
send_loop-Outcomes (takes m ∷ rest) c w n l =
    elim (Bool-cases (ltb c.output_sent c.output_length)) [
      | inl e ↦
          let some_left : c.output_sent < c.output_length = ground arith in
          elim (Bool-cases (m == 0)) [
            | inl z ↦
                let zero_taken : (taken c m == 0) ≡ true = ground arith in
                rw (e, zero_taken, z) (inl (omega arith, refl))
            | inr p ↦
                let positive : 0 < m = ground arith in
                let some_taken : (taken c m == 0) ≡ false = ground arith in
                let k : ℕ = taken c m in
                rw (e, some_taken, p)
                  (elim (send_loop-Outcomes rest (stepped c w n k) (stepped_world c w n k) n
                    (omega arith)) [
                      | inl (short, stop) ↦ inl (omega arith, stop)
                      | inr (enough, more) ↦
                          inr (omega arith, one_piece c w n k _ (omega arith) (omega arith) more)
                    ])
          ]
      | inr e ↦ rw e (inr (ground arith, nothing_left c w n (ground arith)))
    ]

-- From an output buffer that holds `b`, of which nothing is sent yet, do_write does one of two
-- things. If the socket takes as many bytes, the whole of `b` is sent in order, in pieces that are
-- not empty, then the socket is shut down for writing, and the connection is to be closed; no stream
-- is opened or closed. If a call fails first, or takes no byte, the process exits.
pub do_write-Delivers :
    (answers : List Send) (c : Client) (w : World) (b : Bytes)
    → c.out_buf ≡ some b
    → 0 < length b
    → c.output_length ≡ length b
    → c.output_sent ≡ 0
    → ((capacity answers < length b) × (do_write answers c w ≡ exited))
      ⊎ ((length b ≤ capacity answers)
          × ((es : List Effect) × Pieces c.fd b es
              × (do_write answers c w
                  ≡ running (
                    record c { output_sent = length b; state = closing },
                    record w { effects = w.effects ++ (es ++ shut_down c.fd ∷ []) },
                  ))))
do_write-Delivers answers c w b hb p n z =
    let nonempty : (c.output_length == 0) ≡ false = ground arith in
    let run : do_write answers c w ≡ then_close (send_loop answers c w) =
      (unfold do_write in rw (hb, nonempty)) in
    let all : left c ≡ b = ap (λ o. drop c.output_sent (or_empty o)) hb ∙ ap (λ k. drop k b) z in
    let len : length (or_empty c.out_buf) ≡ c.output_length =
      ap (λ o. length (or_empty o)) hb ∙ sym n in
    elim (send_loop-Outcomes answers c w len (omega arith)) [
      | inl (short, stop) ↦ inl (omega arith, run ∙ ap then_close stop)
      | inr (enough, (es, pieces, e)) ↦ inr (
        omega arith,
        (
          es,
          subst (λ s. Pieces c.fd s es) all pieces,
          run ∙ ap then_close e ∙ (λ i. running (
            record c { output_sent = n i; state = closing },
            record w { effects = append_assoc w.effects es (shut_down c.fd ∷ []) i },
          )),
        ),
      )
    ]

send_loop-exits :
    (answers : List Send) (c : Client) (w : World)
    → send_loop answers c w ≡ exited
    → capacity answers < c.output_length - c.output_sent
unfolding send_loop capacity
send_loop-exits [] c w e = elim (Bool-cases (ltb c.output_sent c.output_length)) [
  | inl more ↦ ground arith
  | inr done ↦ absurd (running-exited (rw done at e))
]
send_loop-exits (send_error ∷ rest) c w e = elim (Bool-cases (ltb c.output_sent c.output_length)) [
  | inl more ↦ ground arith
  | inr done ↦ absurd (running-exited (rw done at e))
]
send_loop-exits (takes m ∷ rest) c w e =
    let k : ℕ = taken c m in
    elim (Bool-cases (ltb c.output_sent c.output_length)) [
      | inl more ↦
          let some_left : c.output_sent < c.output_length = ground arith in
          elim (Bool-cases (m == 0)) [
            | inl z ↦ rw z (omega arith)
            | inr p ↦
                let positive : 0 < m = ground arith in
                let some_taken : (k == 0) ≡ false = ground arith in
                let later =
                  send_loop-exits rest (record c { output_sent = c.output_sent + k })
                    (emit (sent c.fd (chunk_of c k)) w) (rw (more, some_taken) at e) in
                rw p (omega arith)
          ]
      | inr done ↦ absurd (running-exited (rw done at e))
    ]

-- The process exits only if the socket takes fewer bytes than are left.
pub do_write-exits :
    (answers : List Send) (c : Client) (w : World)
    → do_write answers c w ≡ exited
    → capacity answers < c.output_length - c.output_sent
unfolding do_write
do_write-exits answers c w e = elim (Bool-cases (is_null c.out_buf || c.output_length == 0)) [
  | inl nothing ↦ absurd (running-exited (rw nothing at e))
  | inr b ↦ elim (Outcome-cases (send_loop answers c w)) [
    | inl stop ↦ send_loop-exits answers c w stop
    | inr (r, go) ↦ absurd (running-exited (rw (b, go) at e))
  ]
]
