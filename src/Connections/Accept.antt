-- ===== src/Connections/Accept.antt =====
-- New connections: the arrays grow when they are full, and the new slot stands behind the others.
use simple_web_server.Base.{
  ℕ, suc, ◌<◌, ◌≡◌, refl, sym, ap, ◌∙◌, subst, List, [], ◌∷◌, arith, true, false, inl, inr, Option,
  none, some,
}
use simple_web_server.Client.{Client}
use simple_web_server.CString.{Bytes, codes}
use simple_web_server.Connections.{
  Table, client_at, Outcome, running, exited, add_to_lists, new_client, Accepted, socket,
  accept_interrupted, accept_error, set_address, address_text, accept_new_conn,
}
use simple_web_server.Connections.Entries.{IsSized}
use simple_web_server.Host.{Host, World, emit, accepted, closed}
use simple_web_server.Connections.Outcomes.{Outcome-cases, running-injective, exited-running}
use simple_web_server.Connections.Room.{add_to_lists-HasRoom}
use simple_web_server.Connections.Fresh.{
  Grew, with_socket, slot_client, with_socket-Grew, Grew-refl, Grew-trans,
}

-- The connections stand in the slots from `i` on, in order, each with its descriptor and the text of
-- its address.
abbrev pub InSlots : Table → ℕ → List (ℕ × Bytes) → Type 0
InSlots u i [] = Unit {0}
InSlots u i ((fd, addr) ∷ rest) =
    (((client_at u i).fd ≡ fd) × ((client_at u i).client_addr ≡ addr)) × InSlots u (suc i) rest

-- How many connections the loop takes: those whose socket was made non-blocking, up to an error.
abbrev pub taken_count : List Accepted → ℕ
taken_count [] = 0
taken_count (accept_error ∷ rest) = 0
taken_count (accept_interrupted ∷ rest) = taken_count rest
taken_count (socket newfd false a ∷ rest) = taken_count rest
taken_count (socket newfd true a ∷ rest) = suc (taken_count rest)

-- Their descriptors and the texts of their addresses, in order.
abbrev taken_conns : List Accepted → List (ℕ × Bytes)
taken_conns [] = []
taken_conns (accept_error ∷ rest) = []
taken_conns (accept_interrupted ∷ rest) = taken_conns rest
taken_conns (socket newfd false a ∷ rest) = taken_conns rest
taken_conns (socket newfd true none ∷ rest) = (newfd, codes "Unknown IP") ∷ taken_conns rest
taken_conns (socket newfd true (some addr) ∷ rest) = (newfd, addr) ∷ taken_conns rest

stays :
    (t : Table) (w : World) {u : Table} {v : World}
    → IsSized t
    → 0 < t.fd_size
    → ◌≡◌ {A = Outcome (Table × World)} (running (t, w)) (running (u, v))
    → Grew t u 0 × (v.open_files ≡ w.open_files)
stays t w s p e =
    let q = running-injective e in
    (
      subst (λ (x : Table). Grew t x 0) (ap (λ (r : Table × World). r.0) q) (Grew-refl t s p),
      sym (ap (λ (r : Table × World). r.1.open_files) q),
    )

-- The loop behind the addition to the lists.
after : Host → Option Bytes → List Accepted → World → Outcome (Table × ℕ) → Outcome (Table × World)
unfolding set_address
after h a rest w o = elim o [
  | exited ↦ exited
  | running (t', idx) ↦ accept_new_conn h rest (set_address t' idx a) w
]

-- The loop adds this many fresh slots.
accept_new_conn-grows :
    (h : Host) (answers : List Accepted) (t : Table) (w : World) {u : Table} {v : World}
    → IsSized t
    → 0 < t.fd_size
    → accept_new_conn h answers t w ≡ running (u, v)
    → Grew t u (taken_count answers) × (v.open_files ≡ w.open_files)
unfolding accept_new_conn after
accept_new_conn-grows h [] t w s p e = stays t w s p e
accept_new_conn-grows h (accept_error ∷ rest) t w s p e = stays t w s p e
accept_new_conn-grows h (accept_interrupted ∷ rest) t w s p e =
    accept_new_conn-grows h rest t w s p e
accept_new_conn-grows h (socket newfd false a ∷ rest) t w s p e =
    accept_new_conn-grows h rest t (emit (closed newfd) (emit (accepted newfd) w)) s p e
accept_new_conn-grows h (socket newfd true a ∷ rest) t w {u} {v} s p e =
    elim (Outcome-cases (add_to_lists h newfd t)) [
      | inl stop ↦ absurd (
          exited-running
            (subst (λ x. after h a rest (emit (accepted newfd) w) x ≡ running (u, v)) stop e))
      | inr (r, go) ↦
          let (g, room, at) = add_to_lists-HasRoom h newfd t s p go in
          let one = with_socket-Grew newfd a t g room p in
          let (more, same) =
            accept_new_conn-grows h rest (with_socket newfd a g) (emit (accepted newfd) w) one.sized
              one.positive
              (subst (λ x. after h a rest (emit (accepted newfd) w) x ≡ running (u, v))
                (go ∙ ap running at) e) in
          (Grew-trans (taken_count rest) one more, same)
    ]

accept_new_conn-InSlots :
    (h : Host) (answers : List Accepted) (t : Table) (w : World) {u : Table} {v : World} (i : ℕ)
    → IsSized t
    → 0 < t.fd_size
    → accept_new_conn h answers t w ≡ running (u, v)
    → i ≡ t.fd_count
    → InSlots u i (taken_conns answers)
unfolding accept_new_conn after
accept_new_conn-InSlots h [] t w i s p e at = tt
accept_new_conn-InSlots h (accept_error ∷ rest) t w i s p e at = tt
accept_new_conn-InSlots h (accept_interrupted ∷ rest) t w i s p e at =
    accept_new_conn-InSlots h rest t w i s p e at
accept_new_conn-InSlots h (socket newfd false a ∷ rest) t w i s p e at =
    accept_new_conn-InSlots h rest t (emit (closed newfd) (emit (accepted newfd) w)) i s p e at
accept_new_conn-InSlots h (socket newfd true a ∷ rest) t w {u} {v} i s p e at =
    elim (Outcome-cases (add_to_lists h newfd t)) [
      | inl stop ↦ absurd (
          exited-running
            (subst (λ x. after h a rest (emit (accepted newfd) w) x ≡ running (u, v)) stop e))
      | inr (r, go) ↦
          let (g, room, grown) = add_to_lists-HasRoom h newfd t s p go in
          let one = with_socket-Grew newfd a t g room p in
          let next =
            subst (λ x. after h a rest (emit (accepted newfd) w) x ≡ running (u, v))
              (go ∙ ap running grown) e in
          let w' = emit (accepted newfd) w in
          let (more, _) =
            accept_new_conn-grows h rest (with_socket newfd a g) w' one.sized one.positive next in
          let rest_in =
            accept_new_conn-InSlots h rest (with_socket newfd a g) w' (suc i) one.sized one.positive
              next (omega (arith, one.count)) in
          let here : client_at u i ≡ record (new_client (client_at g g.fd_count) newfd) {
            client_addr = address_text a;
          } =
            more.kept_client i (omega (arith, one.count))
            ∙ ap (client_at (with_socket newfd a g)) (at ∙ sym room.same_count)
            ∙ slot_client newfd a t g room in
          placed a (ap (λ (c : Client). c.fd) here) (ap (λ (c : Client). c.client_addr) here)
            rest_in
    ]
  where
    placed :
        (a : Option Bytes)
        → (client_at u i).fd ≡ newfd
        → (client_at u i).client_addr ≡ address_text a
        → InSlots u (suc i) (taken_conns rest)
        → InSlots u i (taken_conns (socket newfd true a ∷ rest))
    placed none same_fd address rest_in = ((same_fd, address), rest_in)
    placed (some addr) same_fd address rest_in = ((same_fd, address), rest_in)

-- Unless the process runs out of memory, accept_new_conn adds exactly the connections that were
-- accepted and made non-blocking, up to the first error: they stand behind the others in the order
-- in which they were accepted, each with its descriptor and the text of its address. The slots that
-- were live keep their contents, and the new ones are fresh, with both arrays at the same descriptor.
-- The arrays keep their size in step with `fd_size`, and no stream is opened or closed.
pub accept_new_conn-Grew :
    (h : Host) (answers : List Accepted) (t : Table) (w : World) {u : Table} {v : World}
    → IsSized t
    → 0 < t.fd_size
    → accept_new_conn h answers t w ≡ running (u, v)
    → Grew t u (taken_count answers)
      × InSlots u t.fd_count (taken_conns answers)
      × (v.open_files ≡ w.open_files)
accept_new_conn-Grew h answers t w s p e =
    let (grew, same) = accept_new_conn-grows h answers t w s p e in
    (grew, accept_new_conn-InSlots h answers t w t.fd_count s p e refl, same)
