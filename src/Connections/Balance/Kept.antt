-- ===== src/Connections/Balance/Kept.antt =====
-- accept_new_conn and close_conn keep the account of the descriptors.
use simple_web_server.Base.{
  eq-cases, ℕ, suc, ◌+◌, ◌-◌, ◌<◌, ◌≤◌, ◌≡◌, ◌≢◌, refl, sym, ap, ◌∙◌, inl, inr, List, [], ◌∷◌, ◌++◌,
  true, false, arith, set, get_or-set_self, get_or-set_ne, leb, ◌==◌, Option,
}
use simple_web_server.Client.{Client}
use simple_web_server.CString.{Bytes}
use simple_web_server.Connections.{
  Table, pollfd_at, client_at, blank_client, close_conn, close_file, Accepted, socket,
  accept_interrupted, accept_error, accept_new_conn, add_to_lists, Outcome, running, exited,
}
use simple_web_server.Connections.Fresh.{with_socket, with_socket-Grew, slot_client}
use simple_web_server.Connections.Balance.{
  total, total-same, total_change, accepts, closes, tally, tally-emit, holds, times_live,
  IsBalanced,
}
use simple_web_server.Connections.Entries.{IsSized}
use simple_web_server.Connections.Invariant.{close_conn_last, close_conn_moved}
use simple_web_server.Connections.Room.{HasRoom, add_to_lists-HasRoom}
use simple_web_server.Connections.Outcomes.{Outcome-cases}
use simple_web_server.Host.{Host, World, accepted, closed, emit, fclose}

-- The effects of a world, as they are told apart here.
pub holds-same :
    (d n j k : ℕ) (t u : Table)
    → leb n j ≡ leb n k
    → (client_at u j).fd ≡ (client_at t k).fd
    → holds d n u j ≡ holds d n t k
holds-same d n j k t u e f = rw (e, f) refl

module _ (n i : ℕ) (t : Table) (w : World) (s : IsSized t) (p : 0 < n) (client : n ≤ i)
    (live : i < t.fd_count) (d : ℕ) where
  abbrev last : ℕ
  last = t.fd_count - 1

  to_last : times_live d n t ≡ total (holds d n t) last + holds d n t last
  to_last = ap (total (holds d n t)) one_more
    where
      one_more : t.fd_count ≡ suc last
      one_more = omega arith

  abbrev moved : Table
  moved = record t {
    pfds = set t.pfds i (pollfd_at t last);
    clients = set t.clients i (client_at t last);
    fd_count = last;
  }

  both_clients : leb n i ≡ leb n last
  both_clients = ground arith

  moved_total : i ≢ last → times_live d n moved + holds d n t i ≡ times_live d n t
  moved_total ne = omega (
    arith,
    to_last,
    total_change (holds d n moved) (holds d n t) i last (omega arith) (λ j l other.
        holds-same d n j j t moved refl (
          ap (λ (c : Client). c.fd)
            (get_or-set_ne t.clients i j _ blank_client (λ q. other (sym q))))),
    holds-same d n i last t moved both_clients (
        ap (λ (c : Client). c.fd)
          (get_or-set_self t.clients i _ blank_client (omega (arith, s.fits, s.clients_size)))),
  )

  -- Closing a connection takes its descriptor out of the live ones.
  close_conn_total : times_live d n (close_conn i t w).0 + holds d n t i ≡ times_live d n t
  close_conn_total = elim (eq-cases i last) [
    | inl e ↦
        rw (close_conn_last i t w s (omega arith) live e)
          (omega (arith, to_last, ap (holds d n t) e))
    | inr ne ↦ rw (close_conn_moved i t w s (omega arith) live ne) (moved_total ne)
  ]

  close_file-effects : (c : Client) (v : World) → (close_file c v).effects ≡ v.effects
  unfolding close_file fclose
  close_file-effects c v = ground arith

  close_conn_effects : (close_conn i t w).1.effects ≡ w.effects ++ closed (client_at t i).fd ∷ []
  close_conn_effects =
      let nonzero : (i == 0) ≡ false = ground arith in
      unfold close_conn in
      rw nonzero (close_file-effects (client_at t i) (emit (closed (client_at t i).fd) w))

-- A connection that is closed leaves the account balanced.
pub close_conn-IsBalanced :
    (n i : ℕ) (t : Table) (w : World)
    → IsSized t
    → 0 < n
    → n ≤ i
    → i < t.fd_count
    → IsBalanced n t w
    → IsBalanced n (close_conn i t w).0 (close_conn i t w).1
close_conn-IsBalanced n i t w s p client live b d =
    let is_client : leb n i ≡ true = ground arith in
    let held : holds d n t i ≡ closes d (closed (client_at t i).fd) = rw is_client refl in
    let effects = close_conn_effects n i t w s p client live d in
    omega (
      arith,
      b d,
      close_conn_total n i t w s p client live d,
      held,
      ap (tally (accepts d)) effects,
      ap (tally (closes d)) effects,
      tally-emit (accepts d) w.effects (closed (client_at t i).fd),
      tally-emit (closes d) w.effects (closed (client_at t i).fd),
    )

module _ (n newfd : ℕ) (a : Option Bytes) (t g : Table) (r : HasRoom t g) (p : 0 < t.fd_size)
    (few : n ≤ t.fd_count) (d : ℕ) where
  abbrev added : Table
  added = with_socket newfd a g

  added_total : times_live d n added ≡ times_live d n t + accepts d (accepted newfd)
  added_total =
      let grew = with_socket-Grew newfd a t g r p in
      omega (
        arith,
        ap (total (holds d n added)) (grew.count ∙ one_more),
        total-same (holds d n added) (holds d n t) t.fd_count (λ j l.
            holds-same d n j j t added refl (ap (λ (c : Client). c.fd) (grew.kept_client j l))),
        new_slot,
      )
    where
      one_more : t.fd_count + 1 ≡ suc t.fd_count
      one_more = omega arith

      is_client : leb n t.fd_count ≡ true
      is_client = ground arith

      new_fd : (client_at added t.fd_count).fd ≡ newfd
      new_fd =
          ap (λ k. (client_at added k).fd) (sym r.same_count)
          ∙ ap (λ (c : Client). c.fd) (slot_client newfd a t g r)

      new_slot : holds d n added t.fd_count ≡ accepts d (accepted newfd)
      new_slot = rw (is_client, new_fd) refl

-- A socket that is put into the lists.
added-IsBalanced :
    (n newfd : ℕ) (a : Option Bytes) (t g : Table) (w : World)
    → HasRoom t g
    → 0 < t.fd_size
    → n ≤ t.fd_count
    → IsBalanced n t w
    → IsBalanced n (with_socket newfd a g) (emit (accepted newfd) w)
added-IsBalanced n newfd a t g w r p few b d = omega (
  arith,
  b d,
  added_total n newfd a t g r p few d,
  tally-emit (accepts d) w.effects (accepted newfd),
  tally-emit (closes d) w.effects (accepted newfd),
)

-- A socket that is closed at once.
dropped-IsBalanced :
    (n newfd : ℕ) (t : Table) (w : World)
    → IsBalanced n t w
    → IsBalanced n t (emit (closed newfd) (emit (accepted newfd) w))
dropped-IsBalanced n newfd t w b d =
    let w' = emit (accepted newfd) w in
    omega (
      arith,
      b d,
      tally-emit (accepts d) w.effects (accepted newfd),
      tally-emit (closes d) w.effects (accepted newfd),
      tally-emit (accepts d) w'.effects (closed newfd),
      tally-emit (closes d) w'.effects (closed newfd),
    )

-- What holds of the table and the world if the process goes on.
abbrev pub Balances : ℕ → Outcome (Table × World) → Type 0
Balances n exited = Unit {0}
Balances n (running (u, v)) = IsBalanced n u v

-- The loop of accept_new_conn leaves the account balanced.
pub accept_new_conn-Balances :
    (h : Host) (answers : List Accepted) (n : ℕ) (t : Table) (w : World)
    → IsSized t
    → 0 < t.fd_size
    → n ≤ t.fd_count
    → IsBalanced n t w
    → Balances n (accept_new_conn h answers t w)
unfolding accept_new_conn
accept_new_conn-Balances h [] n t w s p few b = b
accept_new_conn-Balances h (accept_error ∷ rest) n t w s p few b = b
accept_new_conn-Balances h (accept_interrupted ∷ rest) n t w s p few b =
    accept_new_conn-Balances h rest n t w s p few b
accept_new_conn-Balances h (socket newfd false a ∷ rest) n t w s p few b =
    accept_new_conn-Balances h rest n t _ s p few (dropped-IsBalanced n newfd t w b)
accept_new_conn-Balances h (socket newfd true a ∷ rest) n t w s p few b =
    elim (Outcome-cases (add_to_lists h newfd t)) [
      | inl stop ↦ rw (stop, accept_new_conn) tt
      | inr (r, go) ↦
          let (g, room, at) = add_to_lists-HasRoom h newfd t s p go in
          let one = with_socket-Grew newfd a t g room p in
          rw (go, accept_new_conn, at)
            (accept_new_conn-Balances h rest n (with_socket newfd a g) (emit (accepted newfd) w)
              one.sized one.positive (omega (arith, one.count))
              (added-IsBalanced n newfd a t g w room p few b))
    ]
