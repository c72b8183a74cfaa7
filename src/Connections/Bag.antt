-- ===== src/Connections/Bag.antt =====
-- What the lists of connections promise: a bag of connections, of which the order is forgotten.
use mathlib.Core.List.{Perm}
use mathlib.Core.List.Perm
use mathlib.Core.Quot
use mathlib.Core.Quot.{Quot, Quot-set}
use simple_web_server.Base.{
  ℕ, suc, ◌+◌, ◌<◌, ◌≡◌, refl, ap, ◌∙◌, List, [], ◌∷◌, ◌++◌, arith, length, set, take, take-suc,
  take-set_ge, get_or-set_self, length-set,
}
use simple_web_server.Client.{Client}
use simple_web_server.Connections.{
  Pollfd, Table, running, client_at, blank_pollfd, blank_client, new_pollfd, new_client, fill_slot,
  add_to_lists, close_conn,
}
use simple_web_server.Connections.Entries.{
  IsSized, pair_up, pair_up-set, length-pair_up, entries, entry_at, entries-close_conn, snoc-perm,
}
use simple_web_server.Connections.Fresh.{IsFresh, new_client-IsFresh}
use simple_web_server.Connections.Room.{HasRoom, add_to_lists-HasRoom}
use simple_web_server.Host.{Host, World}

abbrev Entry : Type 0
Entry = Pollfd × Client

-- Connections without an order.
abbrev pub Bag : Type 0
Bag = Quot (Perm {A = Entry})

pub put : Entry → Bag → Bag
put e = Quot.lift Quot-set (λ es. Quot.mk (e ∷ es)) (λ es fs p. Quot.sound (Perm.cons e p))

-- The live connections.
pub bag_of : Table → Bag
bag_of t = Quot.mk (entries t)

-- close_conn on a live slot other than the first takes its connection, and no other, out of the
-- bag of the live ones.
pub close_conn-put :
    (i : ℕ) (t : Table) (w : World)
    → IsSized t
    → 0 < i
    → i < t.fd_count
    → bag_of t ≡ put (entry_at t i) (bag_of (close_conn i t w).0)
unfolding bag_of put
close_conn-put i t w s p l = Quot.sound (entries-close_conn i t w s p l)

module _ (newfd : ℕ) (t g : Table) (r : HasRoom t g) where
  abbrev last : ℕ
  last = g.fd_count

  abbrev new_entry : Entry
  new_entry = (new_pollfd newfd, new_client (client_at g last) newfd)

  abbrev pairs : List Entry
  pairs = pair_up g.pfds g.clients

  entries-fill_slot : entries (fill_slot newfd g).0 ≡ entries t ++ new_entry ∷ []
  unfolding fill_slot
  entries-fill_slot =
      ap (λ es. take (last + 1) es)
        (pair_up-set g.pfds g.clients last (new_pollfd newfd) new_entry.1)
      ∙ ap (λ k. take k (set pairs last new_entry)) one_more
      ∙ take-suc last (set pairs last new_entry) blank (omega (arith, written))
      ∙ (λ i.
          take-set_ge last last pairs new_entry (omega arith) i
          ++ get_or-set_self pairs last new_entry blank within i ∷ [])
      ∙ ap (λ es. es ++ new_entry ∷ []) r.same_entries
    where
      blank : Entry
      blank = (blank_pollfd, blank_client)

      one_more : last + 1 ≡ suc last
      one_more = omega arith

      within : last < length pairs
      within = omega (
        arith,
        r.room,
        r.sized.pfds_size,
        length-pair_up g.pfds g.clients (omega (arith, r.sized.pfds_size, r.sized.clients_size)),
      )

      written : last < length (set pairs last new_entry)
      written = omega (arith, within, length-set pairs last new_entry)

-- Unless the process exits, add_to_lists puts one connection into the bag of the live ones, whether
-- the arrays have grown or not, and no other is changed. It has the descriptor, in both arrays, is
-- READING and waits for POLLIN, with nothing read, nothing staged or sent, no stream and no code.
pub add_to_lists-put :
    (h : Host) (newfd : ℕ) (t : Table) {u : Table} {idx : ℕ}
    → IsSized t
    → 0 < t.fd_size
    → add_to_lists h newfd t ≡ running (u, idx)
    → (p : Pollfd) × (c : Client) × IsFresh p c
      × (c.fd ≡ newfd)
      × (bag_of u ≡ put (p, c) (bag_of t))
unfolding bag_of put
add_to_lists-put h newfd t {u} {idx} s p e =
    let (g, room, at) = add_to_lists-HasRoom h newfd t s p e in
    let added : u ≡ (fill_slot newfd g).0 = ap (λ (r : Table × ℕ). r.0) at in
    (
      new_pollfd newfd,
      new_client (client_at g g.fd_count) newfd,
      new_client-IsFresh newfd (client_at g g.fd_count) (client_at g g.fd_count).client_addr,
      refl,
      ap bag_of (added)
          ∙ ap Quot.mk (entries-fill_slot newfd t g room)
          ∙ Quot.sound (snoc-perm (entries t) (new_entry newfd t g room)),
    )
