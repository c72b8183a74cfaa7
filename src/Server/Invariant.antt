-- ===== src/Server/Invariant.antt =====
-- What one step of the poll loop keeps, and how far it gets.
use simple_web_server.Base.{
  eq-cases, ℕ, ◌+◌, ◌<◌, ◌≤◌, ◌≡◌, refl, sym, ap, ◌∙◌, ◌⊎◌, inl, inr, ◌&&◌, Bool-cases, arith, set,
  get_or, get_or-set_ne, get_or-set_self, length-set,
}
use simple_web_server.Client.{Client, has_flag}
use simple_web_server.Connections.{
  Pollfd, Table, Outcome, running, exited, pollfd_at, client_at, blank_pollfd, blank_client,
  close_conn, pollout,
}
use simple_web_server.Connections.Entries.{IsSized}
use simple_web_server.Connections.Invariant.{
  AllSlots, close_conn-IsSized, close_conn_count, close_conn-AllSlots, close_conn_below,
  set-AllSlots, set-IsSized,
}
use simple_web_server.Host.{Host, World}
use simple_web_server.Read.Streams.{do_read-fd}
use simple_web_server.Write.{do_write}
use simple_web_server.Write.Keeps.{KeepsFd, do_write-KeepsFd}
use simple_web_server.Server.{
  Round, Visit, read_slot, write_slot, close_if_done, then_close_if_done, write_and_close,
  is_sending, is_closing,
}

-- The slot and the client are of one connection.
abbrev Paired : Pollfd → Client → Type 0
Paired p c = p.fd ≡ c.fd

-- The arrays are of their sizes, the first `n` slots are the listeners', and the others pair a
-- descriptor with its client.
pub record IsTable (n : ℕ) (t : Table) : Type 0 where
  pub sized : IsSized t
  pub some_listener : 0 < n
  pub listeners : n ≤ t.fd_count
  pub paired : AllSlots Paired n t

-- The listeners' slots are as they were.
abbrev pub SameListeners : ℕ → Table → Table → Type 0
SameListeners n t u = (j : ℕ) → j < n → (pollfd_at u j).fd ≡ (pollfd_at t j).fd

-- One step from slot `i`: on to the next slot, with as many slots, or up to `more` of them more; or, for a client, the
-- slot is looked at again, with one slot less.
pub record Advanced (n i : ℕ) (t : Table) (more : ℕ) (j : ℕ) (u : Table) : Type 0 where
  pub table : IsTable n u
  pub listeners : SameListeners n t u
  pub progress :
      ((j ≡ i + 1) × (t.fd_count ≤ u.fd_count) × (u.fd_count ≤ t.fd_count + more))
      ⊎ ((n ≤ i) × (j ≡ i) × (u.fd_count + 1 ≡ t.fd_count))

-- A step that does not end the process.
abbrev pub Steps : (n i : ℕ) → Table → ℕ → Visit → Type 0
Steps n i t more exited = Unit {0}
Steps n i t more (running (j, u, v)) = Advanced n i t more j u

module _ (n i : ℕ) (t : Table) (w : World) (s : IsTable n t) (client : n ≤ i)
    (live : i < t.fd_count) where
  positive : 0 < i
  positive = omega (arith, s.some_listener)

  pub closed-Advanced : Advanced n i t 0 i (close_conn i t w).0
  closed-Advanced =
      let count = close_conn_count i t w s.sized positive live in
      record {
        table = record {
          sized = close_conn-IsSized i t w s.sized positive live;
          some_listener = s.some_listener;
          listeners = omega arith;
          paired = close_conn-AllSlots i t w s.sized positive live Paired n client s.paired;
        };
        listeners = λ j h.
            ap (λ (p : Pollfd). p.fd)
              (close_conn_below i t w s.sized positive live j (omega arith));
        progress = inr (client, refl, omega arith);
      }

  close_if_done-Steps : Steps n i t 0 (close_if_done i t w)
  unfolding close_if_done
  close_if_done-Steps = elim (Bool-cases (is_closing (client_at t i).state)) [
    | inl e ↦ rw e closed-Advanced
    | inr e ↦ rw e (record {
      table = s;
      listeners = λ j h. refl;
      progress = inl (refl, omega arith, omega arith);
    })
  ]

-- The table before is replaced by one with the same number of slots and the same listeners.
pub Steps-from :
    (n i more : ℕ) (t t' : Table) (v : Visit)
    → t'.fd_count ≡ t.fd_count
    → SameListeners n t t'
    → Steps n i t' more v
    → Steps n i t more v
Steps-from n i more t t' exited e l s = tt
Steps-from n i more t t' (running (j, u, v)) e l s = record {
  table = s.table;
  listeners = λ k h. s.listeners k h ∙ l k h;
  progress = elim s.progress [
    | inl (a, b, c) ↦ inl (a, omega arith, omega arith)
    | inr (a, b, c) ↦ inr (a, b, omega arith)
  ];
}

abbrev pub with_client : Table → ℕ → Client → Table
with_client t i c = record t { clients = set t.clients i c }

pub set_client-IsTable :
    (n i : ℕ) (t : Table) (c : Client)
    → IsTable n t
    → n ≤ i
    → i < t.fd_count
    → c.fd ≡ (client_at t i).fd
    → IsTable n (with_client t i c)
set_client-IsTable n i t c s client live e = record {
  sized = record {
    fits = s.sized.fits;
    pfds_size = s.sized.pfds_size;
    clients_size = length-set t.clients i c ∙ s.sized.clients_size;
  };
  some_listener = s.some_listener;
  listeners = s.listeners;
  paired = λ j nj h. elim (eq-cases i j) [
    | inl same ↦
        s.paired j nj h
        ∙ ap (λ k. (client_at t k).fd) (sym same)
        ∙ sym e
        ∙ ap (λ (x : Client). x.fd)
            (sym (
              get_or-set_self t.clients i c blank_client
                (omega (arith, s.sized.fits, s.sized.clients_size))))
        ∙ ap (λ k. (get_or (set t.clients i c) k blank_client).fd) same
    | inr other ↦
        s.paired j nj h
        ∙ ap (λ (x : Client). x.fd) (sym (get_or-set_ne t.clients i j c blank_client other))
  ];
}

module _ (h : Host) (r : Round) (n i : ℕ) (t : Table) (w : World) (s : IsTable n t) (client : n ≤ i)
    (live : i < t.fd_count) where
  then_close-Steps :
      (o : Outcome (Client × World))
      → KeepsFd (client_at t i) o
      → Steps n i t 0 (
          then_close_if_done i
            (elim o [ exited ↦ exited | running (c, w') ↦ running (with_client t i c, w') ]))
  unfolding then_close_if_done
  then_close-Steps exited k = tt
  then_close-Steps (running (c, w')) k =
      Steps-from n i 0 t (with_client t i c) (close_if_done i (with_client t i c) w') refl
        (λ j l. refl)
        (close_if_done-Steps n i (with_client t i c) w' (set_client-IsTable n i t c s client live k)
          client live)

  pub write_and_close-Steps : (revents : ℕ) → Steps n i t 0 (write_and_close r revents i t w)
  unfolding write_and_close write_slot
  write_and_close-Steps revents =
      elim (Bool-cases (has_flag revents pollout && is_sending (client_at t i).state)) [
        | inl e ↦ rw e (
            then_close-Steps (do_write (r.sends (client_at t i).fd) (client_at t i) w)
              (do_write-KeepsFd (r.sends (client_at t i).fd) (client_at t i) w))
        | inr e ↦ rw e (close_if_done-Steps n i t w s client live)
      ]

  pub read-IsTable : IsTable n (read_slot h r i t w).0
  unfolding read_slot
  read-IsTable =
      let (a, b) = do_read-fd h (r.recvs (client_at t i).fd) (client_at t i) (pollfd_at t i) w in
      record {
        sized = set-IsSized i t _ _ s.sized;
        some_listener = s.some_listener;
        listeners = s.listeners;
        paired =
            set-AllSlots Paired n i t _ _ s.sized live s.paired
              (b ∙ s.paired i client live ∙ sym a);
      }

  pub read-SameListeners : SameListeners n t (read_slot h r i t w).0
  unfolding read_slot
  read-SameListeners j l =
      ap (λ (p : Pollfd). p.fd) (get_or-set_ne t.pfds i j _ blank_pollfd (λ e. omega arith))

  pub read_count : (read_slot h r i t w).0.fd_count ≡ t.fd_count
  unfolding read_slot
  read_count = refl
