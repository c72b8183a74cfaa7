-- ===== src/Connections/Room.antt =====
-- The arrays grow when they are full: what add_to_lists writes its new slot to.
use simple_web_server.Base.{
  ℕ, zero, suc, ◌*◌, ◌<◌, ◌≡◌, refl, sym, ap, ◌∙◌, ◌⊎◌, List, [], ◌∷◌, ◌++◌, arith, length,
  length-append, get_or-append_left, Bool-cases, inl, inr, ◌==◌, take, take-append_left,
}
use simple_web_server.Client.{Client}
use simple_web_server.Connections.{
  Pollfd, Table, pollfd_at, client_at, blank_pollfd, blank_client, running, exited, blanks,
  fill_slot, add_to_lists,
}
use simple_web_server.Connections.Entries.{IsSized, pair_up, entries, length-pair_up}
use simple_web_server.Connections.Outcomes.{running-injective, running-exited}
use simple_web_server.Host.{Host}

length-blanks {ℓ} : {A : Type ℓ} (n : ℕ) (a : A) → length (blanks n a) ≡ n
unfolding blanks
length-blanks zero a = refl
length-blanks (suc n) a = ap suc (length-blanks n a)

pair_up-append :
    (ps qs : List Pollfd) (cs ds : List Client)
    → length ps ≡ length cs
    → pair_up (ps ++ qs) (cs ++ ds) ≡ pair_up ps cs ++ pair_up qs ds
pair_up-append [] qs [] ds h = refl
pair_up-append [] qs (c ∷ cs) ds h = absurd (omega arith)
pair_up-append (p ∷ ps) qs [] ds h = absurd (omega arith)
pair_up-append (p ∷ ps) qs (c ∷ cs) ds h =
    ap (◌∷◌ (p, c)) (pair_up-append ps qs cs ds (omega arith))

-- A table with the live slots of another one, and room behind them.
pub record HasRoom (t g : Table) : Type 0 where
  pub sized : IsSized g
  pub room : g.fd_count < g.fd_size
  pub same_count : g.fd_count ≡ t.fd_count
  pub same_entries : entries g ≡ entries t
  pub same_pollfd : (j : ℕ) → j < t.fd_count → pollfd_at g j ≡ pollfd_at t j
  pub same_client : (j : ℕ) → j < t.fd_count → client_at g j ≡ client_at t j
  pub size : (g.fd_size ≡ t.fd_size) ⊎ ((t.fd_count ≡ t.fd_size) × (g.fd_size ≡ t.fd_size * 2))

abbrev grown_table : Table → Table
grown_table t = record {
  pfds = t.pfds ++ blanks t.fd_size blank_pollfd;
  clients = t.clients ++ blanks t.fd_size blank_client;
  fd_count = t.fd_count;
  fd_size = t.fd_size * 2;
}

grown_table-HasRoom :
    (t : Table) → IsSized t → 0 < t.fd_size → t.fd_count ≡ t.fd_size → HasRoom t (grown_table t)
grown_table-HasRoom t s p full = record {
  sized = record {
    fits = omega arith;
    pfds_size = omega (
      arith,
      s.pfds_size,
      length-append t.pfds (blanks t.fd_size blank_pollfd),
      length-blanks t.fd_size blank_pollfd,
    );
    clients_size = omega (
      arith,
      s.clients_size,
      length-append t.clients (blanks t.fd_size blank_client),
      length-blanks t.fd_size blank_client,
    );
  };
  room = omega arith;
  same_count = refl;
  same_entries =
      ap (take t.fd_count) (
        pair_up-append t.pfds (blanks t.fd_size blank_pollfd) t.clients
          (blanks t.fd_size blank_client) same)
      ∙ take-append_left t.fd_count (pair_up t.pfds t.clients) _
          (omega (arith, length-pair_up t.pfds t.clients same, s.pfds_size));
  same_pollfd = λ j h. get_or-append_left t.pfds _ j blank_pollfd (omega (arith, s.pfds_size));
  same_client =
      λ j h. get_or-append_left t.clients _ j blank_client (omega (arith, s.clients_size));
  size = inr (full, refl);
}
  where
    same : length t.pfds ≡ length t.clients
    same = omega (arith, s.pfds_size, s.clients_size)

-- The table that the new slot is written to.
pub add_to_lists-HasRoom :
    (h : Host) (newfd : ℕ) (t : Table) {r : Table × ℕ}
    → IsSized t
    → 0 < t.fd_size
    → add_to_lists h newfd t ≡ running r
    → (g : Table) × HasRoom t g × (r ≡ fill_slot newfd g)
add_to_lists-HasRoom h newfd t {r} s p e = elim (Bool-cases (t.fd_count == t.fd_size)) [
  | inl full ↦ elim (Bool-cases (h.malloc_ok (t.fd_size * 2))) [
    | inl ok ↦
        let run : add_to_lists h newfd t ≡ running (fill_slot newfd (grown_table t)) =
          (unfold add_to_lists in rw (full, ok)) in
        (grown_table t, grown_table-HasRoom t s p (ground arith), running-injective (sym e ∙ run))
    | inr refused ↦
        let run : add_to_lists h newfd t ≡ exited = (unfold add_to_lists in rw (full, refused)) in
        absurd (running-exited (sym e ∙ run))
  ]
  | inr free ↦
      let run : add_to_lists h newfd t ≡ running (fill_slot newfd t) =
        (unfold add_to_lists in rw free) in
      (
        t,
        record {
          sized = s;
          room = ground (arith, s.fits);
          same_count = refl;
          same_entries = refl;
          same_pollfd = λ j h. refl;
          same_client = λ j h. refl;
          size = inl refl;
        },
        running-injective (sym e ∙ run),
      )
]
