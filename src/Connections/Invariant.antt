-- ===== src/Connections/Invariant.antt =====
-- The arrays keep their sizes and stay parallel, and what holds of every connection is kept.
use simple_web_server.Base.{
  eq-cases, ℕ, ◌-◌, ◌<◌, ◌≤◌, ◌≡◌, refl, sym, ◌∙◌, ◌≢◌, ◌⊎◌, arith, length-set, set,
  get_or-set_self, get_or-set_ne, true, false, inl, inr, ◌==◌,
}
use simple_web_server.Client.{Client}
use simple_web_server.Connections.{
  Pollfd, Table, pollfd_at, client_at, blank_pollfd, blank_client, close_conn,
}
use simple_web_server.Connections.Entries.{IsSized}
use simple_web_server.Host.{World}

-- `P` holds of every live slot from the `n`th on: of the clients, where `n` counts the listeners.
abbrev pub AllSlots {ℓ} : (Pollfd → Client → Type ℓ) → ℕ → Table → Type ℓ
AllSlots P n t = (j : ℕ) → n ≤ j → j < t.fd_count → P (pollfd_at t j) (client_at t j)

-- `P` holds of all of them but slot `i`.
abbrev pub AllBut {ℓ} : (Pollfd → Client → Type ℓ) → ℕ → ℕ → Table → Type ℓ
AllBut P i n t = (j : ℕ) → n ≤ j → j < t.fd_count → j ≢ i → P (pollfd_at t j) (client_at t j)

module _ (i : ℕ) (t : Table) (w : World) (s : IsSized t) (p : 0 < i) (l : i < t.fd_count) where
  nonzero : (i == 0) ≡ false
  nonzero = ground arith

  pub close_conn_last :
      i ≡ t.fd_count - 1 → (close_conn i t w).0 ≡ record t { fd_count = t.fd_count - 1 }
  close_conn_last e =
      let test : (i == (t.fd_count - 1)) ≡ true = ground arith in
      unfold close_conn in rw (test, nonzero)

  pub close_conn_moved :
      i ≢ t.fd_count - 1
      → (close_conn i t w).0 ≡ record t {
        pfds = set t.pfds i (pollfd_at t (t.fd_count - 1));
        clients = set t.clients i (client_at t (t.fd_count - 1));
        fd_count = t.fd_count - 1;
      }
  close_conn_moved ne =
      let test : (i == (t.fd_count - 1)) ≡ false = ground arith in
      unfold close_conn in rw (test, nonzero)

  -- The slot of the last entry is the one that moves.
  pub close_conn-slot :
      (j : ℕ)
      → j < (close_conn i t w).0.fd_count
      → (k : ℕ) × (k < t.fd_count)
        × ((k ≡ j) ⊎ (i ≤ k))
        × (k ≢ i)
        × (pollfd_at (close_conn i t w).0 j ≡ pollfd_at t k)
        × (client_at (close_conn i t w).0 j ≡ client_at t k)
  close_conn-slot j h = elim (eq-cases i (t.fd_count - 1)) [
    | inl e ↦
        let h' = rw (close_conn_last e) at h in
        rw (close_conn_last e) (j, omega arith, inl refl, (λ q. omega arith), refl, refl)
    | inr ne ↦ elim (eq-cases i j) [
      | inl same ↦
          rw (close_conn_moved ne, ← same)
            (
              t.fd_count - 1,
              omega arith,
              inr (omega arith),
              (λ q. ne (sym q)),
              get_or-set_self t.pfds i _ blank_pollfd (omega (arith, s.fits, s.pfds_size)),
              get_or-set_self t.clients i _ blank_client (omega (arith, s.fits, s.clients_size)),
            )
      | inr other ↦
          let h' = rw (close_conn_moved ne) at h in
          rw (close_conn_moved ne) (
            j,
            omega arith,
            inl refl,
            (λ q. other (sym q)),
            get_or-set_ne t.pfds i j _ blank_pollfd other,
            get_or-set_ne t.clients i j _ blank_client other,
          )
    ]
  ]

  pub close_conn-IsSized : IsSized (close_conn i t w).0
  close_conn-IsSized = elim (eq-cases i (t.fd_count - 1)) [
    | inl e ↦ rw (close_conn_last e) (record {
      fits = omega (arith, s.fits);
      pfds_size = s.pfds_size;
      clients_size = s.clients_size;
    })
    | inr ne ↦ rw (close_conn_moved ne) (record {
      fits = omega (arith, s.fits);
      pfds_size = length-set t.pfds i _ ∙ s.pfds_size;
      clients_size = length-set t.clients i _ ∙ s.clients_size;
    })
  ]

  pub close_conn_count : (close_conn i t w).0.fd_count ≡ t.fd_count - 1
  close_conn_count = elim (eq-cases i (t.fd_count - 1)) [
    | inl e ↦ rw (close_conn_last e)
    | inr ne ↦ rw (close_conn_moved ne)
  ]

  -- What holds of the other slots holds of all that are left.
  pub close_conn-AllBut {ℓ} :
      (P : Pollfd → Client → Type ℓ) (n : ℕ)
      → n ≤ i
      → AllBut P i n t
      → AllSlots P n (close_conn i t w).0
  close_conn-AllBut P n ni all j nj h =
      let (k, kl, from, other, pe, ce) = close_conn-slot j h in
      rw (pe, ce) (all k (omega arith) kl other)

  pub close_conn-AllSlots {ℓ} :
      (P : Pollfd → Client → Type ℓ) (n : ℕ)
      → n ≤ i
      → AllSlots P n t
      → AllSlots P n (close_conn i t w).0
  close_conn-AllSlots P n ni all = close_conn-AllBut P n ni (λ j nj l ne. all j nj l)

  -- The slots below the closed one are not touched.
  pub close_conn_below : (j : ℕ) → j < i → pollfd_at (close_conn i t w).0 j ≡ pollfd_at t j
  close_conn_below j h = elim (eq-cases i (t.fd_count - 1)) [
    | inl e ↦ rw (close_conn_last e)
    | inr ne ↦ rw (close_conn_moved ne) (get_or-set_ne t.pfds i j _ blank_pollfd (λ e. omega arith))
  ]

-- A slot is written to: what holds of the new entry and of the others holds of all.
pub set-AllSlots {ℓ} :
    (P : Pollfd → Client → Type ℓ) (n i : ℕ) (t : Table) (p : Pollfd) (c : Client)
    → IsSized t
    → i < t.fd_count
    → AllSlots P n t
    → P p c
    → AllSlots P n (record t { pfds = set t.pfds i p; clients = set t.clients i c })
set-AllSlots P n i t p c s l all new j nj h = elim (eq-cases i j) [
  | inl e ↦
      rw
        (
          ← e,
          get_or-set_self t.pfds i p blank_pollfd (omega (arith, s.fits, s.pfds_size)),
          get_or-set_self t.clients i c blank_client (omega (arith, s.fits, s.clients_size)),
        )
        new
  | inr ne ↦
      rw (get_or-set_ne t.pfds i j p blank_pollfd ne, get_or-set_ne t.clients i j c blank_client ne)
        (all j nj h)
]

pub set-IsSized :
    (i : ℕ) (t : Table) (p : Pollfd) (c : Client)
    → IsSized t
    → IsSized (record t { pfds = set t.pfds i p; clients = set t.clients i c })
set-IsSized i t p c s = record {
  fits = s.fits;
  pfds_size = length-set t.pfds i p ∙ s.pfds_size;
  clients_size = length-set t.clients i c ∙ s.clients_size;
}
