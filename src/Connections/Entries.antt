-- ===== src/Connections/Entries.antt =====
-- The live slots as a collection of connections: closing one removes it and no other, adding one
-- puts it at the end. The two arrays are read together, so they stay parallel.
use mathlib.Core.List.{Perm, perm_middle}
use mathlib.Core.List.Perm
use simple_web_server.Base.{
  ℕ, zero, suc, ◌-◌, ◌<◌, ◌≤◌, ◌≡◌, refl, sym, ap, subst, List, [], ◌∷◌, ◌++◌, append-nil, arith,
  length, take, set, get_or, take-suc, false, Bool-cases, inl, inr, ◌==◌,
}
use simple_web_server.Client.{Client}
use simple_web_server.Connections.{
  Pollfd, Table, pollfd_at, client_at, blank_pollfd, blank_client, close_conn,
}
use simple_web_server.Host.{World}

abbrev pub pair_up : List Pollfd → List Client → List (Pollfd × Client)
pair_up (p ∷ ps) (c ∷ cs) = (p, c) ∷ pair_up ps cs
pair_up _ _ = []

abbrev pub entries : Table → List (Pollfd × Client)
entries t = take t.fd_count (pair_up t.pfds t.clients)

pub snoc-perm {ℓ} : {A : Type ℓ} (xs : List A) (x : A) → Perm (xs ++ x ∷ []) (x ∷ xs)
snoc-perm xs x = rw (append-nil xs) at (perm_middle {a = x} xs [])

swap_remove-perm {ℓ} :
    {A : Type ℓ} (xs : List A) (i n : ℕ) (d : A)
    → n < length xs
    → i < n
    → Perm (take (suc n) xs) (get_or xs i d ∷ take n (set xs i (get_or xs n d)))
swap_remove-perm [] i n d h l = elim h [ ]
swap_remove-perm (x ∷ xs) i zero d h l = absurd (omega arith)
swap_remove-perm (x ∷ xs) zero (suc n) d h l =
    Perm.cons x (rw (take-suc n xs d (omega arith)) (snoc-perm _ _))
swap_remove-perm (x ∷ xs) (suc i) (suc n) d h l =
    Perm.trans (Perm.cons x (swap_remove-perm xs i n d (omega arith) (omega arith)))
      (Perm.swap _ _ _)

pub pair_up-set :
    (ps : List Pollfd) (cs : List Client) (i : ℕ) (p : Pollfd) (c : Client)
    → pair_up (set ps i p) (set cs i c) ≡ set (pair_up ps cs) i (p, c)
pair_up-set [] cs i p c = refl
pair_up-set (q ∷ ps) [] zero p c = refl
pair_up-set (q ∷ ps) [] (suc i) p c = refl
pair_up-set (q ∷ ps) (d ∷ cs) zero p c = refl
pair_up-set (q ∷ ps) (d ∷ cs) (suc i) p c = ap (◌∷◌ (q, d)) (pair_up-set ps cs i p c)

pub length-pair_up :
    (ps : List Pollfd) (cs : List Client)
    → length ps ≡ length cs
    → length (pair_up ps cs) ≡ length ps
length-pair_up [] cs h = refl
length-pair_up (q ∷ ps) [] h = absurd (omega arith)
length-pair_up (q ∷ ps) (d ∷ cs) h = ap suc (length-pair_up ps cs (omega arith))

get_or-pair_up :
    (ps : List Pollfd) (cs : List Client) (i : ℕ) (p : Pollfd) (c : Client)
    → length ps ≡ length cs
    → get_or (pair_up ps cs) i (p, c) ≡ (get_or ps i p, get_or cs i c)
get_or-pair_up [] [] i p c h = refl
get_or-pair_up [] (d ∷ cs) i p c h = absurd (omega arith)
get_or-pair_up (q ∷ ps) [] i p c h = absurd (omega arith)
get_or-pair_up (q ∷ ps) (d ∷ cs) zero p c h = refl
get_or-pair_up (q ∷ ps) (d ∷ cs) (suc i) p c h = get_or-pair_up ps cs i p c (omega arith)

-- The arrays of a table: as long as its capacity, with the live slots within it.
pub record IsSized (t : Table) : Type 0 where
  pub fits : t.fd_count ≤ t.fd_size
  pub pfds_size : length t.pfds ≡ t.fd_size
  pub clients_size : length t.clients ≡ t.fd_size

abbrev pub entry_at : Table → ℕ → Pollfd × Client
entry_at t i = (pollfd_at t i, client_at t i)

-- Closing a live slot other than the first removes exactly its entry from the live ones: the other
-- connections are kept, each with its own `pollfd`, in another order at most.
pub entries-close_conn :
    (i : ℕ) (t : Table) (w : World)
    → IsSized t
    → 0 < i
    → i < t.fd_count
    → Perm (entries t) (entry_at t i ∷ entries (close_conn i t w).0)
entries-close_conn i t w s p l = elim (Bool-cases (i == last)) [
  | inl e ↦
      let i_last : i ≡ last = ground arith in
      let closed_last : (close_conn i t w).0 ≡ record t { fd_count = last } =
        (unfold close_conn in rw (e, nonzero)) in
      rw (closed_last, i_last)
        (subst (λ (k : ℕ). Perm (take k pairs) (entry_at t last ∷ take last pairs)) (sym count)
          (rw (take-suc last pairs blank within, at_index last)
            (snoc-perm (take last pairs) (entry_at t last))))
  | inr e ↦
      let moved : (close_conn i t w).0 ≡ record t {
        pfds = set t.pfds i (pollfd_at t last);
        clients = set t.clients i (client_at t last);
        fd_count = last;
      } =
        (unfold close_conn in rw (e, nonzero)) in
      let before_last : i < last = ground arith in
      rw (moved, pair_up-set t.pfds t.clients i (pollfd_at t last) (client_at t last))
        (subst
          (λ (k : ℕ).
            Perm (take k pairs) (entry_at t i ∷ take last (set pairs i (entry_at t last))))
          (sym count)
          (rw (at_index i, at_index last) at
            (swap_remove-perm pairs i last blank within before_last)))
]
  where
    last : ℕ
    last = t.fd_count - 1

    blank : Pollfd × Client
    blank = (blank_pollfd, blank_client)

    pairs : List (Pollfd × Client)
    pairs = pair_up t.pfds t.clients

    same : length t.pfds ≡ length t.clients
    same = omega arith

    count : t.fd_count ≡ suc last
    count = omega arith

    nonzero : (i == 0) ≡ false
    nonzero = ground arith

    within : last < length pairs
    within = omega (arith, length-pair_up t.pfds t.clients same)

    at_index : (j : ℕ) → get_or pairs j blank ≡ entry_at t j
    at_index j = get_or-pair_up t.pfds t.clients j blank_pollfd blank_client same
