-- ===== src/Server/Rounds.antt =====
-- The passes of the poll loop of main.c end, and so does the loop that closes all clients.
use simple_web_server.Base.{
  ℕ, zero, suc, ◌+◌, ◌-◌, ◌*◌, ◌<◌, ◌≤◌, ◌≡◌, refl, ap, subst, ◌∙◌, ◌⊎◌, inl, inr, true, false,
  Bool-cases, some, List, [], ◌∷◌, ltb, if◌then◌else◌, arith, length, get_or,
}
use simple_web_server.Connections.{
  Pollfd, Table, blank_pollfd, Outcome, running, exited, close_conn,
}
use simple_web_server.Connections.Invariant.{close_conn_count}
use simple_web_server.Host.{Host, World}
use simple_web_server.Server.{
  Round, Visit, visit, visit_all, close_all, poll, pass, Polled, ready, poll_interrupted,
  poll_error,
}
use simple_web_server.Server.Invariant.{IsTable, SameListeners, Advanced, Steps, closed-Advanced}
use simple_web_server.Server.Slots.{visit-Steps}

-- How many steps are left at the most, where each listener may add `most` slots.
abbrev steps_left : ℕ → ℕ → ℕ → Table → ℕ
steps_left most n i t = (t.fd_count - i) + (n - i) * most

-- A pass ends, with the table in order; or the process does.
abbrev pub Ended : ℕ → Table → Outcome (Table × World) → Type 0
Ended n t exited = Unit {0}
Ended n t (running (u, v)) = IsTable n u × SameListeners n t u

pub Visit-cases :
    (v : Visit) → (v ≡ exited) ⊎ ((j : ℕ) × (u : Table) × (w : World) × (v ≡ running (j, u, w)))
Visit-cases exited = inl refl
Visit-cases (running (j, u, w)) = inr (j, u, w, refl)

times_suc : (k most : ℕ) → suc k * most ≡ k * most + most
times_suc k most = omega arith

minus_none : (a b : ℕ) → a ≤ b → a - b ≡ 0
minus_none a b h = omega arith

less :
    (most n i : ℕ) (t : Table) (j : ℕ) (u : Table)
    → i < t.fd_count
    → Advanced n i t (if ltb i n then most else 0) j u
    → steps_left most n j u < steps_left most n i t
less most n i t j u live a = elim (Bool-cases (ltb i n)) [
  | inl e ↦
      let listener : i < n = ground arith in
      let one_less : n - i ≡ suc (n - (i + 1)) = omega arith in
      let product : (n - i) * most ≡ (n - (i + 1)) * most + most =
        ap (λ k. k * most) one_less ∙ times_suc (n - (i + 1)) most in
      elim (rw e at a.progress) [
        | inl (next, _, bound) ↦ rw next (omega arith)
        | inr (client, _, _) ↦ absurd (omega arith)
      ]
  | inr e ↦
      let client : n ≤ i = ground arith in
      let none_left : n - i ≡ 0 = minus_none n i client in
      let none_next : n - (i + 1) ≡ 0 = minus_none n (i + 1) (omega arith) in
      elim (rw e at a.progress) [
        | inl (next, _, bound) ↦ rw (next, none_left, none_next) (omega arith)
        | inr (_, same, count) ↦ rw (same, none_left) (omega arith)
      ]
]

module _ (h : Host) (r : Round) (most : ℕ) (few : (fd : ℕ) → length (r.accepts fd) ≤ most)
    (n : ℕ) where
  ends :
      (fuel i : ℕ) (t : Table) (w : World)
      → IsTable n t
      → steps_left most n i t < fuel
      → (o : Outcome (Table × World)) × (visit_all h r n fuel i t w ≡ some o) × Ended n t o
  unfolding visit_all
  ends zero i t w s enough = absurd (omega arith)
  ends (suc fuel) i t w s enough = elim (Bool-cases (ltb i t.fd_count)) [
    | inl e ↦
        let live : i < t.fd_count = ground arith in
        let step = visit-Steps h r most few n i t w s live in
        elim (Visit-cases (visit h r n i t w)) [
          | inl x ↦ (exited, rw (e, visit_all, x) refl, tt)
          | inr (j, u, v, x) ↦
              let a : Advanced n i t (if ltb i n then most else 0) j u =
                subst (Steps n i t (if ltb i n then most else 0)) x step in
              let (o, done, ended) =
                ends fuel j u v a.table (omega (arith, less most n i t j u live a)) in
              (o, rw (e, visit_all, x) done, through u o a.listeners ended)
        ]
    | inr e ↦ (running (t, w), rw (e, visit_all) refl, (s, λ j l. refl))
  ]
    where
      through :
          (u : Table) (o : Outcome (Table × World))
          → SameListeners n t u
          → Ended n u o
          → Ended n t o
      through u exited l d = tt
      through u (running (v, w')) l (d, m) = (d, λ j k. m j k ∙ l j k)

  -- A pass over the slots ends: if `accept` gives at most `most` answers to a listener, as many steps
  -- as there are slots, and `most` more for each of the `n` listeners, are enough. Behind it the table
  -- is in order, with the listeners' slots as they were, unless the process has exited.
  pub visit_all-Ended :
      (t : Table) (w : World)
      → IsTable n t
      → (o : Outcome (Table × World)) × (visit_all h r n (suc (t.fd_count + n * most)) 0 t w
          ≡ some o)
        × Ended n t o
  visit_all-Ended t w s =
      ends (suc (t.fd_count + n * most)) 0 t w s (omega (arith, ap (λ k. k * most) whole))
    where
      whole : n - 0 ≡ n
      whole = omega arith

-- The loop that closes all clients ends after one step for each: the listeners are left, with their
-- slots as they were.
pub close_all-Ended :
    (n : ℕ) (clients : ℕ) (t : Table) (w : World)
    → IsTable n t
    → t.fd_count ≡ n + clients
    → (u : Table) × (v : World) × (close_all n (suc clients) t w ≡ some (u, v))
      × (u.fd_count ≡ n)
      × IsTable n u
      × SameListeners n t u
unfolding close_all
close_all-Ended n zero t w s e =
    let last : ltb n t.fd_count ≡ false = ground arith in
    (t, w, rw (last, close_all) refl, omega arith, s, λ j l. refl)
close_all-Ended n (suc clients) t w s e =
    let more : ltb n t.fd_count ≡ true = ground arith in
    let live : n < t.fd_count = omega arith in
    let a = closed-Advanced n n t w s (omega arith) live in
    let count = close_conn_count n t w s.sized s.some_listener live in
    let (u, v, run, left, table, listeners) =
      close_all-Ended n clients (close_conn n t w).0 (close_conn n t w).1 a.table (omega arith) in
    (u, v, rw (more, close_all) run, left, table, λ j l. listeners j l ∙ a.listeners j l)

length-poll : (rs : List ℕ) (ps : List Pollfd) → length (poll rs ps) ≡ length ps
unfolding poll
length-poll [] ps = refl
length-poll (r ∷ rs) [] = refl
length-poll (r ∷ rs) (p ∷ ps) = ap suc (length-poll rs ps)

poll-fd :
    (rs : List ℕ) (ps : List Pollfd) (j : ℕ)
    → (get_or (poll rs ps) j blank_pollfd).fd ≡ (get_or ps j blank_pollfd).fd
unfolding poll
poll-fd [] ps j = refl
poll-fd (r ∷ rs) [] j = refl
poll-fd (r ∷ rs) (p ∷ ps) zero = refl
poll-fd (r ∷ rs) (p ∷ ps) (suc j) = poll-fd rs ps j

-- The masks do not touch the rest of the table.
pub polled-IsTable :
    (n : ℕ) (rs : List ℕ) (t : Table) → IsTable n t → IsTable n (record t { pfds = poll rs t.pfds })
polled-IsTable n rs t s = record {
  sized = record {
    fits = s.sized.fits;
    pfds_size = length-poll rs t.pfds ∙ s.sized.pfds_size;
    clients_size = s.sized.clients_size;
  };
  some_listener = s.some_listener;
  listeners = s.listeners;
  paired = λ j nj l. poll-fd rs t.pfds j ∙ s.paired j nj l;
}

-- One pass of the main loop, from a table in order, ends within the steps that `visit_all` needs;
-- then the table is in order, and the listeners have their slots, or the process has exited.
pub pass-Ended :
    (h : Host) (answer : Polled) (most n : ℕ) (t : Table) (w : World)
    → ((r : Round) → answer ≡ ready r → (fd : ℕ) → length (r.accepts fd) ≤ most)
    → IsTable n t
    → (o : Outcome (Table × World)) × (pass h answer n (suc (t.fd_count + n * most)) t w ≡ some o)
      × Ended n t o
unfolding pass
pass-Ended h poll_interrupted most n t w few s = (running (t, w), refl, (s, λ j l. refl))
pass-Ended h poll_error most n t w few s = (exited, refl, tt)
pass-Ended h (ready r) most n t w few s =
    let in_order = polled-IsTable n r.revents t s in
    let (o, done, ended) = visit_all-Ended h r most (few r refl) n polled w in_order in
    (o, done, back o ended)
  where
    polled : Table
    polled = record t { pfds = poll r.revents t.pfds }

    back : (o : Outcome (Table × World)) → Ended n polled o → Ended n t o
    back exited e = tt
    back (running (u, v)) (table, l) = (table, λ j k. l j k ∙ poll-fd r.revents t.pfds j)
