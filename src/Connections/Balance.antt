-- ===== src/Connections/Balance.antt =====
-- The descriptors of the connections: how often one was accepted, closed, and stands in a live slot.
pub mod Kept
use simple_web_server.Base.{
  ℕ, zero, suc, ◌+◌, ◌<◌, ◌≡◌, ◌≢◌, refl, List, [], ◌∷◌, ◌++◌, leb, ◌==◌, ◌&&◌, Bool, true, false,
  ◌⊎◌, inl, inr, arith,
}
use simple_web_server.Connections.{Table, client_at}
use simple_web_server.Host.{Effect, accepted, closed, sent, shut_down, logged, World}

-- `f 0 + … + f (m - 1)`
abbrev pub total : (ℕ → ℕ) → ℕ → ℕ
total f zero = 0
total f (suc m) = total f m + f m

pub total-same : (f g : ℕ → ℕ) (m : ℕ) → ((j : ℕ) → j < m → f j ≡ g j) → total f m ≡ total g m
total-same f g zero h = refl
total-same f g (suc m) h =
    omega (arith, total-same f g m (λ j l. h j (omega arith)), h m (omega arith))

-- The sums differ by the one place where the functions do.
pub total_change :
    (f g : ℕ → ℕ) (i m : ℕ)
    → i < m
    → ((j : ℕ) → j < m → j ≢ i → f j ≡ g j)
    → total f m + g i ≡ total g m + f i
total_change f g i zero l h = absurd (omega arith)
total_change f g i (suc m) l h = elim (order i m l) [
  | inl e ↦ rw e (omega (arith, total-same f g m (λ j k. h j (omega arith) (λ q. omega arith))))
  | inr k ↦ omega (
    arith,
    total_change f g i m k (λ j b ne. h j (omega arith) ne),
    h m (omega arith) (λ q. omega arith),
  )
]
  where
    order : (x y : ℕ) → x < suc y → (x ≡ y) ⊎ (x < y)
    order x y k = omega arith

abbrev one_if : Bool → ℕ
one_if true = 1
one_if false = 0

abbrev pub accepts : ℕ → Effect → ℕ
accepts d (accepted fd) = one_if (d == fd)
accepts d (closed fd) = 0
accepts d (sent fd s) = 0
accepts d (shut_down fd) = 0
accepts d (logged s) = 0

abbrev pub closes : ℕ → Effect → ℕ
closes d (accepted fd) = 0
closes d (closed fd) = one_if (d == fd)
closes d (sent fd s) = 0
closes d (shut_down fd) = 0
closes d (logged s) = 0

-- How often, over all that the outside has seen.
abbrev pub tally : (Effect → ℕ) → List Effect → ℕ
tally f [] = 0
tally f (e ∷ es) = f e + tally f es

pub tally-emit :
    (f : Effect → ℕ) (es : List Effect) (e : Effect) → tally f (es ++ e ∷ []) ≡ tally f es + f e
tally-emit f [] e = omega arith
tally-emit f (x ∷ es) e = omega (arith, tally-emit f es e)

-- Whether slot `j` is of a client, behind `n` listeners, with the descriptor `d`.
abbrev pub holds : ℕ → ℕ → Table → ℕ → ℕ
holds d n t j = one_if (leb n j && d == (client_at t j).fd)

abbrev pub times_live : ℕ → ℕ → Table → ℕ
times_live d n t = total (holds d n t) t.fd_count

-- Every descriptor was accepted as often as it was closed and stands in live slots.
abbrev pub IsBalanced : ℕ → Table → World → Type 0
IsBalanced n t w =
    (d : ℕ) → tally (accepts d) w.effects ≡ tally (closes d) w.effects + times_live d n t
