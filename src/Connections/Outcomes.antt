-- ===== src/Connections/Outcomes.antt =====
-- The two outcomes of a part that may end the process, told apart.
use simple_web_server.Base.{◌≡◌, refl, ◌⊎◌, inl, inr}
use simple_web_server.Connections.{Outcome, running, exited}

module _ {ℓ} {A : Type ℓ} where
  pub Outcome-cases : (o : Outcome A) → (o ≡ exited) ⊎ ((a : A) × (o ≡ running a))
  Outcome-cases exited = inl refl
  Outcome-cases (running a) = inr (a, refl)

  pub running-injective : {a b : A} → ◌≡◌ {A = Outcome A} (running a) (running b) → a ≡ b
  running-injective q = cc

  pub running-exited : {a : A} → ◌≡◌ {A = Outcome A} (running a) exited → ⊥
  running-exited q = cc

  pub exited-running : {a : A} → ◌≡◌ {A = Outcome A} exited (running a) → ⊥
  exited-running q = cc
