-- ===== src/Providers.antt =====
-- providers/providers.go: the two interfaces that the broker calls. An implementation acts on a
-- world `W`: the provider behind it, the network, the clock and the source of randomness.
pub mod Http
pub mod PagerDuty
pub mod Jira
pub mod Vault
pub mod Stubs
use jit_access_broker.Prelude.{Text, Bool, Option, ℤ, ◌≡◌, refl, ◌⊎◌, inl, inr}
use jit_access_broker.Models.{IssuedToken}

-- A value, or the message of a Go error.
pub data Result {ℓ} (A : Type ℓ) : Type ℓ where
  ok : A → Result A
  err : Text → Result A

pub Result-cases {ℓ} :
    {A : Type ℓ} (r : Result A) → ((a : A) × (r ≡ ok a)) ⊎ ((e : Text) × (r ≡ err e))
Result-cases (ok a) = inl (a, refl)
Result-cases (err e) = inr (e, refl)

-- ContextValidator.Validate: (ok, reason), or an error.
pub record ContextValidator (W : Type 0) : Type 0 where
  pub validate : Text → Text → W → Result (Bool × Text) × W

-- TokenIssuer. Revoke returns the message of its error, if it fails.
pub record TokenIssuer (W : Type 0) : Type 0 where
  pub issue : Text → Text → ℤ → W → Result IssuedToken × W
  pub revoke : IssuedToken → W → Option Text × W
  pub name : Text

-- context.Context: ctx.Err(), read when the code reads it.
pub record Context (W : Type 0) : Type 0 where
  pub ctx_err : W → Option Text
