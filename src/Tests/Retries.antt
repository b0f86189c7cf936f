-- ===== src/Tests/Retries.antt =====
-- The retry engine against an issuer that fails a number of times. The world counts the failures that
-- are left, and keeps the audit log.
use jit_access_broker.Prelude.{
  ℕ, zero, suc, ◌-◌, ◌≤◌, ◌<◌, ◌≡◌, refl, Option, none, some, List, [], ◌∷◌, ◌++◌, pos, Text, codes,
  arith, ◌*◌, ◌^◌,
}
use jit_access_broker.Models.{IssuedToken, zero_token}
use jit_access_broker.Audit.{Event, Logger}
use jit_access_broker.Providers.{TokenIssuer, Context, err}
use jit_access_broker.Retry.{
  RetryRevoker, new_retry_revoker, with_defaults, revoke, pause, add_jitter,
}
use jit_access_broker.Retry.Outcomes.{
  Transient, failure_events, budget, revoke_recovers, revoke_exhausts,
}
use jit_access_broker.Retry.Backoff.{base}

abbrev Flaky : Type 0
Flaky = ℕ × List Event

abbrev try_revoke : IssuedToken → Flaky → Option Text × Flaky
try_revoke t (zero, log) = (none, (zero, log))
try_revoke t (suc k, log) = (some (codes "timeout"), (k, log))

abbrev flaky_issuer : TokenIssuer Flaky
flaky_issuer = record {
  issue = λ user resource ttl w. (err (codes "unused"), w);
  revoke = λ t w. try_revoke t w;
  name = codes "flaky";
}

abbrev log_to_world : Logger Flaky
log_to_world = record { emit = λ e w. (w.0, w.1 ++ e ∷ []) }

abbrev patient : RetryRevoker Flaky
patient =
    new_retry_revoker flaky_issuer (some log_to_world) (λ d w. w) (λ d w. ((pos 0, pos 0), w))
      (λ n. pos n)

abbrev live_context : Context Flaky
live_context = record { ctx_err = λ w. none }

patient-Transient :
    Transient
      (with_defaults patient)
      live_context
      zero_token
      (codes "timeout")
      (λ w. w.0)
      (λ w. w.1)
unfolding with_defaults pause add_jitter
patient-Transient = record {
  live = λ w. refl;
  recovers = recovering;
  fails = failing;
  logs = λ w n. (refl, refl);
  pauses = λ w n. (w, refl, refl, refl);
}
  where
    recovering :
        (w : Flaky) → w.0 ≡ 0 → (w' : Flaky) × (try_revoke zero_token w ≡ (none, w')) × (w'.1 ≡ w.1)
    recovering (zero, log) h = ((zero, log), refl, refl)
    recovering (suc k, log) h = absurd (omega arith)

    failing :
        (w : Flaky) (k : ℕ)
        → w.0 ≡ suc k
        → (w' : Flaky) × (try_revoke zero_token w ≡ (some (codes "timeout"), w'))
          × (w'.0 ≡ k)
          × (w'.1 ≡ w.1)
    failing (zero, log) k h = absurd (omega arith)
    failing (suc n, log) k h = ((n, log), refl, omega arith, refl)

two_below : 2 < budget patient
unfolding with_defaults
two_below = omega arith

-- Two failures are absorbed by five attempts.
revoke_recovers_example :
    (w' : Flaky) × (revoke patient live_context (some zero_token) (2, []) ≡ (none, w'))
    × (w'.1 ≡ [] ++ failure_events zero_token (codes "timeout") 1 2)
revoke_recovers_example =
    revoke_recovers patient live_context zero_token (codes "timeout") (λ w. w.0) (λ w. w.1)
      patient-Transient (2, []) two_below

seven_above : budget patient ≤ 7
unfolding with_defaults
seven_above = omega arith

revoke_exhausts_example :
    (w' : Flaky) × (revoke patient live_context (some zero_token) (7, [])
      ≡ (some (codes "timeout"), w'))
    × (w'.0 ≡ 7 - budget patient)
    × (w'.1 ≡ [] ++ failure_events zero_token (codes "timeout") 1 (budget patient))
revoke_exhausts_example =
    revoke_exhausts patient live_context zero_token (codes "timeout") (λ w. w.0) (λ w. w.1)
      patient-Transient (7, []) seven_above

small : base patient * 2 ^ 2 < 9223372036854775808
unfolding with_defaults
small = omega arith
