-- ===== src/Retry.antt =====
-- retry/retry.go: revocation with exponential backoff.
-- The sleeper and the process log are actions of the world; the float64 jitter expression is read
-- from it as the two durations that the code converts. `base * 2^(attempt-1)` is exact below
-- 2 ^ 53; what the conversion of a larger float64 to a Duration gives is the argument `to_duration`.
pub mod Outcomes
pub mod Backoff
use jit_access_broker.Prelude.{
  ℕ, zero, suc, ◌+◌, ◌-◌, ◌*◌, ◌^◌, Bool, Option, none, some, ◌==◌, if◌then◌else◌, ℤ, pos, negsuc,
  pos_part, neg_part, leb_ℤ, ltb_ℤ, ◌+ℤ◌, ◌-ℤ◌, Text,
}
use jit_access_broker.Models.{IssuedToken, second}
use jit_access_broker.Providers.{TokenIssuer, Context}
use jit_access_broker.Audit.{Logger, when_wired, log_revoke_failed}

pub record RetryRevoker (W : Type 0) : Type 0 where
  pub issuer : TokenIssuer W
  pub base_delay : ℤ
  pub max_delay : ℤ
  pub max_attempts : ℤ
  -- MaxJitter > 0
  pub has_jitter : Bool
  pub logger : Option (Logger W)
  pub sleep : ℤ → W → W
  -- time.Duration(jitterRange/2) and time.Duration(jitterRange*randomFraction()) for a delay
  pub jitter_parts : ℤ → W → (ℤ × ℤ) × W
  -- time.Duration(f) for the float64 f nearest to this number
  pub to_duration : ℕ → ℤ

module _ {W : Type 0} where
  -- NewRetryRevoker: the settings that it chooses.
  abbrev pub new_retry_revoker :
      TokenIssuer W
      → Option (Logger W)
      → (ℤ → W → W)
      → (ℤ → W → (ℤ × ℤ) × W)
      → (ℕ → ℤ)
      → RetryRevoker W
  new_retry_revoker issuer logger sleep jitter_parts to_duration = record {
    issuer = issuer;
    base_delay = pos second;
    max_delay = pos (30 * second);
    max_attempts = pos 5;
    has_jitter = Bool.true;
    logger = logger;
    sleep = sleep;
    jitter_parts = jitter_parts;
    to_duration = to_duration;
  }

  -- SetSleeper
  abbrev pub set_sleeper : RetryRevoker W → (ℤ → W → W) → RetryRevoker W
  set_sleeper r sleep = record r { sleep = sleep }

  -- The defaults that Revoke writes to `r` first. Writing them again changes nothing.
  unfoldable pub with_defaults : RetryRevoker W → RetryRevoker W
  with_defaults r = record r {
    max_attempts = if leb_ℤ r.max_attempts (pos 0) then pos 5 else r.max_attempts;
    base_delay = if leb_ℤ r.base_delay (pos 0) then pos second else r.base_delay;
    max_delay = if leb_ℤ r.max_delay (pos 0) then pos (30 * second) else r.max_delay;
  }

  -- The delay after a failed attempt, before the jitter. `base_delay` is positive here.
  unfoldable pub backoff : RetryRevoker W → ℕ → ℤ
  backoff r attempt =
      let delay = r.to_duration (pos_part r.base_delay * 2 ^ (attempt - 1)) in
      if ltb_ℤ r.max_delay delay then r.max_delay else delay

  abbrev with_parts : ℤ → (ℤ × ℤ) × W → ℤ × W
  with_parts delay ((half, fraction), w) = (delay -ℤ half +ℤ fraction, w)

  unfoldable pub add_jitter : RetryRevoker W → ℤ → W → ℤ × W
  add_jitter r delay w =
      if r.has_jitter then with_parts delay (r.jitter_parts delay w) else (delay, w)

  -- The wait after a failure that is not the last: the delay is computed first, then the context
  -- is read, and only then the call sleeps. The message is the context's error.
  unfoldable pub pause : RetryRevoker W → Context W → ℕ → W → Option Text × W
  unfolding add_jitter backoff
  pause r ctx attempt w =
      let (delay, w') = add_jitter r (backoff r attempt) w in
      elim (ctx.ctx_err w') [ some e ↦ (some e, w') | none ↦ (none, r.sleep delay w') ]

  abbrev pub note_failure : RetryRevoker W → IssuedToken → ℕ → Text → W → W
  note_failure r t attempt e = when_wired r.logger (log_revoke_failed t attempt e)

  -- The loop with `rest` attempts left after the one numbered `attempt`.
  unfoldable pub attempts : RetryRevoker W → Context W → IssuedToken → ℕ → ℕ → W → Option Text × W
  attempts r ctx t zero attempt w = elim (ctx.ctx_err w) [
    | some e ↦ (some e, w)
    | none ↦
        let (outcome, w1) = r.issuer.revoke t w in
        elim outcome [ none ↦ (none, w1) | some e ↦ (some e, note_failure r t attempt e w1) ]
  ]
  attempts r ctx t (suc rest) attempt w = elim (ctx.ctx_err w) [
    | some e ↦ (some e, w)
    | none ↦
        let (outcome, w1) = r.issuer.revoke t w in
        elim outcome [
          | none ↦ (none, w1)
          | some e ↦
              let (stopped, w2) = pause r ctx attempt (note_failure r t attempt e w1) in
              elim stopped [
                | some cause ↦ (some cause, w2)
                | none ↦ attempts r ctx t rest (suc attempt) w2
              ]
        ]
  ]

  -- Revoke, of a token that may be nil.
  unfoldable pub revoke : RetryRevoker W → Context W → Option IssuedToken → W → Option Text × W
  unfolding with_defaults attempts pause
  revoke r ctx none w = (none, w)
  revoke r ctx (some t) w =
      let r' = with_defaults r in attempts r' ctx t (pos_part r'.max_attempts - 1) 1 w
