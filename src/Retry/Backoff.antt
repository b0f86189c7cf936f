-- ===== src/Retry/Backoff.antt =====
-- The delays between the attempts of one call.
use native.Mathlib.Nat.{pow-suc}
use jit_access_broker.Prelude.{
  ℕ, zero, suc, ◌-◌, ◌*◌, ◌^◌, ◌≤◌, ◌<◌, ◌≡◌, refl, min, arith, pos, pos_part, ap, ◌∙◌,
}
use jit_access_broker.Retry.{RetryRevoker, backoff, with_defaults}

pred_eq : (n : ℕ) → suc n - 1 ≡ n
pred_eq n = omega arith

grow : (b n : ℕ) → b * 2 ^ suc n ≡ 2 * (b * 2 ^ n)
grow b n = rw pow-suc (omega arith)

grow_pos : (b n : ℕ) → 0 < b → b ≤ b * 2 ^ n
grow_pos b zero h = omega arith
grow_pos b (suc n) h = omega (arith, grow b n, grow_pos b n h)

module _ {W : Type 0} where
  abbrev pub base : RetryRevoker W → ℕ
  base r = pos_part (with_defaults r).base_delay

  abbrev pub cap_delay : RetryRevoker W → ℕ
  cap_delay r = pos_part (with_defaults r).max_delay

  -- The float64 of an integer below 2 ^ 63 converts to the same Duration.
  abbrev pub IsExact : RetryRevoker W → Type 0
  IsExact r = (n : ℕ) → n < 9223372036854775808 → r.to_duration n ≡ pos n

  with_defaults_pos :
      (r : RetryRevoker W)
      → (0 < base r) × ((with_defaults r).max_delay ≡ pos (cap_delay r)) × (0 < cap_delay r)
  unfolding with_defaults
  with_defaults_pos r = (ground arith, ground arith, ground arith)

  to_duration-with_defaults :
      (r : RetryRevoker W) (n : ℕ) → (with_defaults r).to_duration n ≡ r.to_duration n
  unfolding with_defaults
  to_duration-with_defaults r n = refl

  backoff_exact :
      (r : RetryRevoker W) (n : ℕ)
      → IsExact r
      → base r * 2 ^ n < 9223372036854775808
      → backoff (with_defaults r) (suc n) ≡ pos (min (base r * 2 ^ n) (cap_delay r))
  unfolding backoff
  backoff_exact r n x b =
      let exact : (with_defaults r).to_duration (base r * 2 ^ (suc n - 1)) ≡ pos (base r * 2 ^ n) =
        to_duration-with_defaults r _ ∙ rw (pred_eq n) (x (base r * 2 ^ n) b) in
      ground (arith, with_defaults_pos r)

  -- Where no delay leaves the int64 range: the delay after the first failure is the base delay under
  -- the cap, each later one is twice the one before under the cap, and each is positive and at most
  -- MaxDelay.
  pub backoff_doubles :
      (r : RetryRevoker W) (n : ℕ)
      → IsExact r
      → base r * 2 ^ suc n < 9223372036854775808
      → (backoff (with_defaults r) 1 ≡ pos (min (base r) (cap_delay r)))
        × (backoff (with_defaults r) (suc (suc n))
            ≡ pos (min (2 * pos_part (backoff (with_defaults r) (suc n))) (cap_delay r)))
        × (0 < pos_part (backoff (with_defaults r) (suc n)))
        × (pos_part (backoff (with_defaults r) (suc n)) ≤ cap_delay r)
  backoff_doubles r n x b =
      let (b0, m, m0) = with_defaults_pos r in
      let step = grow (base r) n in
      let low = grow_pos (base r) n b0 in
      (
        backoff_exact r 0 x (omega arith) ∙ ap (λ k. pos (min k (cap_delay r))) (omega arith),
        backoff_exact r (suc n) x b ∙ ap pos (rw (backoff_exact r n x (omega arith)) (omega arith)),
        rw (backoff_exact r n x (omega arith)) (omega arith),
        rw (backoff_exact r n x (omega arith)) (omega arith),
      )
