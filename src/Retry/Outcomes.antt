-- ===== src/Retry/Outcomes.antt =====
-- What Revoke returns, and how many attempts it makes.
use jit_access_broker.Prelude.{
  ℕ, zero, suc, ◌+◌, ◌-◌, ◌≤◌, ◌<◌, ◌≡◌, refl, inl, inr, none, some, List, [], ◌∷◌, ◌++◌, arith,
  Option-cases, pos_part, Text, ◌∙◌, ap, subst,
}
use mathlib.Core.List.{append-nil, append_assoc}
use jit_access_broker.Models.{IssuedToken}
use jit_access_broker.Providers.{Context}
use jit_access_broker.Audit.{Event, log_revoke_failed}
use jit_access_broker.Retry.{RetryRevoker, attempts, revoke, pause, note_failure, with_defaults}

-- The audit events of `k` failed attempts, the first of them numbered `n`.
pub failure_events : IssuedToken → Text → ℕ → ℕ → List Event
failure_events t problem n zero = []
failure_events t problem n (suc k) =
    log_revoke_failed t n problem ∷ failure_events t problem (suc n) k

module _ {W : Type 0} where
  -- The last call of the issuer, made in the world `w`, was a success that left `w'`.
  abbrev pub SucceededAt : RetryRevoker W → IssuedToken → W → W → Type 0
  SucceededAt r t w w' = r.issuer.revoke t w ≡ (none, w')

  attempts-SucceededAt :
      (r : RetryRevoker W) (ctx : Context W) (t : IssuedToken) (rest n : ℕ) (w w' : W)
      → attempts r ctx t rest n w ≡ (none, w')
      → (at : W) × SucceededAt r t at w'
  unfolding attempts
  attempts-SucceededAt r ctx t zero n w w' e = (w, ground arith)
  attempts-SucceededAt r ctx t (suc rest) n w w' e = elim (Option-cases (ctx.ctx_err w)) [
    | inr (cause, h) ↦ ground arith
    | inl live ↦ elim (Option-cases (r.issuer.revoke t w).0) [
      | inl done ↦ (w, ground arith)
      | inr (p, failed) ↦
          let paused = pause r ctx n (note_failure r t n p (r.issuer.revoke t w).1) in
          elim (Option-cases paused.0) [
            | inr (cause, h) ↦ ground arith
            | inl on ↦ attempts-SucceededAt r ctx t rest (suc n) paused.1 w' (ground arith)
          ]
    ]
  ]

  -- The issuer fails `failures w` more times with the message `problem`, and then succeeds. Nobody
  -- cancels the context, and pausing and logging change neither.
  pub record Transient (r : RetryRevoker W) (ctx : Context W) (t : IssuedToken) (problem : Text)
      (failures : W → ℕ) (events : W → List Event) : Type 0 where
    pub live : (w : W) → ctx.ctx_err w ≡ none
    pub recovers :
        (w : W)
        → failures w ≡ 0
        → (w' : W) × (r.issuer.revoke t w ≡ (none, w')) × (events w' ≡ events w)
    pub fails :
        (w : W) (k : ℕ)
        → failures w ≡ suc k
        → (w' : W) × (r.issuer.revoke t w ≡ (some problem, w'))
          × (failures w' ≡ k)
          × (events w' ≡ events w)
    pub logs :
        (w : W) (n : ℕ)
        → (failures (note_failure r t n problem w) ≡ failures w)
          × (events (note_failure r t n problem w) ≡ events w ++ log_revoke_failed t n problem ∷ [])
    pub pauses :
        (w : W) (n : ℕ)
        → (w' : W) × (pause r ctx n w ≡ (none, w'))
          × (failures w' ≡ failures w)
          × (events w' ≡ events w)

  module _ (r : RetryRevoker W) (ctx : Context W) (t : IssuedToken) (problem : Text)
      (failures : W → ℕ) (events : W → List Event)
      (v : Transient r ctx t problem failures events) where
    -- One failed attempt with its audit event and its pause.
    round :
        (rest n k : ℕ) (w : W)
        → failures w ≡ suc k
        → (w' : W) × (attempts r ctx t (suc rest) n w ≡ attempts r ctx t rest (suc n) w')
          × (failures w' ≡ k)
          × (events w' ≡ events w ++ log_revoke_failed t n problem ∷ [])
    unfolding attempts
    round rest n k w h =
        let (w1, failed, f1, e1) = v.fails w k h in
        let (w3, paused, f3, e3) = v.pauses (note_failure r t n problem w1) n in
        let noted = v.logs w1 n in
        (
          w3,
          ground (arith, v.live w),
          f3 ∙ noted.0 ∙ f1,
          e3 ∙ noted.1 ∙ ap (λ l. l ++ log_revoke_failed t n problem ∷ []) e1,
        )

    attempts_recover :
        (rest n k : ℕ) (w : W)
        → failures w ≡ k
        → k ≤ rest
        → (w' : W) × (attempts r ctx t rest n w ≡ (none, w'))
          × (events w' ≡ events w ++ failure_events t problem n k)
    unfolding failure_events attempts
    attempts_recover zero n zero w h b =
        let (w', done, same) = v.recovers w h in
        (w', ground (arith, v.live w), simp append-nil same)
    attempts_recover (suc rest) n zero w h b =
        let (w', done, same) = v.recovers w h in
        (w', ground (arith, v.live w), simp append-nil same)
    attempts_recover zero n (suc k) w h b = absurd (omega arith)
    attempts_recover (suc rest) n (suc k) w h b =
        let (w1, same, f1, e1) = round rest n k w h in
        let (w', done, logged) = attempts_recover rest (suc n) k w1 f1 (omega arith) in
        (
          w',
          same ∙ done,
          logged ∙ ap (λ l. l ++ failure_events t problem (suc n) k) e1 ∙ simp append_assoc,
        )

    -- Failures that outnumber the attempts: the last message comes back.
    attempts_exhaust :
        (rest n k : ℕ) (w : W)
        → failures w ≡ k + suc rest
        → (w' : W) × (attempts r ctx t rest n w ≡ (some problem, w'))
          × (failures w' ≡ k)
          × (events w' ≡ events w ++ failure_events t problem n (suc rest))
    unfolding failure_events attempts
    attempts_exhaust zero n k w h =
        let (w1, failed, f1, e1) = v.fails w k (omega arith) in
        let noted = v.logs w1 n in
        (
          note_failure r t n problem w1,
          ground (arith, v.live w),
          noted.0 ∙ f1,
          noted.1 ∙ ap (λ l. l ++ log_revoke_failed t n problem ∷ []) e1,
        )
    attempts_exhaust (suc rest) n k w h =
        let (w1, same, f1, e1) = round rest n (k + suc rest) w (omega arith) in
        let (w', spent, left, logged) = attempts_exhaust rest (suc n) k w1 f1 in
        (
          w',
          same ∙ spent,
          left,
          logged
              ∙ ap (λ l. l ++ failure_events t problem (suc n) (suc rest)) e1
              ∙ simp append_assoc,
        )

  -- The attempts of one call: MaxAttempts, or the default.
  abbrev pub budget : RetryRevoker W → ℕ
  budget r = pos_part (with_defaults r).max_attempts

  pub budget_pos : (r : RetryRevoker W) → 0 < budget r
  unfolding with_defaults
  budget_pos r = ground arith

  -- Revoke returns nil only when the issuer's last call succeeded: for every revoker, context and
  -- token that is not nil, the world that it leaves is the one that a successful call of the issuer
  -- for this token left.
  pub revoke-SucceededAt :
      (r : RetryRevoker W) (ctx : Context W) (t : IssuedToken) (w w' : W)
      → revoke r ctx (some t) w ≡ (none, w')
      → (at : W) × SucceededAt r t at w'
  unfolding revoke
  revoke-SucceededAt r ctx t w w' e =
      attempts-SucceededAt (with_defaults r) ctx t (budget r - 1) 1 w w' e

  module _ (r : RetryRevoker W) (ctx : Context W) (t : IssuedToken) (problem : Text)
      (failures : W → ℕ) (events : W → List Event)
      (v : Transient (with_defaults r) ctx t problem failures events) where
    -- Transient failures are absorbed: if the issuer fails fewer times than there are attempts and
    -- the context stays live, Revoke returns nil, and it has emitted exactly one revoke_failed event
    -- for each failed attempt, numbered from 1.
    pub revoke_recovers :
        (w : W)
        → failures w < budget r
        → (w' : W) × (revoke r ctx (some t) w ≡ (none, w'))
          × (events w' ≡ events w ++ failure_events t problem 1 (failures w))
    unfolding revoke
    revoke_recovers w b =
        attempts_recover (with_defaults r) ctx t problem failures events v (budget r - 1) 1
          (failures w) w refl (omega arith)

    -- If the issuer fails at least as often as there are attempts and the context stays live, Revoke
    -- makes exactly that many attempts, emits an event for each, and returns the issuer's message.
    pub revoke_exhausts :
        (w : W)
        → budget r ≤ failures w
        → (w' : W) × (revoke r ctx (some t) w ≡ (some problem, w'))
          × (failures w' ≡ failures w - budget r)
          × (events w' ≡ events w ++ failure_events t problem 1 (budget r))
    unfolding revoke
    revoke_exhausts w b =
        let pos = budget_pos r in
        let size : suc (budget r - 1) ≡ budget r = omega arith in
        subst
          (λ n.
            (w' : W) × (revoke r ctx (some t) w ≡ (some problem, w'))
            × (failures w' ≡ failures w - budget r)
            × (events w' ≡ events w ++ failure_events t problem 1 n))
          size
          (attempts_exhaust (with_defaults r) ctx t problem failures events v (budget r - 1) 1
            (failures w - budget r) w (omega arith))
