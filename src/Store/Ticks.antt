-- ===== src/Store/Ticks.antt =====
-- Run of store/store.go on the instants of its ticker.
use jit_access_broker.Prelude.{
  ◌≤◌, ◌≡◌, ◌↔◌, ◌∙◌, ap, refl, Option, none, some, List, [], ◌∷◌, arith, Bool-cases, inl, inr, ltb,
  Text, In, ℤ, true, false,
}
use jit_access_broker.Models.{Instant, IssuedToken}
use jit_access_broker.Providers.{Context, TokenIssuer}
use jit_access_broker.Store.{Store, get}
use jit_access_broker.Store.Worker.{tick, run, fire_warnings}
use jit_access_broker.Store.Expiry.{unexpired}
use jit_access_broker.Store.History.{Reach, next, warns, expires, get-revoke_expired-Reach}
use jit_access_broker.Store.Sessions.{mark_some, marked}
use jit_access_broker.Store.Refinement.{get-fire_warnings}

-- One of the instants is at or after the other.
abbrev pub Passed : Instant → List Instant → Type 0
Passed e nows = (now : Instant) × In now nows × (e ≤ now)

Passed-tail :
    (e now : Instant) (nows : List Instant)
    → ltb now e ≡ true
    → Passed e (now ∷ nows)
    → Passed e nows
Passed-tail e now nows early (n, inl q, h) = absurd (ground arith)
Passed-tail e now nows early (n, inr m, h) = (n, m, h)

module _ {W : Type 0} (i : Option (TokenIssuer W)) (ctx : Context W) where
  tick-Reach : (s : Store W) (now : Instant) (w : W) → Reach i s → Reach i (tick s ctx now w).0
  unfolding tick
  tick-Reach s now w r =
      let (s', w') = fire_warnings s now w in next (next r (warns now w)) (expires ctx now w')

  -- A tick marks what is due and drops what has expired.
  get-tick :
      (s : Store W) (now : Instant) (w : W) (id : Text)
      → Reach i s
      → get (tick s ctx now w).0 id ≡ unexpired now (mark_some s.warning_before now (get s id))
  unfolding tick
  get-tick s now w id r =
      let (s', w') = fire_warnings s now w in
      get-revoke_expired-Reach i s' ctx now w' id (next r (warns now w))
      ∙ ap (unexpired now) (get-fire_warnings s now w id)

  get-run-none :
      (s : Store W) (nows : List Instant) (w : W) (id : Text)
      → Reach i s
      → get s id ≡ none
      → get (run s ctx nows w).0 id ≡ none
  unfolding run
  get-run-none s [] w id r e = e
  get-run-none s (now ∷ nows) w id r e =
      let (s', w') = tick s ctx now w in
      get-run-none s' nows w' id (tick-Reach s now w r)
        (get-tick s now w id r ∙ ap (λ o. unexpired now (mark_some s.warning_before now o)) e)

  -- Before a token's expiry a tick leaves it but for its mark, from then on it ends the token.
  get-tick_early :
      (s : Store W) (now : Instant) (w : W) (id : Text) (t : IssuedToken)
      → Reach i s
      → get s id ≡ some t
      → ltb now t.expires_at ≡ true
      → get (tick s ctx now w).0 id ≡ some (marked s.warning_before now t)
  get-tick_early s now w id t r found early = ground (arith, get-tick s now w id r)

  get-tick_late :
      (s : Store W) (now : Instant) (w : W) (id : Text) (t : IssuedToken)
      → Reach i s
      → get s id ≡ some t
      → ltb now t.expires_at ≡ false
      → get (tick s ctx now w).0 id ≡ none
  get-tick_late s now w id t r found late = ground (arith, get-tick s now w id r)

  marked_expiry :
      (window : ℤ) (now : Instant) (t : IssuedToken)
      → (marked window now t).expires_at ≡ t.expires_at
  marked_expiry window now t = ground arith

  -- The worker ends each session on time: from any history of Add, RevokeNow, fireWarnings and
  -- revokeExpired on an empty store, and for a token that Get answers, Run leaves nothing under its id
  -- exactly if one of the instants that the ticker has sent is at or after the token's expiry. Tokens
  -- are added under ids that the map does not hold.
  pub get-run-none_iff :
      (s : Store W) (nows : List Instant) (w : W) (id : Text) (t : IssuedToken)
      → Reach i s
      → get s id ≡ some t
      → (get (run s ctx nows w).0 id ≡ none) ↔ Passed t.expires_at nows
  unfolding run
  get-run-none_iff s [] w id t r found = (λ e. absurd (ground arith), λ (n, m, h). absurd m)
  get-run-none_iff s (now ∷ nows) w id t r found =
      let (s', w') = tick s ctx now w in
      let r' = tick-Reach s now w r in
      elim (Bool-cases (ltb now t.expires_at)) [
        | inl early ↦
            let t' = marked s.warning_before now t in
            let rest =
              get-run-none_iff s' nows w' id t' r' (get-tick_early s now w id t r found early) in
            let same = marked_expiry s.warning_before now t in
            (
              λ e. let (n, m, h) = rest.0 e in (n, inr m, omega (arith, same)),
              λ p.
                  let (n, m, h) = Passed-tail t.expires_at now nows early p in
                  rest.1 (n, m, omega (arith, same)),
            )
        | inr late ↦ (
          λ e. (now, inl refl, ground arith),
          λ p. get-run-none s' nows w' id r' (get-tick_late s now w id t r found late),
        )
      ]
