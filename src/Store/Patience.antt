-- ===== src/Store/Patience.antt =====
-- revokeExpired of store/store.go on a heap in any order, and the tokens that are not due.
use jit_access_broker.Prelude.{
  ℕ, zero, suc, ◌≤◌, ◌<◌, ◌≡◌, refl, sym, ◌∙◌, subst, Option, some, List, [], ◌∷◌, arith, length,
  Option-cases, Bool-cases, inl, inr, Text, ltb,
}
use jit_access_broker.Prelude.Dict.{lookup}
use jit_access_broker.Models.{Instant, IssuedToken}
use jit_access_broker.Providers.{Context, TokenIssuer}
use jit_access_broker.Store.{Store, expiry, find_live, get, new}
use jit_access_broker.Store.Worker.{expire_one, popped, expire_loop, revoke_expired}
use jit_access_broker.Store.Evolution.{extend-Evolves, revoke_now-Evolves, fire_warnings-Evolves}
use jit_access_broker.Store.Invariant.{Inv, new-Inv, add-Inv, Evolves-Inv}
use jit_access_broker.Store.Expiry.{
  ExpiresAt, ExpiresAt-trans, after, round_each, round_Evolves, round-Inv,
}
use jit_access_broker.Store.History.{adds, revokes, warns, expires}
use jit_access_broker.Store.Lifetime.{Move, steps, extends, Later, here, next}

module _ {W : Type 0} where
  -- What rounds of the worker come to on a heap in any order: objects are as they were, or were due
  -- and are revoked.
  record Spared (now : Instant) (s s' : Store W) : Type 0 where
    inv : Inv s'
    same_tokens : s'.tokens ≡ s.tokens
    each : (a : ℕ) → ExpiresAt now (s.memory a) (s'.memory a)

  untouched : (s s' : Store W) (now : Instant) → Inv s → s' ≡ s → Spared now s s'
  untouched s s' now v e =
      subst (Spared now s) (sym e) (record { inv = v; same_tokens = refl; each = λ a. inl refl })

  expire_loop-Spared :
      (rounds : ℕ) (s : Store W) (ctx : Context W) (now : Instant) (w : W) (h : List ℕ)
      → s.pq ≡ h
      → Inv s
      → Spared now s (expire_loop rounds s ctx now w).0
  unfolding expire_loop
  expire_loop-Spared zero s ctx now w h e v = untouched s _ now v refl
  expire_loop-Spared (suc rounds) s ctx now w [] e v = untouched s _ now v (ground arith)
  expire_loop-Spared (suc rounds) s ctx now w (top ∷ others) e v =
      elim (Bool-cases (ltb now (expiry s.memory top))) [
        | inl later ↦ untouched s _ now v (ground arith)
        | inr over ↦
            let due : expiry s.memory top ≤ now = ground arith in
            let s' = after s ctx now w top others e due v in
            let w' = (expire_one (popped s) ctx (s.memory top).id w).1 in
            let rest =
              expire_loop-Spared rounds s' ctx now w' s'.pq refl
                (round-Inv s ctx now w top others e due v) in
            subst (Spared now s) (ground arith) (record {
              inv = rest.inv;
              same_tokens =
                  rest.same_tokens ∙ (round_Evolves s ctx now w top others e due v).same_tokens;
              each = λ a.
                  ExpiresAt-trans now (s.memory a) (s'.memory a) _
                    (round_each s ctx now w top others e due v a) (rest.each a);
            })
      ]

  revoke_expired-Spared :
      (s : Store W) (ctx : Context W) (now : Instant) (w : W)
      → Inv s
      → Spared now s (revoke_expired s ctx now w).0
  unfolding revoke_expired
  revoke_expired-Spared s ctx now w v = expire_loop-Spared (length s.pq) s ctx now w s.pq refl v

  Move-Inv : {s s' : Store W} → Move s s' → Inv s → Inv s'
  Move-Inv {s} (steps (adds t fresh)) v = add-Inv s t v fresh
  Move-Inv {s} (steps (revokes ctx id w)) v = Evolves-Inv (revoke_now-Evolves s ctx id w) v
  Move-Inv {s} (steps (warns now w)) v = Evolves-Inv (fire_warnings-Evolves s now w) v
  Move-Inv {s} (steps (expires ctx now w)) v = (revoke_expired-Spared s ctx now w v).inv
  Move-Inv {s} (extends id now later w) v = Evolves-Inv (extend-Evolves s id now later w) v

  -- Every state that a history of operations leads to satisfies the invariant.
  pub Later-Inv : {s s' : Store W} → Later s s' → Inv s → Inv s'
  Later-Inv here v = v
  Later-Inv (next l m) v = Move-Inv m (Later-Inv l v)

  -- The worker never revokes early: after any history of operations on an empty store, extensions
  -- included, revokeExpired leaves a token that Get answers and that expires after `now` as it is.
  -- Tokens are added under ids that the map does not hold.
  pub get-revoke_expired-Later :
      (i : Option (TokenIssuer W)) (s : Store W) (ctx : Context W) (now : Instant) (w : W)
      (id : Text) (t : IssuedToken)
      → Later (new i) s
      → get s id ≡ some t
      → now < t.expires_at
      → get (revoke_expired s ctx now w).0 id ≡ some t
  unfolding get find_live
  get-revoke_expired-Later i s ctx now w id t l found early =
      let h = revoke_expired-Spared s ctx now w (Later-Inv l (new-Inv i)) in
      elim (Option-cases (lookup id s.tokens)) [
        | inl e ↦ absurd (ground arith)
        | inr (a, e) ↦ ground (arith, h.same_tokens, h.each a)
      ]
