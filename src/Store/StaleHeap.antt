-- ===== src/Store/StaleHeap.antt =====
-- Extend writes the new expiry into an object that stands in the expiry heap, and does not restore
-- the heap's order.
use jit_access_broker.Prelude.{
  ℕ, ◌<◌, ◌≡◌, ◌≢◌, sym, subst, ◌∙◌, ap, true, some, List, ◌∷◌, arith, length, Text,
}
use jit_access_broker.Models.{Instant}
use jit_access_broker.Providers.{Context}
use jit_access_broker.Store.{Store, find_live, get, expiry}
use jit_access_broker.Store.Extension.{ExtendResult, extend}
use jit_access_broker.Store.Worker.{revoke_expired, expire_loop}
use jit_access_broker.Store.Evolution.{extend-Evolves}
use jit_access_broker.Store.Ceiling.{extend-Granted}

module _ {W : Type 0} where
  -- The worker looks no further than an entry on top that is not due.
  revoke_expired-blocked :
      (s : Store W) (ctx : Context W) (now : Instant) (w : W) (top : ℕ) (others : List ℕ)
      → s.pq ≡ top ∷ others
      → now < expiry s.memory top
      → (revoke_expired s ctx now w).0 ≡ s
  unfolding revoke_expired expire_loop
  revoke_expired-blocked s ctx now w top others e h = ground (arith, ap length e)

  module _ (s : Store W) (id other : Text) (a b : ℕ) (rest : List ℕ) (now later tick : Instant)
      (w w' : W) (r : ExtendResult) (ctx : Context W) where
    -- An extended token on top of the heap hides the others: after a granted extension of the token
    -- that is due first, revokeExpired run at any instant before that token's new expiry leaves
    -- every other live token live, those that have expired by then included.
    pub extend_hides_expired :
        s.pq ≡ a ∷ rest
        → find_live s id ≡ some a
        → find_live s other ≡ some b
        → b ≢ a
        → (extend s id now later w).0 ≡ some r
        → r.extended ≡ true
        → tick < r.new_expires_at
        → get (revoke_expired (extend s id now later w).1 ctx tick w').0 other ≡ some (s.memory b)
    unfolding get find_live
    extend_hides_expired front found found_other ne granted yes_extended early =
        let s' = (extend s id now later w).1 in
        let g = extend-Granted s id a now later w r found granted yes_extended in
        let e = extend-Evolves s id now later w in
        let same =
          revoke_expired-blocked s' ctx tick w' a rest (e.same_pq ∙ front)
            (ground (arith, g.told)) in
        subst (λ t. get t other ≡ some (s.memory b)) (sym same)
          (ground (arith, e.same_tokens, g.others b ne))
