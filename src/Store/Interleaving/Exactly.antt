-- ===== src/Store/Interleaving/Exactly.antt =====
-- Goroutines on one store: a token is revoked at its provider exactly once, whoever interleaves.
use mathlib.Core.List.{mem-cons_self}
use jit_access_broker.Prelude.{
  ℕ, ◌+◌, ◌<◌, ◌≡◌, refl, sym, subst, true, Option, none, some, List, [], ◌∷◌, length, List-cases,
  arith, Option-cases, Bool-cases, inl, inr, ◌⊎◌, Text, ltb, leb, if◌then◌else◌,
}
use jit_access_broker.Models.{Instant, add_time}
use jit_access_broker.Providers.{TokenIssuer}
use jit_access_broker.Store.{Store, find_live, mark_revoked, new}
use jit_access_broker.Store.Extension.{ceiling, move_expiry, max_extensions_for_ceiling}
use jit_access_broker.Store.Worker.{popped}
use jit_access_broker.Store.Ceiling.{find_live-lookup}
use jit_access_broker.Store.Evolution.{
  mark_revoked-Evolves, move_expiry-Evolves, fire_warnings-Evolves, store_value-Evolves,
}
use jit_access_broker.Store.Expiry.{popped-Inv}
use jit_access_broker.Store.Interleaving.Once.{
  count, Once, Once-same, Once-mark, Once-Taken, Once-add, claim-cases, claim-Evolves,
  move_expiry-Once, store_value-Once, fire_warnings-Once,
}
use jit_access_broker.Store.Invariant.{Inv, new-Inv, add-Inv, Evolves-Inv}
use jit_access_broker.Store.Sections.{
  gone, panicked, closes, renews, claim, claim_due, begin_extend,
}
use jit_access_broker.Store.Interleaving.{
  Threads, idle, claimed, begun, Turn, adds, revokes, expires, warns, extends, renewed, unrenewed,
  calls, Turns, still, turn, Interleaved,
}

module _ {W : Type 0} where
  abbrev Settled : Threads W → Type 0
  Settled c = Once c.store c.to_revoke c.revoke_calls

  -- What a turn of the goroutines keeps.
  record Exact (c : Threads W) : Type 0 where
    inv : Inv c.store
    exact : Settled c

  live-next : (s : Store W) (id : Text) (a : ℕ) → Inv s → find_live s id ≡ some a → a < s.next
  live-next s id a v found = v.mapped id a (find_live-lookup s id a found).0

  claimed-Settled :
      (c : Threads W) (s : Store W) (id : Text)
      → ((a : ℕ) → find_live s id ≡ some a → a < s.next)
      → Once s c.to_revoke c.revoke_calls
      → Settled (claimed c (claim s id))
  claimed-Settled c s id here o = elim (claim-cases s id) [
    | inl e ↦ subst (λ r. Settled (claimed c r)) (sym e) o
    | inr (a, found, e) ↦
        subst (λ r. Settled (claimed c r)) (sym e)
          (Once-mark s a (find_live-lookup s id a found).1 (here a found) o)
  ]

  claimed-store : (c : Threads W) (r : Option ℕ × Store W) → (claimed c r).store ≡ r.1
  claimed-store c (none, s) = refl
  claimed-store c (some a, s) = refl

  revokes-Exact : (c : Threads W) (id : Text) → Exact c → Exact (claimed c (claim c.store id))
  revokes-Exact c id v = record {
    inv =
        subst Inv (sym (claimed-store c (claim c.store id)))
          (Evolves-Inv (claim-Evolves c.store id) v.inv);
    exact = claimed-Settled c c.store id (λ a. live-next c.store id a v.inv) v.exact;
  }

  claim_due-round :
      (s : Store W) (now : Instant) (r : Option ℕ × Store W)
      → claim_due s now ≡ some r
      → (top : ℕ) × (others : List ℕ) × (s.pq ≡ top ∷ others)
        × (r ≡ claim (popped s) (s.memory top).id)
  unfolding claim_due
  claim_due-round s now r e = elim (List-cases s.pq) [
    | inl q ↦ absurd (ground arith)
    | inr (top, others, q) ↦ elim (Bool-cases (ltb now (s.memory top).expires_at)) [
      | inl later ↦ absurd (ground arith)
      | inr over ↦ (top, others, q, ground arith)
    ]
  ]

  module _ (c : Threads W) (top : ℕ) (others : List ℕ) (q : c.store.pq ≡ top ∷ others)
      (v : Exact c) where
    top_revoked : ((claim (popped c.store) (c.store.memory top).id).1.memory top).revoked ≡ true
    unfolding claim find_live mark_revoked
    top_revoked = ground (arith, v.inv.aligned top (rw q mem-cons_self))

    round-Exact : Exact (claimed c (claim (popped c.store) (c.store.memory top).id))
    unfolding find_live
    round-Exact = record {
      inv = subst Inv (sym (claimed-store c (claim (popped c.store) (c.store.memory top).id))) (
          popped-Inv c.store top others q (claim (popped c.store) (c.store.memory top).id).1
            (claim-Evolves (popped c.store) (c.store.memory top).id) top_revoked v.inv);
      exact =
          claimed-Settled c (popped c.store) (c.store.memory top).id
            (λ a h. live-next c.store (c.store.memory top).id a v.inv h)
            (Once-same c.store (popped c.store) refl refl (λ a. refl) v.exact);
    }

  -- What the first section of Extend does.
  begin_extend-cases :
      (s : Store W) (id : Text) (now later : Instant)
      → (begin_extend s id now later ≡ (gone, s))
        ⊎ ((a : ℕ) × (find_live s id ≡ some a)
            × ((begin_extend s id now later ≡ (closes a, mark_revoked s a))
                ⊎ ((e : Instant) × ((begin_extend s id now later ≡ (renews a, move_expiry s a e))
                      ⊎ (begin_extend s id now later ≡ (panicked, move_expiry s a e))))))
  unfolding begin_extend
  begin_extend-cases s id now later = elim (Option-cases (find_live s id)) [
    | inl e ↦ inl (ground arith)
    | inr (a, e) ↦
        let top = ceiling s a in
        let expires = add_time (s.memory a).expires_at s.ttl in
        inr (
          a,
          e,
          elim (Bool-cases (ltb expires top)) [
            | inl below ↦ inr (
              expires,
              elim (Option-cases (max_extensions_for_ceiling (move_expiry s a expires) a later)) [
                | inl p ↦ inr (ground arith)
                | inr (left, p) ↦ inl (ground arith)
              ],
            )
            | inr above ↦ elim (Bool-cases (leb top now)) [
              | inl over ↦ inl (ground arith)
              | inr open_yet ↦ inr (top, inl (ground arith))
            ]
          ],
        )
  ]

  extends-Exact :
      (c : Threads W) (id : Text) (now later : Instant)
      → Exact c
      → Exact (begun c id (begin_extend c.store id now later))
  extends-Exact c id now later v = elim (begin_extend-cases c.store id now later) [
    | inl e ↦ subst (λ r. Exact (begun c id r)) (sym e) (record { inv = v.inv; exact = v.exact })
    | inr (a, found, inl e) ↦
        subst (λ r. Exact (begun c id r)) (sym e)
          (record {
            inv = Evolves-Inv (mark_revoked-Evolves c.store a) v.inv;
            exact =
                Once-mark c.store a (find_live-lookup c.store id a found).1
                  (live-next c.store id a v.inv found) v.exact;
          })
    | inr (a, found, inr (x, inl e)) ↦
        subst (λ r. Exact (begun c id r)) (sym e)
          (record {
            inv = Evolves-Inv (move_expiry-Evolves c.store a x) v.inv;
            exact = move_expiry-Once c.store a x v.exact;
          })
    | inr (a, found, inr (x, inr e)) ↦
        subst (λ r. Exact (begun c id r)) (sym e)
          (record {
            inv = Evolves-Inv (move_expiry-Evolves c.store a x) v.inv;
            exact = move_expiry-Once c.store a x v.exact;
          })
  ]

  Turn-Exact : {c d : Threads W} → Turn c d → Exact c → Exact d
  Turn-Exact {c} (adds t fresh live) v = record {
    inv = add-Inv c.store t v.inv fresh;
    exact = Once-add c.store t live v.exact;
  }
  Turn-Exact {c} (revokes id) v = revokes-Exact c id v
  Turn-Exact {c} (expires now r e) v =
      let (top, others, q, h) = claim_due-round c.store now r e in
      subst (λ r. Exact (claimed c r)) (sym h) (round-Exact c top others q v)
  Turn-Exact {c} (warns now w) v = record {
    inv = Evolves-Inv (fire_warnings-Evolves c.store now w) v.inv;
    exact = fire_warnings-Once c.store now w v.exact;
  }
  Turn-Exact {c} (extends id now later) v = extends-Exact c id now later v
  Turn-Exact {c} (renewed id value taken) v = record {
    inv = Evolves-Inv (store_value-Evolves c.store id value) v.inv;
    exact = store_value-Once c.store id value v.exact;
  }
  Turn-Exact (unrenewed id taken) v = record { inv = v.inv; exact = v.exact }
  Turn-Exact {c} (calls a taken) v = record {
    inv = v.inv;
    exact = Once-Taken c.store a taken v.exact;
  }

  start-Exact : (i : Option (TokenIssuer W)) → Exact (idle (new i) [])
  unfolding new
  start-Exact i = record {
    inv = new-Inv i;
    exact = record { known = λ a r. absurd cc; once = λ a. refl; counted = refl };
  }

  Turns-Exact : {c d : Threads W} → Turns c d → Exact c → Exact d
  Turns-Exact still v = v
  Turns-Exact (turn l t) v = Turn-Exact t (Turns-Exact l v)

-- Revocation happens exactly once, however goroutines that call Add, RevokeNow, Extend, fireWarnings
-- and revokeExpired interleave at the store's mutex: at every moment a token that is marked as revoked
-- has one call of the provider's Revoke, either made or about to be made by the goroutine that marked
-- it, a token that is not marked has none, and RevokedCount is the number of these calls. The map and
-- the heap agree all along, so that no live token is lost to the worker. Tokens are added
-- unrevoked and under ids that the map does not hold.
pub revoke_calls-Interleaved :
    {W : Type 0} (i : Option (TokenIssuer W)) (c : Threads W)
    → Interleaved i c
    → Inv c.store
      × ((a : ℕ)
          → count a c.to_revoke + count a c.revoke_calls
            ≡ (if (c.store.memory a).revoked then 1 else 0))
      × (c.store.revoked_count ≡ length c.to_revoke + length c.revoke_calls)
revoke_calls-Interleaved i c run =
    let v = Turns-Exact run (start-Exact i) in (v.inv, v.exact.once, v.exact.counted)
