-- ===== src/Store/History.antt =====
-- Histories of the store: the operations but Extend in any order, each in any world and at any time.
use jit_access_broker.Prelude.{
  ℕ, ◌≡◌, sym, subst, Option, none, arith, Option-cases, inl, inr, Text,
}
use jit_access_broker.Prelude.Dict.{lookup}
use jit_access_broker.Models.{Instant, IssuedToken}
use jit_access_broker.Providers.{Context, TokenIssuer}
use jit_access_broker.Store.{
  Store, write, expiry, find_live, get, with_origin, new, add, revoke_now, mark_revoked,
}
use jit_access_broker.Store.Worker.{fire_warnings, revoke_expired}
use jit_access_broker.Store.Heap.Order.{IsHeap, IsHeap-congr}
use jit_access_broker.Store.Heap.Laws.{push-IsHeap}
use jit_access_broker.Store.Evolution.{
  Evolves, revoke_now-Evolves, fire_warnings-Evolves, mark_due-WarnsAt,
}
use jit_access_broker.Store.Invariant.{Inv, new-Inv, add-Inv, Evolves-Inv}
use jit_access_broker.Store.Expiry.{IsOrdered, revoke_expired-Swept, get-revoke_expired, unexpired}

module _ {W : Type 0} where
  -- A token is added under an id that the map does not hold: ids are random.
  pub data Step (s : Store W) : Store W → Type 0 where
    adds : (t : IssuedToken) → lookup t.id s.tokens ≡ none → Step s (add s t)
    revokes : (ctx : Context W) (id : Text) (w : W) → Step s (revoke_now s ctx id w).1
    warns : (now : Instant) (w : W) → Step s (fire_warnings s now w).0
    expires : (ctx : Context W) (now : Instant) (w : W) → Step s (revoke_expired s ctx now w).0

  -- The operations but Extend, from an empty store.
  pub data Reach (i : Option (TokenIssuer W)) : Store W → Type 0 where
    start : Reach i (new i)
    next : {s s' : Store W} → Reach i s → Step s s' → Reach i s'

  -- The heap's order survives the operations that move no expiry.
  pub record Sound (s : Store W) : Type 0 where
    pub inv : Inv s
    pub ordered : IsOrdered s

  same-IsOrdered :
      (s s' : Store W)
      → Evolves s s'
      → ((a : ℕ) → expiry s'.memory a ≡ expiry s.memory a)
      → IsOrdered s
      → IsOrdered s'
  same-IsOrdered s s' e same o =
      subst (IsHeap (expiry s'.memory)) (sym e.same_pq)
        (IsHeap-congr (expiry s.memory) (expiry s'.memory) s.pq (λ a m. same a) o)

  pub expiry-revoke_now :
      (s : Store W) (ctx : Context W) (id : Text) (w : W) (a : ℕ)
      → expiry (revoke_now s ctx id w).1.memory a ≡ expiry s.memory a
  unfolding revoke_now mark_revoked
  expiry-revoke_now s ctx id w a = elim (Option-cases (find_live s id)) [
    | inl e ↦ ground arith
    | inr (b, e) ↦ ground arith
  ]

  pub expiry-fire_warnings :
      (s : Store W) (now : Instant) (w : W) (a : ℕ)
      → expiry (fire_warnings s now w).0.memory a ≡ expiry s.memory a
  unfolding fire_warnings
  expiry-fire_warnings s now w a =
      ground (arith, mark_due-WarnsAt s.warning_before now s.tokens s.memory a)

  -- Adding a token keeps the heap in order: the heap holds only older objects.
  pub add-IsOrdered : (s : Store W) (t : IssuedToken) → Inv s → IsOrdered s → IsOrdered (add s t)
  unfolding add
  add-IsOrdered s t v o =
      let m = write s.memory s.next (with_origin t) in
      push-IsHeap (expiry m) s.pq s.next
        (IsHeap-congr (expiry s.memory) (expiry m) s.pq (λ a q. ground (arith, v.queued a q)) o)

  Step-Sound : {s s' : Store W} → Step s s' → Sound s → Sound s'
  Step-Sound {s} (adds t fresh) v = record {
    inv = add-Inv s t v.inv fresh;
    ordered = add-IsOrdered s t v.inv v.ordered;
  }
  Step-Sound {s} (revokes ctx id w) v = record {
    inv = Evolves-Inv (revoke_now-Evolves s ctx id w) v.inv;
    ordered =
        same-IsOrdered s _ (revoke_now-Evolves s ctx id w) (expiry-revoke_now s ctx id w) v.ordered;
  }
  Step-Sound {s} (warns now w) v = record {
    inv = Evolves-Inv (fire_warnings-Evolves s now w) v.inv;
    ordered =
        same-IsOrdered s _ (fire_warnings-Evolves s now w) (expiry-fire_warnings s now w) v.ordered;
  }
  Step-Sound {s} (expires ctx now w) v =
      let h = revoke_expired-Swept s ctx now w v.inv v.ordered in
      record { inv = h.inv; ordered = h.ordered }

  new-IsOrdered : (i : Option (TokenIssuer W)) → IsOrdered (new i)
  unfolding new
  new-IsOrdered i c c0 b = absurd (omega arith)

  pub Reach-Sound : {i : Option (TokenIssuer W)} {s : Store W} → Reach i s → Sound s
  Reach-Sound {i} start = record { inv = new-Inv i; ordered = new-IsOrdered i }
  Reach-Sound (next r st) = Step-Sound st (Reach-Sound r)

  -- After any history without extensions, a tick of the worker leaves exactly the unexpired tokens:
  -- for every id, Get answers after revokeExpired what it answered before, less the tokens whose
  -- expiry is not after `now`. Tokens are added under ids that the map does not hold.
  pub get-revoke_expired-Reach :
      (i : Option (TokenIssuer W)) (s : Store W) (ctx : Context W) (now : Instant) (w : W)
      (id : Text)
      → Reach i s
      → get (revoke_expired s ctx now w).0 id ≡ unexpired now (get s id)
  get-revoke_expired-Reach i s ctx now w id r =
      let v = Reach-Sound r in get-revoke_expired s ctx now w id v.inv v.ordered
