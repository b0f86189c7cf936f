-- ===== src/Store/Expiry.antt =====
-- revokeExpired of store/store.go, round by round, on a heap in order.
use mathlib.Core.List.{Mem, Mem-prop, Perm, mem-cons, not-mem-nil, mem-cons_self, mem-cons_of_mem}
use mathlib.Core.List.Perm
use mathlib.Core.Logic.Or
use jit_access_broker.Prelude.{
  ℕ, zero, suc, ◌≤◌, ◌<◌, ◌≡◌, refl, sym, subst, ◌∙◌, ap, true, false, Option, none, some, List, [],
  ◌∷◌, length, arith, Option-cases, Bool-cases, inl, inr, ◌⊎◌, Text, ltb, if◌then◌else◌,
}
use jit_access_broker.Prelude.Dict.{lookup}
use jit_access_broker.Models.{Instant, IssuedToken}
use jit_access_broker.Providers.{Context}
use jit_access_broker.Store.{Store, expiry, find_live, get, mark_revoked}
use jit_access_broker.Store.Heap.{at}
use jit_access_broker.Store.Heap.Order.{IsHeap, IsHeap-congr, root_least_of_mem, length-perm}
use jit_access_broker.Store.Heap.Laws.{pop-IsHeap, pop-perm}
use jit_access_broker.Store.Worker.{expire_one, popped, expire_loop, revoke_expired}
use jit_access_broker.Store.Evolution.{Evolves, expire_one-Evolves}
use jit_access_broker.Store.Invariant.{Inv}

-- What the worker does at `now` to a token: nothing, or the revocation of a live expired one.
abbrev pub ExpiresAt : Instant → IssuedToken → IssuedToken → Type 0
ExpiresAt now t t' =
    (t' ≡ t) ⊎ ((t.revoked ≡ false) × (t.expires_at ≤ now) × (t' ≡ record t { revoked = true }))

pub ExpiresAt-trans :
    (now : Instant) (t u v : IssuedToken)
    → ExpiresAt now t u
    → ExpiresAt now u v
    → ExpiresAt now t v
ExpiresAt-trans now t u v p q = ground arith

-- The answer of Get that is left once everything expired at `now` is gone.
abbrev pub unexpired : Instant → Option IssuedToken → Option IssuedToken
unexpired now none = none
unexpired now (some t) = if ltb now t.expires_at then some t else none

module _ {W : Type 0} where
  -- The heap is ordered by the tokens' present expiries.
  abbrev pub IsOrdered : Store W → Type 0
  IsOrdered s = IsHeap (expiry s.memory) s.pq

  -- A round pops the top of the heap, and the token there ends up as revoked.
  module _ (s : Store W) (top : ℕ) (others : List ℕ) (front : s.pq ≡ top ∷ others) where
    nonempty : 0 < length s.pq
    nonempty = ground (arith, ap length front)

    popped-perm : Perm (top ∷ (popped s).pq) s.pq
    popped-perm =
        subst (λ x. Perm (x ∷ (popped s).pq) s.pq) (ap (λ h. at h 0) front)
          (pop-perm (expiry s.memory) s.pq nonempty)

    module _ (s' : Store W) (e : Evolves (popped s) s') where
      still_queued : (a : ℕ) → Mem a s'.pq → Mem a s.pq
      still_queued a m =
          (Perm.mem_iff popped-perm).0 (mem-cons_of_mem top (subst (Mem a) e.same_pq m))

      pub popped-Inv : (s'.memory top).revoked ≡ true → Inv s → Inv s'
      popped-Inv over v = record {
        keyed = rw e.same_tokens v.keyed;
        mapped = λ id a h. rw e.same_next (v.mapped id a (rw e.same_tokens at h));
        queued = λ a m. rw e.same_next (v.queued a (still_queued a m));
        named = λ id a h. (e.each a).same_id ∙ v.named id a (rw e.same_tokens at h);
        aligned = λ a m. rw (e.same_tokens, (e.each a).same_id) (v.aligned a (still_queued a m));
        tracked = λ id a h live. subst (Mem a) (sym e.same_pq) (
            Or.elim Mem-prop
              (mem-cons.0 (
                (Perm.mem_iff popped-perm).1
                  (v.tracked id a (rw e.same_tokens at h) (ground (arith, (e.each a).permanent)))))
              (λ q. ground (arith, over)) (λ m. m));
      }

  module _ (s : Store W) (ctx : Context W) (now : Instant) (w : W) (top : ℕ) (others : List ℕ)
      (front : s.pq ≡ top ∷ others) (over : expiry s.memory top ≤ now) (v : Inv s) where
    abbrev pub after : Store W
    after = (expire_one (popped s) ctx (s.memory top).id w).0

    front-mem : Mem top s.pq
    front-mem = rw front mem-cons_self

    -- The round keeps the map and the supply, and its heap is the popped one.
    pub round_Evolves : Evolves (popped s) after
    round_Evolves = expire_one-Evolves (popped s) ctx (s.memory top).id w

    pub round_each : (a : ℕ) → ExpiresAt now (s.memory a) (after.memory a)
    unfolding expire_one find_live mark_revoked
    round_each a = ground (arith, v.aligned top front-mem)

    round_top : (after.memory top).revoked ≡ true
    unfolding expire_one find_live mark_revoked
    round_top = ground (arith, v.aligned top front-mem)

    same_expiry : (a : ℕ) → expiry after.memory a ≡ expiry s.memory a
    same_expiry a = ground (arith, round_each a)

    pub round-IsOrdered : IsOrdered s → IsOrdered after
    round-IsOrdered o = subst (IsHeap (expiry after.memory)) (sym round_Evolves.same_pq) (
        IsHeap-congr (expiry s.memory) (expiry after.memory) (popped s).pq (λ a m. same_expiry a)
          (pop-IsHeap (expiry s.memory) s.pq (nonempty s top others front) o))

    pub round_shorter : suc (length after.pq) ≡ length s.pq
    round_shorter =
        ap (λ h. suc (length h)) round_Evolves.same_pq
        ∙ length-perm (popped-perm s top others front)

    pub round-Inv : Inv after
    round-Inv = popped-Inv s top others front after round_Evolves round_top v

  -- What the rounds up to `s'` come to.
  pub record Swept (now : Instant) (s s' : Store W) : Type 0 where
    pub inv : Inv s'
    pub ordered : IsOrdered s'
    pub same_tokens : s'.tokens ≡ s.tokens
    pub each : (a : ℕ) → ExpiresAt now (s.memory a) (s'.memory a)
    pub clear : (a : ℕ) → Mem a s'.pq → now < expiry s'.memory a

  quiet :
      (s : Store W) (now : Instant)
      → Inv s
      → IsOrdered s
      → ((a : ℕ) → Mem a s.pq → now < expiry s.memory a)
      → Swept now s s
  quiet s now v o c = record {
    inv = v;
    ordered = o;
    same_tokens = refl;
    each = λ a. inl refl;
    clear = c;
  }

  arrive : {now : Instant} {s s' t : Store W} → t ≡ s' → Swept now s s' → Swept now s t
  arrive {now} {s} e h = subst (Swept now s) (sym e) h

  expire_loop-Swept :
      (rounds : ℕ) (s : Store W) (ctx : Context W) (now : Instant) (w : W) (h : List ℕ)
      → s.pq ≡ h
      → length s.pq ≤ rounds
      → Inv s
      → IsOrdered s
      → Swept now s (expire_loop rounds s ctx now w).0
  unfolding expire_loop
  expire_loop-Swept zero s ctx now w [] e b v o =
      quiet s now v o (λ a m. absurd (not-mem-nil (rw e at m)))
  expire_loop-Swept zero s ctx now w (top ∷ others) e b v o = absurd (omega (arith, ap length e))
  expire_loop-Swept (suc rounds) s ctx now w [] e b v o =
      arrive (ground arith) (quiet s now v o (λ a m. absurd (not-mem-nil (rw e at m))))
  expire_loop-Swept (suc rounds) s ctx now w (top ∷ others) e b v o =
      elim (Bool-cases (ltb now (expiry s.memory top))) [
        | inl later ↦ arrive (ground arith) (
            quiet s now v o λ a m.
              ground (arith, ap (λ h. at h 0) e, root_least_of_mem (expiry s.memory) s.pq a o m))
        | inr over ↦
            let due : expiry s.memory top ≤ now = ground arith in
            let s' = after s ctx now w top others e due v in
            let w' = (expire_one (popped s) ctx (s.memory top).id w).1 in
            let rest =
              expire_loop-Swept rounds s' ctx now w' s'.pq refl
                (omega (arith, round_shorter s ctx now w top others e due v))
                (round-Inv s ctx now w top others e due v)
                (round-IsOrdered s ctx now w top others e due v o) in
            arrive (ground arith) (record {
              inv = rest.inv;
              ordered = rest.ordered;
              same_tokens =
                  rest.same_tokens ∙ (round_Evolves s ctx now w top others e due v).same_tokens;
              each = λ a.
                  ExpiresAt-trans now (s.memory a) (s'.memory a) _
                    (round_each s ctx now w top others e due v a) (rest.each a);
              clear = rest.clear;
            })
      ]

  pub revoke_expired-Swept :
      (s : Store W) (ctx : Context W) (now : Instant) (w : W)
      → Inv s
      → IsOrdered s
      → Swept now s (revoke_expired s ctx now w).0
  unfolding revoke_expired
  revoke_expired-Swept s ctx now w v o =
      expire_loop-Swept (length s.pq) s ctx now w s.pq refl (omega arith) v o

  -- On a store whose heap is in order, revokeExpired revokes every expired token and no other: for
  -- every id, Get answers afterwards what it answered before, less the tokens whose expiry is not
  -- after `now`.
  pub get-revoke_expired :
      (s : Store W) (ctx : Context W) (now : Instant) (w : W) (id : Text)
      → Inv s
      → IsOrdered s
      → get (revoke_expired s ctx now w).0 id ≡ unexpired now (get s id)
  unfolding get find_live
  get-revoke_expired s ctx now w id v o =
      let s' = (revoke_expired s ctx now w).0 in
      let h = revoke_expired-Swept s ctx now w v o in
      elim (Option-cases (lookup id s.tokens)) [
        | inl e ↦ ground (arith, h.same_tokens)
        | inr (a, e) ↦
            let there : lookup id s'.tokens ≡ some a = rw h.same_tokens e in
            elim (h.each a) [
              | inr (live, over, changed) ↦ ground arith
              | inl same ↦ elim (Bool-cases (s.memory a).revoked) [
                | inl gone ↦ ground arith
                | inr live ↦ ground (arith, h.clear a (h.inv.tracked id a there (ground arith)))
              ]
            ]
      ]
