-- ===== src/Store/Lifetime.antt =====
-- Every operation of the store in any order, extensions included: what holds of a token for life.
use jit_access_broker.Prelude.{
  ℕ, zero, ◌≤◌, ◌<◌, ◌≡◌, refl, ◌∙◌, subst, true, none, some, List, arith, Option-cases, Bool-cases,
  inl, inr, Text, ltb, leb, pos, suc, [], ◌∷◌, length, str_eq_iff,
}
use Prim.Native.Nat.{max}
use jit_access_broker.Prelude.Dict.{lookup, lookup-insert}
use jit_access_broker.Models.{Instant, IssuedToken, add_time, sub_time}
use jit_access_broker.Providers.{Context}
use jit_access_broker.Store.{Store, expiry, find_live, get, add, with_origin, mark_revoked}
use jit_access_broker.Store.Extension.{
  extension_of, ceiling, move_expiry, extend_to_ceiling, extend_by_ttl, max_extensions_for_ceiling,
  extend,
}
use jit_access_broker.Store.Worker.{expire_one, popped, expire_loop, revoke_expired}
use jit_access_broker.Store.Evolution.{
  Evolves, Evolves-refl, Persists, Persists-trans, extend-Evolves, close_session-state,
  expire_one-Evolves, revoke_now-Evolves, fire_warnings-Evolves,
}
use jit_access_broker.Store.Ceiling.{reissue-SameLife, find_live-lookup}
use jit_access_broker.Store.Invariant.{with_origin_id}
use jit_access_broker.Store.History.{
  Step, adds, revokes, warns, expires, expiry-revoke_now, expiry-fire_warnings,
}

module _ {W : Type 0} where
  module _ (s : Store W) (id : Text) (a : ℕ) (now later : Instant) (w : W)
      (there : lookup id s.tokens ≡ some a) where
    by_ttl_bound :
        (b : ℕ)
        → add_time (s.memory a).expires_at s.ttl < ceiling s a
        → expiry (extend_by_ttl s id a later w).1.memory b ≤ max (expiry s.memory b) (ceiling s b)
    unfolding extend_by_ttl move_expiry
    by_ttl_bound b below =
        let e = add_time (s.memory a).expires_at s.ttl in
        let s1 = move_expiry s a e in
        elim (Option-cases (max_extensions_for_ceiling s1 a later)) [
          | inl none_left ↦ ground arith
          | inr (left, q) ↦
              let life =
                reissue-SameLife s1 id a s.ttl (extension_of a e (ceiling s a) left) w there b in
              ground (arith, life.same_expiry)
        ]

    to_ceiling_bound :
        (b : ℕ)
        → expiry (extend_to_ceiling s id a now later w).1.memory b
          ≤ max (expiry s.memory b) (ceiling s b)
    unfolding extend_to_ceiling move_expiry mark_revoked
    to_ceiling_bound b = elim (Bool-cases (leb (ceiling s a) now)) [
      | inl over ↦ ground (arith, close_session-state s a w)
      | inr open_yet ↦
          let top = ceiling s a in
          let s1 = move_expiry s a top in
          let life =
            reissue-SameLife s1 id a (sub_time top later) (extension_of a top top (pos 0)) w there
              b in
          ground (arith, life.same_expiry)
    ]

  -- However Extend ends, no token's expiry passes both what it was and the session ceiling.
  extend_bound :
      (s : Store W) (id : Text) (now later : Instant) (w : W) (b : ℕ)
      → expiry (extend s id now later w).1.memory b ≤ max (expiry s.memory b) (ceiling s b)
  unfolding extend
  extend_bound s id now later w b = elim (Option-cases (find_live s id)) [
    | inl e ↦ ground arith
    | inr (a, e) ↦
        let there = (find_live-lookup s id a e).0 in
        elim (Bool-cases (ltb (add_time (s.memory a).expires_at s.ttl) (ceiling s a))) [
          | inl h ↦ ground (arith, by_ttl_bound s id a now later w there b)
          | inr h ↦ ground (arith, to_ceiling_bound s id a now later w there b)
        ]
  ]

  -- From one state to a later one: the objects that were there persist, keep their place in the map,
  -- and none of them outlives both its expiry then and its session ceiling.
  pub record Ages (s s' : Store W) : Type 0 where
    pub same_limit : s'.max_session ≡ s.max_session
    pub same_persist : s'.persist ≡ s.persist
    pub grows : s.next ≤ s'.next
    pub each : (a : ℕ) → a < s.next → Persists (s.memory a) (s'.memory a)
    pub bound : (a : ℕ) → a < s.next → expiry s'.memory a ≤ max (expiry s.memory a) (ceiling s a)
    pub held : (id : Text) (a : ℕ) → lookup id s.tokens ≡ some a → lookup id s'.tokens ≡ some a

  same_ceiling :
      (s s' : Store W) (a : ℕ)
      → s'.max_session ≡ s.max_session
      → Persists (s.memory a) (s'.memory a)
      → ceiling s' a ≡ ceiling s a
  same_ceiling s s' a m p = rw (m, p.same_origin) refl

  Ages-trans : {s t u : Store W} → Ages s t → Ages t u → Ages s u
  Ages-trans {s} {t} {u} p q = record {
    same_limit = q.same_limit ∙ p.same_limit;
    same_persist = q.same_persist ∙ p.same_persist;
    grows = omega (arith, p.grows, q.grows);
    each = λ a b. Persists-trans (p.each a b) (q.each a (omega (arith, p.grows)));
    bound = λ a b. omega (
      arith,
      p.bound a b,
      q.bound a (omega (arith, p.grows)),
      same_ceiling s t a p.same_limit (p.each a b),
    );
    held = λ id a h. q.held id a (p.held id a h);
  }

  Evolves-Ages :
      {s s' : Store W}
      → Evolves s s'
      → ((a : ℕ) → expiry s'.memory a ≤ max (expiry s.memory a) (ceiling s a))
      → Ages s s'
  Evolves-Ages e b = record {
    same_limit = e.same_limit;
    same_persist = e.same_persist;
    grows = omega (arith, e.same_next);
    each = λ a _. e.each a;
    bound = λ a _. b a;
    held = λ id a h. rw e.same_tokens h;
  }

  Ages-refl : (s : Store W) → Ages s s
  Ages-refl s = Evolves-Ages (Evolves-refl s) (λ a. omega arith)

  popped-Ages : (s : Store W) → Ages s (popped s)
  popped-Ages s = record {
    same_limit = refl;
    same_persist = refl;
    grows = omega arith;
    each = λ a _. (Evolves-refl s).each a;
    bound = λ a _. omega arith;
    held = λ id a h. h;
  }

  expiry-expire_one :
      (s : Store W) (ctx : Context W) (id : Text) (w : W) (a : ℕ)
      → expiry (expire_one s ctx id w).0.memory a ≡ expiry s.memory a
  unfolding expire_one mark_revoked
  expiry-expire_one s ctx id w a = elim (Option-cases (find_live s id)) [
    | inl e ↦ ground arith
    | inr (b, e) ↦ ground arith
  ]

  expire_loop-Ages :
      (rounds : ℕ) (s : Store W) (ctx : Context W) (now : Instant) (w : W) (h : List ℕ)
      → s.pq ≡ h
      → Ages s (expire_loop rounds s ctx now w).0
  unfolding expire_loop
  expire_loop-Ages zero s ctx now w h e = Ages-refl s
  expire_loop-Ages (suc rounds) s ctx now w [] e = subst (Ages s) (ground arith) (Ages-refl s)
  expire_loop-Ages (suc rounds) s ctx now w (top ∷ others) e =
      elim (Bool-cases (ltb now (expiry s.memory top))) [
        | inl later ↦ subst (Ages s) (ground arith) (Ages-refl s)
        | inr over ↦
            let id = (s.memory top).id in
            let (s', w') = expire_one (popped s) ctx id w in
            let one =
              Evolves-Ages (expire_one-Evolves (popped s) ctx id w)
                (λ a. omega (arith, expiry-expire_one (popped s) ctx id w a)) in
            subst (Ages s) (ground arith) (
              Ages-trans (popped-Ages s)
                (Ages-trans one (expire_loop-Ages rounds s' ctx now w' s'.pq refl)))
      ]

  add-Ages : (s : Store W) (t : IssuedToken) → lookup t.id s.tokens ≡ none → Ages s (add s t)
  unfolding add
  add-Ages s t fresh = record {
    same_limit = refl;
    same_persist = refl;
    grows = omega arith;
    each = λ a b. ground arith;
    bound = λ a b. ground arith;
    held = λ id a h. ground (
      arith,
      with_origin_id t,
      str_eq_iff (with_origin t).id id,
      lookup-insert (with_origin t).id id s.next s.tokens,
    );
  }

  -- One operation, Extend included.
  pub data Move (s : Store W) : Store W → Type 0 where
    steps : {s' : Store W} → Step s s' → Move s s'
    extends : (id : Text) (now later : Instant) (w : W) → Move s (extend s id now later w).1

  pub data Later (s : Store W) : Store W → Type 0 where
    here : Later s s
    next : {s' s'' : Store W} → Later s s' → Move s' s'' → Later s s''

  pub Move-Ages : {s s' : Store W} → Move s s' → Ages s s'
  unfolding revoke_expired
  Move-Ages {s} (steps (adds t fresh)) = add-Ages s t fresh
  Move-Ages {s} (steps (revokes ctx id w)) =
      Evolves-Ages (revoke_now-Evolves s ctx id w)
        (λ a. omega (arith, expiry-revoke_now s ctx id w a))
  Move-Ages {s} (steps (warns now w)) =
      Evolves-Ages (fire_warnings-Evolves s now w)
        (λ a. omega (arith, expiry-fire_warnings s now w a))
  Move-Ages {s} (steps (expires ctx now w)) = expire_loop-Ages (length s.pq) s ctx now w s.pq refl
  Move-Ages {s} (extends id now later w) =
      Evolves-Ages (extend-Evolves s id now later w) (extend_bound s id now later w)

  pub Later-Ages : {s s' : Store W} → Later s s' → Ages s s'
  Later-Ages {s} here = Ages-refl s
  Later-Ages (next l m) = Ages-trans (Later-Ages l) (Move-Ages m)

  -- Revocation is for good: once the token under an id is revoked, Get answers nothing under that
  -- id after any further operations, extensions included. Tokens are added under ids that the map does
  -- not hold.
  pub get-Later :
      (s s' : Store W) (id : Text) (a : ℕ)
      → a < s.next
      → lookup id s.tokens ≡ some a
      → (s.memory a).revoked ≡ true
      → Later s s'
      → get s' id ≡ none
  unfolding get find_live
  get-Later s s' id a b there gone l =
      let h = Later-Ages l in ground (arith, h.held id a there, (h.each a b).permanent gone)

  -- The session ceiling holds for life: after any operations, in any order and however many
  -- extensions, granted or not, a token's expiry is at most the later of its expiry at the start and
  -- its session ceiling, and it still belongs to the same user and resource. Tokens are added under
  -- ids that the map does not hold.
  pub expiry-Later :
      (s s' : Store W) (a : ℕ)
      → a < s.next
      → Later s s'
      → (expiry s'.memory a ≤ max (expiry s.memory a) (ceiling s a))
        × ((s'.memory a).user ≡ (s.memory a).user)
        × ((s'.memory a).resource ≡ (s.memory a).resource)
  expiry-Later s s' a b l =
      let h = Later-Ages l in (h.bound a b, (h.each a b).same_user, (h.each a b).same_resource)
