-- ===== src/Store/Evolution.antt =====
-- How the operations of store/store.go may change a token: its owner, its session and its revocation.
use jit_access_broker.Prelude.{
  ℕ, ◌≡◌, refl, sym, subst, ◌∙◌, true, false, List, [], ◌∷◌, arith, Option-cases, Bool-cases, inl,
  inr, ◌⊎◌, Text, ltb, leb, ℤ, pos, ◌==◌,
}
use jit_access_broker.Prelude.Dict.{lookup}
use jit_access_broker.Models.{Instant, IssuedToken, add_time, sub_time}
use jit_access_broker.Providers.{Result-cases, Context}
use jit_access_broker.Store.{Store, Memory, write, find_live, mark_revoked, revoke_now}
use jit_access_broker.Store.Extension.{
  ExtendResult, extension_of, ceiling, move_expiry, store_value, reissue, close_session,
  extend_to_ceiling, extend_by_ttl, max_extensions_for_ceiling, extend,
}
use jit_access_broker.Store.Worker.{mark_one, mark_due, is_due, fire_warnings, expire_one}

-- The object at an address before and after.
pub record Persists (t t' : IssuedToken) : Type 0 where
  pub same_id : t'.id ≡ t.id
  pub same_user : t'.user ≡ t.user
  pub same_resource : t'.resource ≡ t.resource
  pub same_origin : t'.original_issued_at ≡ t.original_issued_at
  pub permanent : t.revoked ≡ true → t'.revoked ≡ true

pub Persists-trans : {t u v : IssuedToken} → Persists t u → Persists u v → Persists t v
Persists-trans p q = record {
  same_id = q.same_id ∙ p.same_id;
  same_user = q.same_user ∙ p.same_user;
  same_resource = q.same_resource ∙ p.same_resource;
  same_origin = q.same_origin ∙ p.same_origin;
  permanent = λ h. q.permanent (p.permanent h);
}

-- What fireWarnings does to a token: nothing, or the mark, if it was due.
abbrev pub WarnsAt : ℤ → Instant → IssuedToken → IssuedToken → Type 0
WarnsAt window now t t' =
    (t' ≡ t) ⊎ ((is_due window now t ≡ true) × (t' ≡ record t { notified_expiry = true }))

WarnsAt-Persists :
    (window : ℤ) (now : Instant) (t t' : IssuedToken) → WarnsAt window now t t' → Persists t t'
WarnsAt-Persists window now t t' (inl e) = ground arith
WarnsAt-Persists window now t t' (inr (d, e)) = ground arith

-- A warned token is not due.
pub warned-not_due :
    (window : ℤ) (now : Instant) (t : IssuedToken)
    → is_due window now (record t { notified_expiry = true }) ≡ false
unfolding is_due
warned-not_due window now t = ground arith

mark_one-WarnsAt :
    (window : ℤ) (now : Instant) (a : ℕ) (m : Memory) (b : ℕ)
    → WarnsAt window now (m b) (mark_one window now a m b)
mark_one-WarnsAt window now a m b = elim (Bool-cases (is_due window now (m a))) [
  | inr no_warning ↦ inl (ground arith)
  | inl due ↦ elim (Bool-cases (a == b)) [ inl e ↦ inr (ground arith) | inr e ↦ inl (ground arith) ]
]

pub mark_due-WarnsAt :
    (window : ℤ) (now : Instant) (l : List (Text × ℕ)) (m : Memory) (b : ℕ)
    → WarnsAt window now (m b) ((mark_due window now l m).0 b)
unfolding mark_due
mark_due-WarnsAt window now [] m b = inl refl
mark_due-WarnsAt window now ((id, a) ∷ rest) m b =
    let first = mark_one-WarnsAt window now a m b in
    let others = mark_due-WarnsAt window now rest (mark_one window now a m) b in
    ground (arith, warned-not_due window now (m b))

module _ {W : Type 0} where
  -- The map, the heap, the supply of addresses, the maximal session and the state file are as they
  -- were, and each object persists.
  pub record Evolves (s s' : Store W) : Type 0 where
    pub same_tokens : s'.tokens ≡ s.tokens
    pub same_pq : s'.pq ≡ s.pq
    pub same_next : s'.next ≡ s.next
    pub same_limit : s'.max_session ≡ s.max_session
    pub same_persist : s'.persist ≡ s.persist
    pub each : (a : ℕ) → Persists (s.memory a) (s'.memory a)

  pub Evolves-refl : (s : Store W) → Evolves s s
  Evolves-refl s = record {
    same_tokens = refl;
    same_pq = refl;
    same_next = refl;
    same_limit = refl;
    same_persist = refl;
    each = λ a. ground arith;
  }

  pub Evolves-trans : {s t u : Store W} → Evolves s t → Evolves t u → Evolves s u
  Evolves-trans p q = record {
    same_tokens = q.same_tokens ∙ p.same_tokens;
    same_pq = q.same_pq ∙ p.same_pq;
    same_next = q.same_next ∙ p.same_next;
    same_limit = q.same_limit ∙ p.same_limit;
    same_persist = q.same_persist ∙ p.same_persist;
    each = λ a. Persists-trans (p.each a) (q.each a);
  }

  -- A write of one object that persists.
  pub Evolves-write :
      (s : Store W) (a : ℕ) (t : IssuedToken)
      → Persists (s.memory a) t
      → Evolves s (record s { memory = write s.memory a t })
  Evolves-write s a t p = record {
    same_tokens = refl;
    same_pq = refl;
    same_next = refl;
    same_limit = refl;
    same_persist = refl;
    each = λ b. ground arith;
  }

  pub mark_revoked-Evolves : (s : Store W) (a : ℕ) → Evolves s (mark_revoked s a)
  unfolding mark_revoked
  mark_revoked-Evolves s a = record {
    same_tokens = refl;
    same_pq = refl;
    same_next = refl;
    same_limit = refl;
    same_persist = refl;
    each = λ b. ground arith;
  }

  pub move_expiry-Evolves : (s : Store W) (a : ℕ) (e : Instant) → Evolves s (move_expiry s a e)
  unfolding move_expiry
  move_expiry-Evolves s a e = Evolves-write s a _ (ground arith)

  -- A state that is known to be another one.
  along : {s t u : Store W} → u ≡ t → Evolves s t → Evolves s u
  along {s} e v = subst (Evolves s) (sym e) v

  pub store_value-Evolves : (s : Store W) (id value : Text) → Evolves s (store_value s id value)
  unfolding store_value
  store_value-Evolves s id value = elim (Option-cases (lookup id s.tokens)) [
    | inl e ↦ along (ground arith) (Evolves-refl s)
    | inr (b, e) ↦
        along (ground arith)
          (Evolves-write s b (record (s.memory b) { token = value }) (ground arith))
  ]

  pub reissue-Evolves :
      (s : Store W) (id : Text) (a : ℕ) (time : ℤ) (r : ExtendResult) (w : W)
      → Evolves s (reissue s id a time r w).1
  unfolding reissue
  reissue-Evolves s id a time r w = elim (Option-cases s.issuer) [
    | inl e ↦ along (ground arith) (Evolves-refl s)
    | inr (i, e) ↦ elim (Result-cases (i.issue (s.memory a).user (s.memory a).resource time w).0) [
      | inl (fresh, h) ↦ along (ground arith) (store_value-Evolves s id fresh.token)
      | inr (m, h) ↦ along (ground arith) (Evolves-refl s)
    ]
  ]

  pub close_session-state :
      (s : Store W) (a : ℕ) (w : W) → (close_session s a w).1 ≡ mark_revoked s a
  unfolding close_session
  close_session-state s a w = ground arith

  extend_to_ceiling-Evolves :
      (s : Store W) (id : Text) (a : ℕ) (now later : Instant) (w : W)
      → Evolves s (extend_to_ceiling s id a now later w).1
  unfolding extend_to_ceiling
  extend_to_ceiling-Evolves s id a now later w = elim (Bool-cases (leb (ceiling s a) now)) [
    | inl over ↦ along (ground (arith, close_session-state s a w)) (mark_revoked-Evolves s a)
    | inr open_yet ↦ along (ground arith) (
        Evolves-trans (move_expiry-Evolves s a (ceiling s a)) (
          reissue-Evolves (move_expiry s a (ceiling s a)) id a (sub_time (ceiling s a) later)
            (extension_of a (ceiling s a) (ceiling s a) (pos 0)) w))
  ]

  extend_by_ttl-Evolves :
      (s : Store W) (id : Text) (a : ℕ) (later : Instant) (w : W)
      → Evolves s (extend_by_ttl s id a later w).1
  unfolding extend_by_ttl
  extend_by_ttl-Evolves s id a later w =
      let expires = add_time (s.memory a).expires_at s.ttl in
      let moved = move_expiry-Evolves s a expires in
      elim (Option-cases (max_extensions_for_ceiling (move_expiry s a expires) a later)) [
        | inl e ↦ along (ground arith) moved
        | inr (left, e) ↦ along (ground arith) (
            Evolves-trans moved (
              reissue-Evolves (move_expiry s a expires) id a s.ttl
                (extension_of a expires (ceiling s a) left) w))
      ]

  pub extend-Evolves :
      (s : Store W) (id : Text) (now later : Instant) (w : W)
      → Evolves s (extend s id now later w).1
  unfolding extend
  extend-Evolves s id now later w = elim (Option-cases (find_live s id)) [
    | inl e ↦ along (ground arith) (Evolves-refl s)
    | inr (a, e) ↦ elim (Bool-cases (ltb (add_time (s.memory a).expires_at s.ttl) (ceiling s a))) [
      | inl h ↦ along (ground arith) (extend_by_ttl-Evolves s id a later w)
      | inr h ↦ along (ground arith) (extend_to_ceiling-Evolves s id a now later w)
    ]
  ]

  pub revoke_now-Evolves :
      (s : Store W) (ctx : Context W) (id : Text) (w : W) → Evolves s (revoke_now s ctx id w).1
  unfolding revoke_now
  revoke_now-Evolves s ctx id w = elim (Option-cases (find_live s id)) [
    | inl e ↦ along (ground arith) (Evolves-refl s)
    | inr (a, e) ↦ along (ground arith) (mark_revoked-Evolves s a)
  ]

  pub expire_one-Evolves :
      (s : Store W) (ctx : Context W) (id : Text) (w : W) → Evolves s (expire_one s ctx id w).0
  unfolding expire_one
  expire_one-Evolves s ctx id w = elim (Option-cases (find_live s id)) [
    | inl e ↦ along (ground arith) (Evolves-refl s)
    | inr (a, e) ↦ along (ground arith) (mark_revoked-Evolves s a)
  ]

  pub fire_warnings-Evolves :
      (s : Store W) (now : Instant) (w : W) → Evolves s (fire_warnings s now w).0
  unfolding fire_warnings
  fire_warnings-Evolves s now w = record {
    same_tokens = refl;
    same_pq = refl;
    same_next = refl;
    same_limit = refl;
    same_persist = refl;
    each = λ a.
        WarnsAt-Persists s.warning_before now (s.memory a) _
          (mark_due-WarnsAt s.warning_before now s.tokens s.memory a);
  }
