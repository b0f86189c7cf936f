-- ===== src/Store/Refusals.antt =====
-- Every refusal of Extend of store/store.go, and what it leaves of the token.
use jit_access_broker.Prelude.{
  ℕ, ◌+◌, ◌≤◌, ◌≡◌, ◌⊎◌, min, true, false, none, some, arith, Option-cases, Bool-cases, inl, inr,
  ltb, leb, Text, subst, ℤ, pos,
}
use jit_access_broker.Models.{Instant, add_time, sub_time}
use jit_access_broker.Providers.{Result-cases, TokenIssuer, err}
use jit_access_broker.Store.{Store, write, find_live, mark_revoked}
use jit_access_broker.Store.Extension.{
  ExtendResult, ceiling, move_expiry, reissue, extension_of, extend_to_ceiling, extend_by_ttl,
  max_extensions_for_ceiling, extend,
}
use jit_access_broker.Store.Evolution.{close_session-state}

module _ {W : Type 0} where
  -- The expiry that a granted extension of the token at `a` has.
  abbrev pub due_expiry : Store W → ℕ → Instant
  due_expiry s a = min (add_time (s.memory a).expires_at s.ttl) (ceiling s a)

  -- The session is over, and the token at `a` alone is revoked and counted.
  abbrev pub Closed : Store W → ℕ → Instant → Store W → Type 0
  Closed s a now s' =
      (ceiling s a ≤ now)
      × (s' ≡ record s {
        memory = write s.memory a (record (s.memory a) { revoked = true });
        revoked_count = s.revoked_count + 1;
      })

  -- The issuer's error is the answer, and the token at `a` has nevertheless been extended.
  abbrev pub Unrenewed : Store W → ℕ → W → ExtendResult → Store W → Type 0
  Unrenewed s a w r s' =
      (i : TokenIssuer W) × (time : ℤ) × (s.issuer ≡ some i)
      × ((i.issue (s.memory a).user (s.memory a).resource time w).0 ≡ err r.reason)
      × (s' ≡ record s {
        memory = write s.memory a (record (s.memory a) {
          expires_at = due_expiry s a;
          extension_count = (s.memory a).extension_count + 1;
          notified_expiry = false;
        });
      })

  reissue_refused :
      (s : Store W) (id : Text) (a : ℕ) (time : ℤ) (q r : ExtendResult) (w : W)
      → (reissue s id a time q w).0 ≡ some r
      → q.extended ≡ true
      → r.extended ≡ false
      → (i : TokenIssuer W) × (s.issuer ≡ some i)
        × ((i.issue (s.memory a).user (s.memory a).resource time w).0 ≡ err r.reason)
        × ((reissue s id a time q w).1 ≡ s)
  unfolding reissue
  reissue_refused s id a time q r w h grants refuses = elim (Option-cases s.issuer) [
    | inl e ↦ absurd (ground arith)
    | inr (i, e) ↦ elim (Result-cases (i.issue (s.memory a).user (s.memory a).resource time w).0) [
      | inl (fresh, p) ↦ absurd (ground arith)
      | inr (m, p) ↦ (i, e, ground arith, ground arith)
    ]
  ]

  module _ (s : Store W) (id : Text) (a : ℕ) (now later : Instant) (w : W) (r : ExtendResult)
      (refuses : r.extended ≡ false) where
    by_ttl_refused :
        ltb (add_time (s.memory a).expires_at s.ttl) (ceiling s a) ≡ true
        → (extend_by_ttl s id a later w).0 ≡ some r
        → Unrenewed s a w r (extend_by_ttl s id a later w).1
    unfolding extend_by_ttl move_expiry
    by_ttl_refused below h =
        let e = add_time (s.memory a).expires_at s.ttl in
        let s1 = move_expiry s a e in
        elim (Option-cases (max_extensions_for_ceiling s1 a later)) [
          | inl p ↦ absurd (ground arith)
          | inr (left, p) ↦
              let q = extension_of a e (ceiling s a) left in
              let (i, wired, failed, same) =
                reissue_refused s1 id a s.ttl q r w (ground arith) (ground arith) refuses in
              (i, s.ttl, ground arith, ground arith, ground arith)
        ]

    to_ceiling_refused :
        ltb (add_time (s.memory a).expires_at s.ttl) (ceiling s a) ≡ false
        → (extend_to_ceiling s id a now later w).0 ≡ some r
        → Closed s a now (extend_to_ceiling s id a now later w).1
          ⊎ Unrenewed s a w r (extend_to_ceiling s id a now later w).1
    unfolding extend_to_ceiling move_expiry mark_revoked
    to_ceiling_refused above h =
        let top = ceiling s a in
        elim (Bool-cases (leb top now)) [
          | inl over ↦ inl (ground arith, ground (arith, close_session-state s a w))
          | inr open_yet ↦
              let s1 = move_expiry s a top in
              let q = extension_of a top top (pos 0) in
              let time = sub_time top later in
              let (i, wired, failed, same) =
                reissue_refused s1 id a time q r w (ground arith) (ground arith) refuses in
              inr (i, time, ground arith, ground arith, ground arith)
        ]

-- A refusal of Extend is one of three, and only the first leaves the token alone: there is no live
-- token under the id, and the store is as it was; or the session ceiling is not after now, and the token
-- is revoked and counted; or the issuer answered with the error that the refusal reports, and the
-- token has the later expiry of a granted extension all the same, with one more extension and the
-- warning armed again. Nothing else of the store changes.
pub extend_refused :
    {W : Type 0} (s : Store W) (id : Text) (now later : Instant) (w : W) (r : ExtendResult)
    → (extend s id now later w).0 ≡ some r
    → r.extended ≡ false
    → let s' = (extend s id now later w).1 in
      ((find_live s id ≡ none) × (s' ≡ s))
      ⊎ ((a : ℕ) × (find_live s id ≡ some a) × (Closed s a now s' ⊎ Unrenewed s a w r s'))
unfolding extend
extend_refused s id now later w r h refuses = elim (Option-cases (find_live s id)) [
  | inl e ↦ inl (e, ground arith)
  | inr (a, e) ↦ elim (Bool-cases (ltb (add_time (s.memory a).expires_at s.ttl) (ceiling s a))) [
    | inl below ↦ inr (
      a,
      e,
      inr (
          subst (Unrenewed s a w r) {x = (extend_by_ttl s id a later w).1} (ground arith)
            (by_ttl_refused s id a now later w r refuses below (ground arith))),
    )
    | inr above ↦ inr (
      a,
      e,
      subst (λ t. Closed s a now t ⊎ Unrenewed s a w r t)
          {x = (extend_to_ceiling s id a now later w).1} (ground arith)
          (to_ceiling_refused s id a now later w r refuses above (ground arith)),
    )
  ]
]
