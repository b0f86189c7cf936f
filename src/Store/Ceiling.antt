-- ===== src/Store/Ceiling.antt =====
-- What Extend does to the session of the token that it is asked for.
use jit_access_broker.Prelude.{
  ℕ, ◌+◌, ◌≤◌, ◌≡◌, ◌≢◌, refl, subst, ◌∙◌, min, true, false, Option, none, some, arith,
  Option-cases, Bool-cases, inl, inr, ◌⊎◌, Text, codes, ltb, leb, ℤ, pos,
}
use jit_access_broker.Prelude.Dict.{lookup}
use jit_access_broker.Models.{Instant, IssuedToken, add_time, sub_time}
use jit_access_broker.Providers.{Result-cases}
use jit_access_broker.Store.{Store, find_live, mark_revoked}
use jit_access_broker.Store.Evolution.{close_session-state}
use jit_access_broker.Store.Extension.{
  ExtendResult, refusal, extension_of, ceiling, move_expiry, store_value, reissue, close_session,
  extend_to_ceiling, extend_by_ttl, max_extensions_for_ceiling, extend,
}

-- The fields that decide how long a token lives.
pub record SameLife (t t' : IssuedToken) : Type 0 where
  pub same_expiry : t'.expires_at ≡ t.expires_at
  pub same_count : t'.extension_count ≡ t.extension_count
  pub same_revoked : t'.revoked ≡ t.revoked
  pub same_notified : t'.notified_expiry ≡ t.notified_expiry

module _ {W : Type 0} where
  pub find_live-lookup :
      (s : Store W) (id : Text) (a : ℕ)
      → find_live s id ≡ some a
      → (lookup id s.tokens ≡ some a) × ((s.memory a).revoked ≡ false)
  unfolding find_live
  find_live-lookup s id a h = ground arith

  module _ (s : Store W) (id : Text) (a : ℕ) (time : ℤ) (r : ExtendResult) (w : W)
      (there : lookup id s.tokens ≡ some a) where
    -- Re-issuing answers `r` or a refusal, and writes at most the credential of the token.
    pub reissue_answers :
        ((reissue s id a time r w).0 ≡ some r)
        ⊎ ((e : Text) × ((reissue s id a time r w).0 ≡ some (refusal e)))
    unfolding reissue
    reissue_answers = elim (Option-cases s.issuer) [
      | inl e ↦ inl (ground arith)
      | inr (i, e) ↦
          elim (Result-cases (i.issue (s.memory a).user (s.memory a).resource time w).0) [
            | inl (fresh, h) ↦ inl (ground arith)
            | inr (m, h) ↦ inr (m, ground arith)
          ]
    ]

    pub reissue-SameLife : (b : ℕ) → SameLife (s.memory b) ((reissue s id a time r w).1.memory b)
    unfolding reissue store_value
    reissue-SameLife b = elim (Option-cases s.issuer) [
      | inl e ↦ ground arith
      | inr (i, e) ↦
          elim (Result-cases (i.issue (s.memory a).user (s.memory a).resource time w).0) [
            | inl (fresh, h) ↦ ground arith
            | inr (m, h) ↦ ground arith
          ]
    ]

    pub reissue_elsewhere : (b : ℕ) → b ≢ a → (reissue s id a time r w).1.memory b ≡ s.memory b
    unfolding reissue store_value
    reissue_elsewhere b ne = elim (Option-cases s.issuer) [
      | inl e ↦ ground arith
      | inr (i, e) ↦
          elim (Result-cases (i.issue (s.memory a).user (s.memory a).resource time w).0) [
            | inl (fresh, h) ↦ ground arith
            | inr (m, h) ↦ ground arith
          ]
    ]

  -- The token after a granted extension.
  pub record Granted (s s' : Store W) (a : ℕ) (r : ExtendResult) : Type 0 where
    pub new_expiry :
        (s'.memory a).expires_at ≡ min (add_time (s.memory a).expires_at s.ttl) (ceiling s a)
    pub told : r.new_expires_at ≡ (s'.memory a).expires_at
    pub bounded : (s'.memory a).expires_at ≤ (r.max_session_at)
    pub told_ceiling : r.max_session_at ≡ ceiling s a
    pub counted : (s'.memory a).extension_count ≡ (s.memory a).extension_count + 1
    pub live : (s'.memory a).revoked ≡ false
    pub rearmed : (s'.memory a).notified_expiry ≡ false
    pub others : (b : ℕ) → b ≢ a → s'.memory b ≡ s.memory b

  moved :
      (s : Store W) (id : Text) (a : ℕ) (e : Instant) (time left : ℤ) (w : W)
      → find_live s id ≡ some a
      → e ≡ min (add_time (s.memory a).expires_at s.ttl) (ceiling s a)
      → Granted s
          (reissue (move_expiry s a e) id a time (extension_of a e (ceiling s a) left) w).1
          a
          (extension_of a e (ceiling s a) left)
  unfolding move_expiry
  moved s id a e time left w h least =
      let (there, live) = find_live-lookup s id a h in
      let r = extension_of a e (ceiling s a) left in
      let s1 = move_expiry s a e in
      let life = reissue-SameLife s1 id a time r w there a in
      record {
        new_expiry = ground arith;
        told = ground arith;
        bounded = ground arith;
        told_ceiling = refl;
        counted = ground arith;
        live = ground arith;
        rearmed = ground arith;
        others = λ b ne. reissue_elsewhere s1 id a time r w there b ne ∙ ground arith;
      }

  pub close_session_answer :
      (s : Store W) (a : ℕ) (w : W)
      → (close_session s a w).0
        ≡ some (record (refusal (codes "session ceiling reached — token forcibly revoked")) {
          token = some a;
          max_session_at = ceiling s a;
        })
  unfolding close_session
  close_session_answer s a w = elim (Option-cases s.issuer) [
    | inl e ↦ ground arith
    | inr (i, e) ↦ ground arith
  ]

  -- A step that comes to `reissue`, and answers that it extended.
  from_reissue :
      (s s' : Store W) (a : ℕ) (q r : ExtendResult) (answer : Option ExtendResult)
      → ((answer ≡ some q) ⊎ ((e : Text) × (answer ≡ some (refusal e))))
      → answer ≡ some r
      → r.extended ≡ true
      → Granted s s' a q
      → Granted s s' a r
  from_reissue s s' a q r answer (inl e) h x g = subst (Granted s s' a) (ground arith) g
  from_reissue s s' a q r answer (inr (m, e)) h x g = ground arith

  module _ (s : Store W) (id : Text) (a : ℕ) (now later : Instant) (w : W) (r : ExtendResult)
      (found : find_live s id ≡ some a) where
    extend_by_ttl-Granted :
        ltb (add_time (s.memory a).expires_at s.ttl) (ceiling s a) ≡ true
        → (extend_by_ttl s id a later w).0 ≡ some r
        → r.extended ≡ true
        → Granted s (extend_by_ttl s id a later w).1 a r
    unfolding extend_by_ttl move_expiry
    extend_by_ttl-Granted below h x =
        let expires = add_time (s.memory a).expires_at s.ttl in
        let s1 = move_expiry s a expires in
        elim (Option-cases (max_extensions_for_ceiling s1 a later)) [
          | inl e ↦ ground arith
          | inr (left, e) ↦
              let q = extension_of a expires (ceiling s a) left in
              let answers = reissue_answers s1 id a s.ttl q w (find_live-lookup s id a found).0 in
              subst (λ s'. Granted s s' a r) (ground arith)
                (from_reissue s (reissue s1 id a s.ttl q w).1 a q r (reissue s1 id a s.ttl q w).0
                  answers (ground arith) x (moved s id a expires s.ttl left w found (ground arith)))
        ]

    extend_to_ceiling-Granted :
        ltb (add_time (s.memory a).expires_at s.ttl) (ceiling s a) ≡ false
        → (extend_to_ceiling s id a now later w).0 ≡ some r
        → r.extended ≡ true
        → Granted s (extend_to_ceiling s id a now later w).1 a r
    unfolding extend_to_ceiling move_expiry
    extend_to_ceiling-Granted above h x = elim (Bool-cases (leb (ceiling s a) now)) [
      | inl over ↦ ground (arith, close_session_answer s a w)
      | inr open_yet ↦
          let top = ceiling s a in
          let s1 = move_expiry s a top in
          let q = extension_of a top top (pos 0) in
          let time = sub_time top later in
          let answers = reissue_answers s1 id a time q w (find_live-lookup s id a found).0 in
          subst (λ s'. Granted s s' a r) (ground arith)
            (from_reissue s (reissue s1 id a time q w).1 a q r (reissue s1 id a time q w).0 answers
              (ground arith) x (moved s id a top time (pos 0) w found (ground arith)))
    ]

    -- A granted extension never passes the session ceiling: whenever Extend answers that it
    -- extended a live token, the token's new expiry is the earlier of its old expiry plus the TTL
    -- and the ceiling (the original issue plus the maximal session), the answer names that expiry
    -- and that ceiling, the extension is counted, the warning is armed again, the token is live,
    -- and no other token has changed.
    pub extend-Granted :
        (extend s id now later w).0 ≡ some r
        → r.extended ≡ true
        → Granted s (extend s id now later w).1 a r
    unfolding extend
    extend-Granted h x =
        elim (Bool-cases (ltb (add_time (s.memory a).expires_at s.ttl) (ceiling s a))) [
          | inl below ↦
              subst (λ s'. Granted s s' a r) (ground arith)
                (extend_by_ttl-Granted below (ground arith) x)
          | inr above ↦
              subst (λ s'. Granted s s' a r) (ground arith)
                (extend_to_ceiling-Granted above (ground arith) x)
        ]

    -- A session that has reached its ceiling ends: when a TTL more would reach the ceiling and the
    -- ceiling is not after now, Extend refuses, names the ceiling, and the token is revoked and
    -- counted, so that no live token is left under the id.
    pub extend_at_ceiling :
        ceiling s a ≤ add_time (s.memory a).expires_at s.ttl
        → ceiling s a ≤ now
        → ((extend s id now later w).0
            ≡ some (record (refusal (codes "session ceiling reached — token forcibly revoked")) {
              token = some a;
              max_session_at = ceiling s a;
            }))
          × (find_live (extend s id now later w).1 id ≡ none)
          × ((extend s id now later w).1.revoked_count ≡ s.revoked_count + 1)
    unfolding extend extend_to_ceiling find_live mark_revoked
    extend_at_ceiling over past =
        ground (arith, close_session_answer s a w, close_session-state s a w)
