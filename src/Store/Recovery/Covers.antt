-- ===== src/Store/Recovery/Covers.antt =====
-- What a recovery puts into the store has what every record has, and its settings stay.
use jit_access_broker.Prelude.{
  ℕ, ◌<◌, ◌≡◌, refl, ◌∙◌, subst, true, List, [], ◌∷◌, In, arith, inl, inr, Option-cases, Bool-cases,
  ltb, ◌||◌, ◌==◌,
}
use jit_access_broker.Prelude.Dict.{lookup}
use jit_access_broker.Models.{Instant, IssuedToken}
use jit_access_broker.Providers.{Context}
use jit_access_broker.Persistence.{Record, to_token, missed_expirations}
use jit_access_broker.Persistence.Scan.{missed_iff}
use jit_access_broker.Store.{Store, with_origin, add}
use jit_access_broker.Store.Recovery.{
  readd_one, readd, put_revoked, revoke_missed_one, revoke_missed, replay,
}

module _ {W : Type 0} where
  -- Every object has the property.
  abbrev pub Covers : (IssuedToken → Type 0) → Store W → Type 0
  Covers Q s = (a : ℕ) → a < s.next → Q (s.memory a)

  module _ (Q : IssuedToken → Type 0) where
    add-Covers :
        (s : Store W) (t : IssuedToken) → Q (with_origin t) → Covers Q s → Covers Q (add s t)
    unfolding add
    add-Covers s t q c a below = elim (Bool-cases (s.next == a)) [
      | inl e ↦ subst Q {x = with_origin t} {y = (add s t).memory a} (ground arith) q
      | inr e ↦
          subst Q {x = s.memory a} {y = (add s t).memory a} (ground arith) (c a (ground arith))
    ]

    put_revoked-Covers :
        (s : Store W) (t : IssuedToken) → Q t → Covers Q s → Covers Q (put_revoked s t)
    unfolding put_revoked
    put_revoked-Covers s t q c a below = elim (Bool-cases (s.next == a)) [
      | inl e ↦ subst Q {x = t} {y = (put_revoked s t).memory a} (ground arith) q
      | inr e ↦
          subst Q {x = s.memory a} {y = (put_revoked s t).memory a} (ground arith)
            (c a (ground arith))
    ]

    readd_one-Covers :
        (s : Store W) (now : Instant) (r : Record)
        → Q (with_origin (to_token r))
        → Covers Q s
        → Covers Q (readd_one s now r)
    unfolding readd_one
    readd_one-Covers s now r q c = elim (Bool-cases (r.revoked || ltb r.expires_at now)) [
      | inl e ↦ subst (Covers Q) {x = s} {y = readd_one s now r} (ground arith) c
      | inr e ↦ elim (Option-cases (lookup (to_token r).id s.tokens)) [
        | inl p ↦
            subst (Covers Q) {x = add s (to_token r)} {y = readd_one s now r} (ground arith)
              (add-Covers s (to_token r) q c)
        | inr (a, p) ↦ subst (Covers Q) {x = s} {y = readd_one s now r} (ground arith) c
      ]
    ]

    readd-Covers :
        (s : Store W) (now : Instant) (records : List Record)
        → ((r : Record) → In r records → Q (with_origin (to_token r)))
        → Covers Q s
        → Covers Q (readd s now records)
    unfolding readd
    readd-Covers s now [] q c = c
    readd-Covers s now (r ∷ records) q c =
        readd-Covers (readd_one s now r) now records (λ x m. q x (inr m))
          (readd_one-Covers s now r (q r (inl refl)) c)

    revoke_missed-Covers :
        (s : Store W) (ctx : Context W) (records : List Record) (w : W)
        → ((r : Record) → In r records → Q (record (to_token r) { revoked = true }))
        → Covers Q s
        → Covers Q (revoke_missed s ctx records w).0
    unfolding revoke_missed revoke_missed_one
    revoke_missed-Covers s ctx [] w q c = c
    revoke_missed-Covers s ctx (r ∷ records) w q c =
        let tok = record (to_token r) { revoked = true } in
        revoke_missed-Covers (put_revoked s tok) ctx records _ (λ x m. q x (inr m))
          (put_revoked-Covers s tok (q r (inl refl)) c)

    -- What holds of every record's token, as the two loops put it back, holds of every object.
    pub replay-Covers :
        (s : Store W) (ctx : Context W) (now : Instant) (records : List Record) (w : W)
        → ((r : Record) → In r records → Q (with_origin (to_token r)))
        → ((r : Record) → In r records → Q (record (to_token r) { revoked = true }))
        → Covers Q s
        → Covers Q (replay s ctx now records w).0
    unfolding replay
    replay-Covers s ctx now records w q q' c =
        revoke_missed-Covers (readd s now records) ctx (missed_expirations records now) w
          (λ r m. q' r ((missed_iff records now r).0 m).0) (readd-Covers s now records q c)

  -- The settings stay.
  abbrev pub SameSettings : Store W → Store W → Type 0
  SameSettings s s' = (s'.persist ≡ s.persist) × (s'.max_session ≡ s.max_session)

  readd-SameSettings :
      (s : Store W) (now : Instant) (records : List Record) → SameSettings s (readd s now records)
  unfolding readd readd_one add
  readd-SameSettings s now [] = (refl, refl)
  readd-SameSettings s now (r ∷ records) =
      let h = readd-SameSettings (readd_one s now r) now records in
      elim (Option-cases (lookup (to_token r).id s.tokens)) [
        | inl p ↦ (ground (arith, h.0), ground (arith, h.1))
        | inr (a, p) ↦ (ground (arith, h.0), ground (arith, h.1))
      ]

  revoke_missed-SameSettings :
      (s : Store W) (ctx : Context W) (records : List Record) (w : W)
      → SameSettings s (revoke_missed s ctx records w).0
  unfolding revoke_missed revoke_missed_one put_revoked
  revoke_missed-SameSettings s ctx [] w = (refl, refl)
  revoke_missed-SameSettings s ctx (r ∷ records) w =
      let tok = record (to_token r) { revoked = true } in
      revoke_missed-SameSettings (put_revoked s tok) ctx records _

  pub replay-SameSettings :
      (s : Store W) (ctx : Context W) (now : Instant) (records : List Record) (w : W)
      → SameSettings s (replay s ctx now records w).0
  unfolding replay
  replay-SameSettings s ctx now records w =
      let (p, m) = readd-SameSettings s now records in
      let (p', m') =
        revoke_missed-SameSettings (readd s now records) ctx (missed_expirations records now) w in
      (p' ∙ p, m' ∙ m)
