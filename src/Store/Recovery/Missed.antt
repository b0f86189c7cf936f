-- ===== src/Store/Recovery/Missed.antt =====
-- What the second loop of a recovery revokes, and what Get answers after both.
use jit_access_broker.Prelude.{
  ◌≡◌, refl, ◌∙◌, ap, true, false, none, some, List, [], ◌∷◌, if◌then◌else◌, ltb, In, arith, Text,
  ◌⊎◌, inl, inr, Option-cases, Bool-cases, str_eq, str_eq_iff,
}
use jit_access_broker.Prelude.Dict.{lookup, lookup-insert}
use jit_access_broker.Models.{Instant, IssuedToken}
use jit_access_broker.Providers.{Context}
use jit_access_broker.Persistence.{Record, to_token, missed_expirations}
use jit_access_broker.Persistence.Scan.{missed_iff}
use jit_access_broker.Store.{Store, with_origin, find_live, get}
use jit_access_broker.Store.Recovery.{readd, put_revoked, revoke_missed_one, revoke_missed, replay}
use jit_access_broker.Store.Recovery.Replay.{
  HasKeys, IsMapped, readd-IsMapped, readd-other, readd-added,
}

module _ {W : Type 0} where
  put_revoked-IsMapped :
      (s : Store W) (tok : IssuedToken) → IsMapped s → IsMapped (put_revoked s tok)
  unfolding put_revoked
  put_revoked-IsMapped s tok v id a h =
      ground (arith, v id a, lookup-insert tok.id id s.next s.tokens)

  -- The second loop leaves what is found under other ids.
  put_revoked-other :
      (s : Store W) (tok : IssuedToken) (id : Text)
      → IsMapped s
      → str_eq tok.id id ≡ false
      → get (put_revoked s tok) id ≡ get s id
  unfolding put_revoked get find_live
  put_revoked-other s tok id v h = elim (Option-cases (lookup id s.tokens)) [
    | inl e ↦ ground (arith, lookup-insert tok.id id s.next s.tokens)
    | inr (a, e) ↦ ground (arith, lookup-insert tok.id id s.next s.tokens, v id a e)
  ]

  put_revoked-none :
      (s : Store W) (tok : IssuedToken) (id : Text)
      → IsMapped s
      → tok.revoked ≡ true
      → (str_eq tok.id id ≡ true) ⊎ (get s id ≡ none)
      → get (put_revoked s tok) id ≡ none
  unfolding put_revoked get find_live
  put_revoked-none s tok id v dead (inl h) = ground (arith, lookup-insert tok.id id s.next s.tokens)
  put_revoked-none s tok id v dead (inr h) = elim (Option-cases (lookup id s.tokens)) [
    | inl e ↦ ground (arith, lookup-insert tok.id id s.next s.tokens)
    | inr (a, e) ↦ ground (arith, lookup-insert tok.id id s.next s.tokens, v id a e)
  ]

  revoke_missed-other :
      (s : Store W) (ctx : Context W) (records : List Record) (w : W) (id : Text)
      → IsMapped s
      → ((r : Record) → In r records → str_eq r.id id ≡ false)
      → get (revoke_missed s ctx records w).0 id ≡ get s id
  unfolding revoke_missed revoke_missed_one to_token
  revoke_missed-other s ctx [] w id v h = refl
  revoke_missed-other s ctx (r ∷ records) w id v h =
      let tok = record (to_token r) { revoked = true } in
      revoke_missed-other (put_revoked s tok) ctx records _ id (put_revoked-IsMapped s tok v)
        (λ r m. h r (inr m))
      ∙ put_revoked-other s tok id v (h r (inl refl))

  revoke_missed-none :
      (s : Store W) (ctx : Context W) (records : List Record) (w : W) (id : Text)
      → IsMapped s
      → ((r : Record) × In r records × (r.id ≡ id)) ⊎ (get s id ≡ none)
      → get (revoke_missed s ctx records w).0 id ≡ none
  unfolding revoke_missed revoke_missed_one to_token
  revoke_missed-none s ctx [] w id v (inl (r, m, e)) = absurd m
  revoke_missed-none s ctx [] w id v (inr h) = h
  revoke_missed-none s ctx (x ∷ records) w id v h =
      let tok = record (to_token x) { revoked = true } in
      revoke_missed-none (put_revoked s tok) ctx records _ id (put_revoked-IsMapped s tok v) (go h)
    where
      go :
          ((r : Record) × In r (x ∷ records) × (r.id ≡ id)) ⊎ (get s id ≡ none)
          → ((r : Record) × In r records × (r.id ≡ id))
            ⊎ (get (put_revoked s (record (to_token x) { revoked = true })) id ≡ none)
      go (inl (r, inl e, q)) = inr (
          put_revoked-none s (record (to_token x) { revoked = true }) id v refl
            (inl ((str_eq_iff x.id id).1 (ap (λ y. y.id) e ∙ q))))
      go (inl (r, inr m, q)) = inl (r, m, q)
      go (inr n) =
          inr (put_revoked-none s (record (to_token x) { revoked = true }) id v refl (inr n))

  -- What Get answers after the replay, for a record that is not revoked.
  pub get-replay :
      (s : Store W) (ctx : Context W) (now : Instant) (records : List Record) (w : W) (r : Record)
      → IsMapped s
      → HasKeys records
      → In r records
      → lookup r.id s.tokens ≡ none
      → r.revoked ≡ false
      → get (replay s ctx now records w).0 r.id
        ≡ (if ltb r.expires_at now then none else some (with_origin (to_token r)))
  unfolding replay
  get-replay s ctx now records w r v keys m fresh live =
      let s1 = readd s now records in
      let v1 = readd-IsMapped s now records v in
      let missed = missed_expirations records now in
      elim (Bool-cases (ltb r.expires_at now)) [
        | inl q ↦
            let at_r = (missed_iff records now r).1 (m, live, ground arith) in
            revoke_missed-none s1 ctx missed w r.id v1 (inl (r, at_r, refl)) ∙ ground arith
        | inr q ↦
            revoke_missed-other s1 ctx missed w r.id v1 (λ x mx. ground (
              arith,
              (missed_iff records now x).0 mx,
              str_eq_iff x.id r.id,
              ap (λ y. y.expires_at) {x = x} {y = r},
              keys x r,
            ))
            ∙ readd-added s now records r v keys m fresh live (ground arith)
            ∙ ground arith
      ]

  -- What Get answers after the replay under an id that no record has.
  pub get-replay_absent :
      (s : Store W) (ctx : Context W) (now : Instant) (records : List Record) (w : W) (id : Text)
      → IsMapped s
      → ((r : Record) → In r records → str_eq r.id id ≡ false)
      → get (replay s ctx now records w).0 id ≡ get s id
  unfolding replay
  get-replay_absent s ctx now records w id v h =
      revoke_missed-other (readd s now records) ctx (missed_expirations records now) w id
        (readd-IsMapped s now records v) (λ r m. h r (((missed_iff records now r).0 m).0))
      ∙ readd-other s now records id v h
