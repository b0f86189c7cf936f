-- ===== src/Store/Recovery/Kept.antt =====
-- What a recovery keeps: the map and the heap stay in step.
use mathlib.Core.List.{Mem}
use jit_access_broker.Prelude.{
  ℕ, ◌≡◌, if◌then◌else◌, refl, ◌∙◌, ap, subst, true, none, some, List, [], ◌∷◌, In, arith, Text,
  inl, inr, Option-cases, Bool-cases, str_eq, str_eq_iff, ltb, ◌||◌,
}
use jit_access_broker.Prelude.Dict.{lookup, lookup-insert, insert-IsDict}
use jit_access_broker.Models.{Instant, IssuedToken}
use jit_access_broker.Providers.{Context}
use jit_access_broker.Persistence.{Record, to_token, missed_expirations}
use jit_access_broker.Persistence.Scan.{missed_iff}
use jit_access_broker.Store.{Store, add}
use jit_access_broker.Store.Invariant.{Inv, add-Inv}
use jit_access_broker.Store.Recovery.{
  readd_one, readd, put_revoked, revoke_missed_one, revoke_missed, replay,
}
use jit_access_broker.Store.Recovery.Replay.{HasKeys, readd_one-other}

module _ {W : Type 0} where
  -- What the map has under the id is not in the heap.
  abbrev Unqueued : Store W → Text → Type 0
  Unqueued s id = (a : ℕ) → lookup id s.tokens ≡ some a → Mem a s.pq → ⊥

  module _ (s : Store W) (tok : IssuedToken) (v : Inv s) where
    looked_up :
        (id : Text)
        → lookup id (put_revoked s tok).tokens
          ≡ (if str_eq tok.id id then some s.next else lookup id s.tokens)
    unfolding put_revoked
    looked_up id = lookup-insert tok.id id s.next s.tokens

    put_revoked-Unqueued : (id : Text) → Unqueued s id → Unqueued (put_revoked s tok) id
    unfolding put_revoked
    put_revoked-Unqueued id u a h m = elim (Bool-cases (str_eq tok.id id)) [
      | inl e ↦ absurd (ground (arith, looked_up id, v.queued a m))
      | inr e ↦ u a (ground (arith, looked_up id)) m
    ]

    put_revoked-Inv : tok.revoked ≡ true → Unqueued s tok.id → Inv (put_revoked s tok)
    unfolding put_revoked
    put_revoked-Inv dead u = record {
      keyed = insert-IsDict tok.id s.next s.tokens v.keyed;
      mapped = λ id a h. ground (arith, looked_up id, v.mapped id a);
      queued = λ a m. omega (arith, v.queued a m);
      named =
          λ id a h. ground (arith, looked_up id, str_eq_iff tok.id id, v.mapped id a, v.named id a);
      aligned = λ a m. elim (Bool-cases (str_eq tok.id (s.memory a).id)) [
        | inl e ↦ absurd (
            u a
              (ap (λ k. lookup k s.tokens) ((str_eq_iff tok.id (s.memory a).id).0 e)
                ∙ v.aligned a m)
              m)
        | inr e ↦ ground (arith, v.queued a m, v.aligned a m, looked_up (s.memory a).id)
      ];
      tracked = λ id a h live. elim (Bool-cases (str_eq tok.id id)) [
        | inl e ↦ absurd (ground (arith, looked_up id))
        | inr e ↦
            v.tracked id a (ground (arith, looked_up id))
              (ground (arith, looked_up id, v.mapped id a))
      ];
    }

  readd_one-Inv : (s : Store W) (now : Instant) (r : Record) → Inv s → Inv (readd_one s now r)
  unfolding readd_one
  readd_one-Inv s now r v = elim (Bool-cases (r.revoked || ltb r.expires_at now)) [
    | inl e ↦ subst Inv {x = s} (ground arith) v
    | inr e ↦ elim (Option-cases (lookup (to_token r).id s.tokens)) [
      | inl q ↦ subst Inv {x = add s (to_token r)} (ground arith) (add-Inv s (to_token r) v q)
      | inr (a, q) ↦ subst Inv {x = s} (ground arith) v
    ]
  ]

  readd-Inv :
      (s : Store W) (now : Instant) (records : List Record) → Inv s → Inv (readd s now records)
  unfolding readd
  readd-Inv s now [] v = v
  readd-Inv s now (r ∷ records) v =
      readd-Inv (readd_one s now r) now records (readd_one-Inv s now r v)

  -- The first loop adds nothing under an id whose records have expired.
  readd-free :
      (s : Store W) (now : Instant) (records : List Record) (id : Text)
      → Inv s
      → ((r : Record) → In r records → r.id ≡ id → ltb r.expires_at now ≡ true)
      → lookup id s.tokens ≡ none
      → lookup id (readd s now records).tokens ≡ none
  unfolding readd readd_one
  readd-free s now [] id v late free = free
  readd-free s now (r ∷ records) id v late free =
      readd-free (readd_one s now r) now records id (readd_one-Inv s now r v)
        (λ x m. late x (inr m))
        (elim (Bool-cases (str_eq r.id id)) [
          | inl e ↦ ground (arith, late r (inl refl), str_eq_iff r.id id)
          | inr e ↦ (readd_one-other s now r id v.mapped (inl e)).0 ∙ free
        ])

  revoke_missed-Inv :
      (s : Store W) (ctx : Context W) (records : List Record) (w : W)
      → Inv s
      → ((r : Record) → In r records → Unqueued s r.id)
      → Inv (revoke_missed s ctx records w).0
  unfolding revoke_missed revoke_missed_one to_token
  revoke_missed-Inv s ctx [] w v u = v
  revoke_missed-Inv s ctx (r ∷ records) w v u =
      let tok = record (to_token r) { revoked = true } in
      revoke_missed-Inv (put_revoked s tok) ctx records _
        (put_revoked-Inv s tok v refl (u r (inl refl)))
        (λ x m. put_revoked-Unqueued s tok v x.id (u x (inr m)))

  -- A recovery into an empty store keeps the map and the heap in step.
  pub replay-Inv :
      (s : Store W) (ctx : Context W) (now : Instant) (records : List Record) (w : W)
      → Inv s
      → ((id : Text) → lookup id s.tokens ≡ none)
      → HasKeys records
      → Inv (replay s ctx now records w).0
  unfolding replay
  replay-Inv s ctx now records w v free keys =
      revoke_missed-Inv (readd s now records) ctx (missed_expirations records now) w
        (readd-Inv s now records v)
        (λ r m a h q.
          let (there, live, late) = (missed_iff records now r).0 m in
          let none_there =
            readd-free s now records r.id v
              (λ x n e. ground (arith, late, ap (λ y. y.expires_at) (keys x r n there e)))
              (free r.id) in
          ground (arith, none_there))
