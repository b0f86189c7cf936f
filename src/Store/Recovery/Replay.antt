-- ===== src/Store/Recovery/Replay.antt =====
-- What the first loop of a recovery finds and adds.
use jit_access_broker.Prelude.{
  ℕ, ◌<◌, ◌≤◌, ◌≡◌, refl, ◌∙◌, ap, false, none, some, List, [], ◌∷◌, In, arith, Text, ◌⊎◌, inl, inr,
  Option-cases, Bool-cases, str_eq, str_eq_iff, str_eq_refl,
}
use jit_access_broker.Prelude.Dict.{lookup, lookup-insert}
use jit_access_broker.Models.{Instant, IssuedToken}
use jit_access_broker.Persistence.{Record, to_token}
use jit_access_broker.Store.{Store, with_origin, add, find_live, get}
use jit_access_broker.Store.Invariant.{with_origin_id}
use jit_access_broker.Store.Recovery.{readd_one, readd}

-- No two records share an id.
abbrev pub HasKeys : List Record → Type 0
HasKeys records = (r r' : Record) → In r records → In r' records → r.id ≡ r'.id → r ≡ r'

module _ {W : Type 0} where
  -- The map's addresses are in use.
  abbrev pub IsMapped : Store W → Type 0
  IsMapped s = (id : Text) (a : ℕ) → lookup id s.tokens ≡ some a → a < s.next

  readd_one-IsMapped :
      (s : Store W) (now : Instant) (r : Record) → IsMapped s → IsMapped (readd_one s now r)
  unfolding readd_one add to_token
  readd_one-IsMapped s now r v id a h =
      ground (arith, v id a, lookup-insert (with_origin (to_token r)).id id s.next s.tokens)

  -- What was found under an id is found there after an addition under another id.
  add-other :
      (s : Store W) (t : IssuedToken) (id : Text)
      → IsMapped s
      → str_eq t.id id ≡ false
      → (lookup id (add s t).tokens ≡ lookup id s.tokens) × (get (add s t) id ≡ get s id)
  unfolding add get find_live
  add-other s t id v h =
      let found = lookup-insert (with_origin t).id id s.next s.tokens in
      elim (Option-cases (lookup id s.tokens)) [
        | inl e ↦ ground (arith, found, with_origin_id t)
        | inr (a, e) ↦ ground (arith, found, with_origin_id t, v id a e)
      ]

  add-found :
      (s : Store W) (t : IssuedToken)
      → t.revoked ≡ false
      → (lookup t.id (add s t).tokens ≡ some s.next) × (get (add s t) t.id ≡ some (with_origin t))
  unfolding add get find_live
  add-found s t live = ground (
    arith,
    lookup-insert (with_origin t).id t.id s.next s.tokens,
    with_origin_id t,
    str_eq_refl t.id,
  )

  -- A record under another id, or under an id that is there, changes nothing that is found.
  pub readd_one-other :
      (s : Store W) (now : Instant) (r : Record) (id : Text)
      → IsMapped s
      → (str_eq r.id id ≡ false) ⊎ ((a : ℕ) × (lookup id s.tokens ≡ some a))
      → (lookup id (readd_one s now r).tokens ≡ lookup id s.tokens)
        × (get (readd_one s now r) id ≡ get s id)
  unfolding readd_one to_token
  readd_one-other s now r id v (inl h) = ground (arith, add-other s (to_token r) id v h)
  readd_one-other s now r id v (inr (a, e)) = elim (Bool-cases (str_eq r.id id)) [
    | inr h ↦ ground (arith, add-other s (to_token r) id v h)
    | inl h ↦ ground (arith, str_eq_iff r.id id)
  ]

  readd_one-added :
      (s : Store W) (now : Instant) (r : Record)
      → lookup r.id s.tokens ≡ none
      → r.revoked ≡ false
      → now ≤ r.expires_at
      → (lookup r.id (readd_one s now r).tokens ≡ some s.next)
        × (get (readd_one s now r) r.id ≡ some (with_origin (to_token r)))
  unfolding readd_one to_token
  readd_one-added s now r fresh live due = ground (arith, add-found s (to_token r) live)

  pub readd-IsMapped :
      (s : Store W) (now : Instant) (records : List Record)
      → IsMapped s
      → IsMapped (readd s now records)
  unfolding readd
  readd-IsMapped s now [] v = v
  readd-IsMapped s now (r ∷ records) v =
      readd-IsMapped (readd_one s now r) now records (readd_one-IsMapped s now r v)

  pub readd-other :
      (s : Store W) (now : Instant) (records : List Record) (id : Text)
      → IsMapped s
      → ((r : Record) → In r records → str_eq r.id id ≡ false)
      → get (readd s now records) id ≡ get s id
  unfolding readd
  readd-other s now [] id v h = refl
  readd-other s now (r ∷ records) id v h =
      readd-other (readd_one s now r) now records id (readd_one-IsMapped s now r v)
        (λ x m. h x (inr m))
      ∙ (readd_one-other s now r id v (inl (h r (inl refl)))).1

  readd-found :
      (s : Store W) (now : Instant) (records : List Record) (id : Text) (a : ℕ)
      → IsMapped s
      → lookup id s.tokens ≡ some a
      → get (readd s now records) id ≡ get s id
  unfolding readd
  readd-found s now [] id a v h = refl
  readd-found s now (r ∷ records) id a v h =
      let (found, same) = readd_one-other s now r id v (inr (a, h)) in
      readd-found (readd_one s now r) now records id a (readd_one-IsMapped s now r v) (found ∙ h)
      ∙ same

  -- A record that is still valid is found after the first loop.
  pub readd-added :
      (s : Store W) (now : Instant) (records : List Record) (r : Record)
      → IsMapped s
      → HasKeys records
      → In r records
      → lookup r.id s.tokens ≡ none
      → r.revoked ≡ false
      → now ≤ r.expires_at
      → get (readd s now records) r.id ≡ some (with_origin (to_token r))
  unfolding readd
  readd-added s now [] r v keys m fresh live due = absurd m
  readd-added s now (x ∷ records) r v keys m fresh live due =
      let v' = readd_one-IsMapped s now x v in
      elim (Bool-cases (str_eq x.id r.id)) [
        | inl q ↦
            let e : x ≡ r = keys x r (inl refl) m ((str_eq_iff x.id r.id).0 q) in
            let (found, hit) = readd_one-added s now r fresh live due in
            ap (λ y. get (readd (readd_one s now y) now records) r.id) e
            ∙ readd-found (readd_one s now r) now records r.id s.next (readd_one-IsMapped s now r v)
                found
            ∙ hit
        | inr q ↦
            let (found, same) = readd_one-other s now x r.id v (inl q) in
            readd-added (readd_one s now x) now records r v'
              (λ a b ma mb. keys a b (inr ma) (inr mb)) (below x r records m q) (found ∙ fresh) live
              due
      ]
    where
      below :
          (x r : Record) (records : List Record)
          → In r (x ∷ records)
          → str_eq x.id r.id ≡ false
          → In r records
      below x r records (inl e) q = ground (arith, str_eq_iff x.id r.id)
      below x r records (inr m) q = m
