-- ===== src/Store/Refinement.antt =====
-- The store does what its table of live sessions says.
use jit_access_broker.Prelude.{
  ℕ, ◌≡◌, refl, ◌∙◌, ap, Option, none, List, [], ◌∷◌, arith, Option-cases, Bool-cases, inl, inr, In,
  Text, str_eq_iff, ◌==◌, ℤ,
}
use jit_access_broker.Prelude.Dict.{lookup, lookup-insert, lookup-In}
use jit_access_broker.Models.{Instant, IssuedToken}
use jit_access_broker.Providers.{Context, TokenIssuer}
use jit_access_broker.Store.{
  Store, Memory, new, get, find_live, add, with_origin, revoke_now, mark_revoked,
}
use jit_access_broker.Store.Worker.{mark_one, mark_due, fire_warnings}
use jit_access_broker.Store.Evolution.{mark_due-WarnsAt, warned-not_due}
use jit_access_broker.Store.Invariant.{Inv, with_origin_id}
use jit_access_broker.Store.Expiry.{unexpired, get-revoke_expired}
use jit_access_broker.Store.History.{adds, revokes, warns, expires, Reach, start, next, Reach-Sound}
use jit_access_broker.Store.Sessions.{Sessions, opened, closed, warned, swept, marked, mark_some}

mark_due-marked :
    (window : ℤ) (now : Instant) (l : List (Text × ℕ)) (m : Memory) (id : Text) (a : ℕ)
    → In (id, a) l
    → (mark_due window now l m).0 a ≡ marked window now (m a)
unfolding mark_due
mark_due-marked window now [] m id a h = absurd h
mark_due-marked window now ((k, b) ∷ rest) m id a h =
    let m' = mark_one window now b m in
    let others = mark_due-WarnsAt window now rest m' a in
    elim (Bool-cases (b == a)) [
      | inl e ↦ ground (arith, warned-not_due window now (m a))
      | inr e ↦ elim h [
        | inl same ↦ absurd (ground (arith, ap (λ p. p.1) same))
        | inr n ↦ ground (arith, mark_due-marked window now rest m' id a n)
      ]
    ]

module _ {W : Type 0} where
  get-add :
      (s : Store W) (t : IssuedToken) (id : Text) → Inv s → get (add s t) id ≡ opened t (get s) id
  unfolding get find_live add
  get-add s t id v =
      let found = lookup-insert (with_origin t).id id s.next s.tokens in
      elim (Option-cases (lookup id s.tokens)) [
        | inl e ↦ ground (arith, found, with_origin_id t)
        | inr (a, e) ↦ ground (arith, found, with_origin_id t, v.mapped id a e)
      ]

  get-revoke_now :
      (s : Store W) (ctx : Context W) (id : Text) (w : W) (j : Text)
      → Inv s
      → get (revoke_now s ctx id w).1 j ≡ closed id (get s) j
  unfolding get revoke_now find_live mark_revoked
  get-revoke_now s ctx id w j v = elim (Option-cases (lookup id s.tokens)) [
    | inl e ↦ ground (arith, str_eq_iff id j)
    | inr (a, e) ↦ elim (Option-cases (lookup j s.tokens)) [
      | inl e' ↦ ground (arith, str_eq_iff id j)
      | inr (b, e') ↦ ground (arith, str_eq_iff id j, v.named id a e, v.named j b e')
    ]
  ]

  pub get-fire_warnings :
      (s : Store W) (now : Instant) (w : W) (id : Text)
      → get (fire_warnings s now w).0 id ≡ warned s.warning_before now (get s) id
  unfolding get find_live fire_warnings
  get-fire_warnings s now w id = elim (Option-cases (lookup id s.tokens)) [
    | inl e ↦ ground arith
    | inr (a, e) ↦
        let each =
          mark_due-marked s.warning_before now s.tokens s.memory id a (lookup-In id a s.tokens e) in
        ground arith
  ]

  -- The table that the operations of a history make of the empty one, each by its own act.
  unfoldable pub table : {i : Option (TokenIssuer W)} {s : Store W} → Reach i s → Sessions
  table start = λ id. none
  table (next r (adds t fresh)) = opened t (table r)
  table (next r (revokes ctx id w)) = closed id (table r)
  table (next {s} r (warns now w)) = warned s.warning_before now (table r)
  table (next r (expires ctx now w)) = swept now (table r)

  -- The store refines the table of its live sessions: after every history of operations but Extend on
  -- an empty store, Get answers under every id what the same operations make of an empty table, where
  -- Add opens a session, RevokeNow ends the one under its id and no other, fireWarnings marks those that
  -- are due within the store's window, and revokeExpired ends those that have expired. Tokens are added
  -- under ids that the map does not hold.
  pub get-table :
      {i : Option (TokenIssuer W)} {s : Store W} (r : Reach i s) (id : Text) → get s id ≡ table r id
  unfolding table new get find_live lookup
  get-table start id = refl
  get-table (next {s} r (adds t fresh)) id =
      get-add s t id (Reach-Sound r).inv ∙ ground (arith, get-table r id)
  get-table (next {s} r (revokes ctx j w)) id =
      get-revoke_now s ctx j w id (Reach-Sound r).inv ∙ ground (arith, get-table r id)
  get-table (next {s} r (warns now w)) id =
      get-fire_warnings s now w id ∙ ap (mark_some s.warning_before now) (get-table r id)
  get-table (next {s} r (expires ctx now w)) id =
      let v = Reach-Sound r in
      get-revoke_expired s ctx now w id v.inv v.ordered ∙ ap (unexpired now) (get-table r id)
