-- ===== src/Store/Revocation.antt =====
-- RevokeNow of store/store.go: its effect, and a second call.
use jit_access_broker.Prelude.{
  ℕ, ◌+◌, ◌≡◌, true, none, some, arith, Option-cases, inl, inr, Text, codes,
}
use jit_access_broker.Providers.{Context}
use jit_access_broker.Store.{
  Store, find_live, get, mark_revoked, finish_revoke, call_revoker, noted_revoked, revoke_now,
}

module _ {W : Type 0} (s : Store W) (ctx : Context W) (id : Text) (w : W) where
  -- RevokeNow is effective and idempotent, whatever the provider answers: afterwards Get finds no
  -- token under the id, and a second RevokeNow returns nil and changes neither the store nor the
  -- world, so that it does not call the provider again, also where the first call failed.
  pub revoke_now_idem :
      let (failed, s', w') = revoke_now s ctx id w in
      (get s' id ≡ none) × ((v : W) → revoke_now s' ctx id v ≡ (none, s', v))
  unfolding get revoke_now find_live mark_revoked
  revoke_now_idem = elim (Option-cases (find_live s id)) [
    | inl e ↦ (ground arith, λ v. ground arith)
    | inr (a, e) ↦ (ground arith, λ v. ground arith)
  ]

  -- RevokeNow of a live token counts it, calls the revoker (or the issuer) on the token as revoked,
  -- and writes the manual revocation to the audit log just when that call succeeds; its answer is
  -- the call's.
  pub revoke_now_live :
      (a : ℕ)
      → find_live s id ≡ some a
      → let (failed, s', w') = revoke_now s ctx id w in
        let (answer, v) = call_revoker s ctx (record (s.memory a) { revoked = true }) w in
        (s'.revoked_count ≡ s.revoked_count + 1)
        × (failed ≡ answer)
        × (w' ≡ elim answer [
          | some m ↦ v
          | none ↦ noted_revoked s (record (s.memory a) { revoked = true }) (codes "manual") v
        ])
  unfolding revoke_now mark_revoked finish_revoke call_revoker
  revoke_now_live a found = ground arith
