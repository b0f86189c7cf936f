-- ===== src/Store/Interleaving/Serial.antt =====
-- A method of store/store.go that no other goroutine interrupts: its critical sections, each followed
-- by what the method does outside the lock.
use jit_access_broker.Prelude.{
  ℕ, zero, suc, Option, none, some, if◌then◌else◌, Text, codes, ltb, pos,
}
use jit_access_broker.Models.{Instant, sub_time}
use jit_access_broker.Providers.{Context}
use jit_access_broker.Store.{Store, call_revoker, noted_revoked, finish_revoke}
use jit_access_broker.Store.Extension.{
  ExtendResult, refusal, extension_of, ceiling, reissue, max_extensions_for_ceiling,
}
use jit_access_broker.Store.Worker.{send}
use jit_access_broker.Store.Sections.{Begun, gone, panicked, closes, renews, claim_due}

module _ {W : Type 0} where
  -- RevokeNow after its section: the call and the audit event, if a token was claimed.
  abbrev pub after_claim : Context W → Option ℕ × Store W → W → Option Text × Store W × W
  after_claim ctx (none, s) w = (none, s, w)
  after_claim ctx (some a, s) w = let (failed, w') = finish_revoke s ctx a w in (failed, s, w')

  -- A round of revokeExpired after its section.
  abbrev pub after_round : Context W → Option ℕ × Store W → W → Store W × W
  after_round ctx (none, s) w = (s, w)
  after_round ctx (some a, s) w =
      let (failed, w') = call_revoker s ctx (s.memory a) w in
      (s, send s.revoked_chan (s.memory a).id (noted_revoked s (s.memory a) (codes "auto") w'))

  -- The loop of revokeExpired, as sections and what follows each.
  unfoldable pub rounds : ℕ → Store W → Context W → Instant → W → Store W × W
  rounds zero s ctx now w = (s, w)
  rounds (suc n) s ctx now w = elim (claim_due s now) [
    | none ↦ (s, w)
    | some round ↦ let (s', w') = after_round ctx round w in rounds n s' ctx now w'
  ]

  -- Extend after its section has moved the expiry: below the ceiling the token is renewed for the TTL,
  -- at the ceiling for the time that is left.
  abbrev renewal : Store W → Text → ℕ → Instant → W → Option ExtendResult × Store W × W
  renewal s id a later w =
      let e = (s.memory a).expires_at in
      let top = ceiling s a in
      if ltb e top
      then elim (max_extensions_for_ceiling s a later) [
        | none ↦ (none, s, w)
        | some left ↦ reissue s id a s.ttl (extension_of a e top left) w
      ]
      else reissue s id a (sub_time top later) (extension_of a top top (pos 0)) w

  -- Extend after its first section.
  abbrev pub after_begin : Text → Instant → Begun × Store W → W → Option ExtendResult × Store W × W
  after_begin id later (gone, s) w =
      (some (refusal (codes "token not found or already revoked")), s, w)
  after_begin id later (panicked, s) w = (none, s, w)
  after_begin id later (closes a, s) w =
      let over = record (refusal (codes "session ceiling reached — token forcibly revoked")) {
        token = some a;
        max_session_at = ceiling s a;
      } in
      elim s.issuer [
        | none ↦ (some over, s, w)
        | some i ↦ let (failed, w') = i.revoke (s.memory a) w in (some over, s, w')
      ]
  after_begin id later (renews a, s) w = renewal s id a later w
