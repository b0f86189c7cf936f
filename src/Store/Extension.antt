-- ===== src/Store/Extension.antt =====
-- Extend and maxExtensionsForCeiling of store/store.go.
-- `now` is the reading of time.Now(), and `later` that of the one time.Until that the branch makes.
use jit_access_broker.Prelude.{
  ℕ, zero, suc, ◌+◌, ◌/◌, Bool, true, false, Option, none, some, ltb, leb, leb_ℤ, if◌then◌else◌, ℤ,
  pos, negsuc, sub_ℕ, Text, codes,
}
use jit_access_broker.Prelude.Dict.{lookup}
use jit_access_broker.Models.{Instant, add_time, sub_time}
use jit_access_broker.Providers.{ok, err}
use jit_access_broker.Store.{Store, write, find_live, mark_revoked}

-- `token` is the address of the token.
pub record ExtendResult : Type 0 where
  pub extended : Bool
  pub token : Option ℕ
  pub new_expires_at : Instant
  pub max_session_at : Instant
  pub extensions_left : ℤ
  pub reason : Text

abbrev pub refusal : Text → ExtendResult
refusal reason = record {
  extended = false;
  token = none;
  new_expires_at = 0;
  max_session_at = 0;
  extensions_left = pos 0;
  reason = reason;
}

abbrev pub extension_of : ℕ → Instant → Instant → ℤ → ExtendResult
extension_of a expires ceiling left = record {
  extended = true;
  token = some a;
  new_expires_at = expires;
  max_session_at = ceiling;
  extensions_left = left;
  reason = codes "";
}

-- `n / d` on a positive n: Go's division truncates, and panics (`none`) on zero.
abbrev pub quotient : ℕ → ℤ → Option ℤ
quotient n (pos zero) = none
quotient n (pos (suc d)) = some (pos (n / suc d))
quotient n (negsuc d) = some (sub_ℕ 0 (n / suc d))

abbrev quotient_of : ℤ → ℤ → Option ℤ
quotient_of (pos n) d = quotient n d
quotient_of (negsuc n) d = some (pos 0)

module _ {W : Type 0} where
  -- t.OriginalIssuedAt.Add(s.maxSession)
  abbrev pub ceiling : Store W → ℕ → Instant
  ceiling s a = add_time (s.memory a).original_issued_at s.max_session

  -- maxExtensionsForCeiling; `none` is the panic of a division by zero.
  unfoldable pub max_extensions_for_ceiling : Store W → ℕ → Instant → Option ℤ
  max_extensions_for_ceiling s a later =
      let remaining = sub_time (ceiling s a) later in
      if leb_ℤ remaining (pos 0) then some (pos 0) else quotient_of remaining s.ttl

  -- The token at `a` with a new expiry, one more extension and a fresh warning.
  unfoldable pub move_expiry : Store W → ℕ → Instant → Store W
  move_expiry s a expires = record s {
    memory = write s.memory a (record (s.memory a) {
      expires_at = expires;
      extension_count = (s.memory a).extension_count + 1;
      notified_expiry = false;
    });
  }

  -- `if cur, ok := s.tokens[id]; ok { cur.Token = newTok.Token }`
  unfoldable pub store_value : Store W → Text → Text → Store W
  store_value s id value = elim (lookup id s.tokens) [
    | none ↦ s
    | some b ↦ record s { memory = write s.memory b (record (s.memory b) { token = value }) }
  ]

  -- Re-issuing at the provider for `time`, and the result if that succeeds.
  unfoldable pub reissue :
      Store W → Text → ℕ → ℤ → ExtendResult → W → Option ExtendResult × Store W × W
  unfolding store_value
  reissue s id a time result w = elim s.issuer [
    | none ↦ (some result, s, w)
    | some i ↦
        let (issued, w') = i.issue (s.memory a).user (s.memory a).resource time w in
        elim issued [
          | err e ↦ (some (refusal e), s, w')
          | ok fresh ↦ (some result, store_value s id fresh.token, w')
        ]
  ]

  -- The session is over: the token is revoked at the issuer itself, whose answer is dropped.
  unfoldable pub close_session : Store W → ℕ → W → Option ExtendResult × Store W × W
  unfolding mark_revoked
  close_session s a w =
      let s' = mark_revoked s a in
      let result = record (refusal (codes "session ceiling reached — token forcibly revoked")) {
        token = some a;
        max_session_at = ceiling s a;
      } in
      elim s.issuer [
        | none ↦ (some result, s', w)
        | some i ↦ let (failed, w') = i.revoke (s'.memory a) w in (some result, s', w')
      ]

  -- The new expiry would reach the ceiling.
  unfoldable pub extend_to_ceiling :
      Store W → Text → ℕ → Instant → Instant → W → Option ExtendResult × Store W × W
  unfolding close_session move_expiry reissue
  extend_to_ceiling s id a now later w =
      let top = ceiling s a in
      if leb top now
      then close_session s a w
      else reissue (move_expiry s a top) id a (sub_time top later) (extension_of a top top (pos 0))
          w

  unfoldable pub extend_by_ttl :
      Store W → Text → ℕ → Instant → W → Option ExtendResult × Store W × W
  unfolding max_extensions_for_ceiling move_expiry reissue
  extend_by_ttl s id a later w =
      let expires = add_time (s.memory a).expires_at s.ttl in
      let s' = move_expiry s a expires in
      elim (max_extensions_for_ceiling s' a later) [
        | none ↦ (none, s', w)
        | some left ↦ reissue s' id a s.ttl (extension_of a expires (ceiling s a) left) w
      ]

  -- Extend; a result of `none` is the panic of a division by zero.
  unfoldable pub extend : Store W → Text → Instant → Instant → W → Option ExtendResult × Store W × W
  unfolding find_live extend_to_ceiling extend_by_ttl
  extend s id now later w = elim (find_live s id) [
    | none ↦ (some (refusal (codes "token not found or already revoked")), s, w)
    | some a ↦
        if ltb (add_time (s.memory a).expires_at s.ttl) (ceiling s a)
        then extend_by_ttl s id a later w
        else extend_to_ceiling s id a now later w
  ]
