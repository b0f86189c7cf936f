-- ===== src/Breakglass/Decision.antt =====
-- What Verify and Activate decide.
use mathlib.Core.List.{append_assoc}
use jit_access_broker.Prelude.{
  ℕ, ◌*◌, ◌≤◌, ◌<◌, ◌≡◌, ◌≢◌, refl, sym, subst, ◌∙◌, ap, Bool, true, false, List, [], ◌∷◌, ◌++◌,
  length, arith, In, inl, inr, ◌↔◌, Bool-cases, Text, codes, is_empty, ℤ, pos, pos_part, mul64,
}
use jit_access_broker.Prelude.Dict.{lookup}
use jit_access_broker.Models.{IssuedToken, minute, max_ttl}
use jit_access_broker.Providers.{Result-cases, ok}
use jit_access_broker.Audit.{when_wired, log_break_glass}
use jit_access_broker.Breakglass.{
  ApprovalSignature, BreakGlassRequest, Manager, Tally, canonical_message, no_approvals,
  count_signatures, quorum_required, verify, granted_ttl, activated, activate, finish_activation,
}
use jit_access_broker.Breakglass.Quorum.{
  Distinct, two_of_distinct, IsTally, SignedBy, count-IsTally, count-In,
}

no_approvals-IsTally : IsTally no_approvals
unfolding lookup
no_approvals-IsTally = record {
  listed = λ id h. absurd h;
  known = λ id b h. cc;
  same_size = refl;
  distinct = tt;
}

two_signers :
    (x y : ApprovalSignature) (sigs : List ApprovalSignature)
    → In x sigs
    → In y sigs
    → x.approver_id ≢ y.approver_id
    → 2 ≤ length sigs
two_signers x y [] hx hy n = absurd hx
two_signers x y (z ∷ []) hx hy n = ground arith
two_signers x y (z ∷ u ∷ l) hx hy n = omega arith

module _ {W : Type 0} (ed25519 : List ℕ → Text → List ℕ → Bool) (m : Manager W)
    (req : BreakGlassRequest) where
  -- An approver whose trusted key verifies a signature of the request over its canonical message.
  abbrev pub Approves : Text → Type 0
  Approves id = SignedBy ed25519 m.trusted_approvers (canonical_message req) id req.signatures

  abbrev tally : Tally
  tally =
      count_signatures ed25519 m.trusted_approvers (canonical_message req) req.signatures
        no_approvals

  tally-IsTally : IsTally tally
  tally-IsTally =
      count-IsTally ed25519 m.trusted_approvers (canonical_message req) req.signatures no_approvals
        no_approvals-IsTally

  tally-In : (id : Text) → In id tally.approver_list ↔ Approves id
  tally-In id =
      let (down, up) =
        count-In ed25519 m.trusted_approvers (canonical_message req) req.signatures no_approvals id
          no_approvals-IsTally in
      (λ i. elim (down i) [ inl j ↦ absurd j | inr a ↦ a ], λ a. up (inr a))

  -- No single person can approve: when Verify answers true, the user and the resource are given, and
  -- the approvers that it lists are at least two, all distinct, and exactly those whose trusted key
  -- verifies one of the request's signatures over its canonical message.
  pub verify_sound :
      (reason : Text) (approvers : List Text)
      → verify ed25519 m req ≡ (true, reason, approvers)
      → (is_empty req.user ≡ false)
        × (is_empty req.resource ≡ false)
        × (quorum_required ≤ length approvers)
        × Distinct approvers
        × ((id : Text) → In id approvers ↔ Approves id)
  unfolding verify
  verify_sound reason approvers h =
      let same : tally.approver_list ≡ approvers = ground arith in
      (
        ground arith,
        ground arith,
        ground (arith, tally-IsTally.same_size, ap length same),
        subst Distinct same tally-IsTally.distinct,
        subst (λ l. (id : Text) → In id l ↔ Approves id) same tally-In,
      )

  -- Two distinct approvers are enough: a request that names a user and a resource and carries the
  -- approvals of two different trusted approvers is verified, whatever else it carries.
  pub verify_complete :
      (x y : Text)
      → is_empty req.user ≡ false
      → is_empty req.resource ≡ false
      → x ≢ y
      → Approves x
      → Approves y
      → (verify ed25519 m req).0 ≡ true
  unfolding verify
  verify_complete x y user resource ne ax ay =
      let two =
        two_of_distinct x y tally.approver_list ((tally-In x).1 ax) ((tally-In y).1 ay) ne in
      let signed = two_signers ax.0 ay.0 req.signatures ax.1 ay.1 (λ e. ne (sym ax.2 ∙ e ∙ ay.2)) in
      ground (arith, tally-IsTally.same_size)

mul64_exact : (n : ℕ) → n ≤ 60 → mul64 (pos n) minute ≡ pos (n * minute)
unfolding mul64
mul64_exact n h = ground arith

-- The TTL of a break-glass grant is in range whatever the request asks for, overflow of the
-- multiplication included, and is what the request asks for where that is from 1 to 60 minutes. A
-- request for more, which models.go's comment on MaxTTL says is rejected, gets a TTL in range too.
pub granted_ttl_bounds :
    (minutes : ℤ)
    → (d : ℕ) × (granted_ttl minutes ≡ pos d)
      × (0 < d)
      × (d ≤ pos_part max_ttl)
      × ((n : ℕ) → minutes ≡ pos n → 0 < n → n ≤ 60 → d ≡ n * minute)
unfolding granted_ttl
granted_ttl_bounds minutes = (
  pos_part (granted_ttl minutes),
  ground arith,
  ground arith,
  ground arith,
  λ n e low high. ground (arith, mul64_exact n high),
)

module _ {W : Type 0} (ed25519 : List ℕ → Text → List ℕ → Bool) (m : Manager W) (w : W) where
  -- Activate hands out a token only on a quorum: then Verify answered true, the token is the one that
  -- the issuer minted in this very call for the requested user and resource and for the granted TTL,
  -- tagged as break-glass with the request's reason, and the audit log has the approvers.
  pub activate_issues :
      (req : BreakGlassRequest) (tok : IssuedToken) (w' : W)
      → activate ed25519 m req w ≡ (activated tok, w')
      → ((verify ed25519 m req).0 ≡ true)
        × (issued : IssuedToken) × (v : W) × (m.issuer.issue req.user req.resource
              (granted_ttl req.ttl_minutes)
              w
            ≡ (ok issued, v))
        × (tok ≡ record issued {
          justification_type = codes "break_glass";
          justification_ref = req.reason;
        })
        × (w'
            ≡ when_wired m.logger
                (log_break_glass issued.id req.user req.resource (verify ed25519 m req).2)
                v)
  unfolding activate finish_activation
  activate_issues req tok w' h =
      let (quorum, reason, approvers) = verify ed25519 m req in
      let (answer, v) = m.issuer.issue req.user req.resource (granted_ttl req.ttl_minutes) w in
      elim (Bool-cases quorum) [
        | inr no_quorum ↦ ground arith
        | inl yes_quorum ↦ elim (Result-cases answer) [
          | inr (e, failing) ↦ ground arith
          | inl (issued, minted) ↦ (yes_quorum, issued, v, ground arith, ground arith, ground arith)
        ]
      ]

not_empty : (s : Text) (c : ℕ) (t : Text) → is_empty (s ++ c ∷ t) ≡ false
not_empty [] c t = refl
not_empty (d ∷ s) c t = refl

same_message :
    (req : BreakGlassRequest) (u r v : Text)
    → canonical_message (record req { user = u; resource = r ++ (b'|' ∷ v) })
      ≡ canonical_message (record req { user = u ++ (b'|' ∷ r); resource = v })
unfolding canonical_message
same_message req u r v = simp append_assoc

-- The canonical message does not separate its fields: moving a `|` between the user and the resource
-- leaves it as it is. So for non-empty `u` and `v`, the signatures that approve access of user `u` to
-- resource `r|v` are accepted just as well for user `u|r` and resource `v`.
pub verify_ambiguous :
    {W : Type 0} (ed25519 : List ℕ → Text → List ℕ → Bool) (m : Manager W) (req : BreakGlassRequest)
    (u r v : Text)
    → is_empty u ≡ false
    → is_empty v ≡ false
    → verify ed25519 m (record req { user = u; resource = r ++ (b'|' ∷ v) })
      ≡ verify ed25519 m (record req { user = u ++ (b'|' ∷ r); resource = v })
unfolding verify
verify_ambiguous ed25519 m req u r v hu hv =
    simp (same_message req u r v, not_empty r b'|' v, not_empty u b'|' r, hu, hv)
