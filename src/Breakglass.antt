-- ===== src/Breakglass.antt =====
-- breakglass/breakglass.go: emergency access on the signatures of two distinct trusted approvers.
-- crypto/ed25519's Verify is the argument `ed25519` (public key, message, signature).
pub mod Quorum
pub mod Decision
pub mod Signing
use jit_access_broker.Prelude.{
  ℕ, ◌+◌, Bool, true, false, ◌&&◌, ◌||◌, not, Option, none, some, List, [], ◌∷◌, ◌++◌, length, ltb,
  leb_ℤ, ltb_ℤ, ◌==◌, if◌then◌else◌, ℤ, pos, Text, codes, is_empty, decimal, decimal_ℕ, hex_decode,
  mul64,
}
use jit_access_broker.Prelude.Dict.{lookup, insert}
use jit_access_broker.Models.{IssuedToken, minute, max_ttl}
use jit_access_broker.Audit.{Logger, when_wired, log_break_glass}
use jit_access_broker.Providers.{Result, ok, err, TokenIssuer}

abbrev pub quorum_required : ℕ
quorum_required = 2

pub record ApprovalSignature : Type 0 where
  pub approver_id : Text
  pub signature : Text

pub record BreakGlassRequest : Type 0 where
  pub user : Text
  pub resource : Text
  pub reason : Text
  pub ttl_minutes : ℤ
  pub signatures : List ApprovalSignature

pub record Manager (W : Type 0) : Type 0 where
  pub trusted_approvers : List (Text × Text)
  pub issuer : TokenIssuer W
  pub logger : Option (Logger W)

-- NewManager
abbrev pub new_manager :
    {W : Type 0} → List (Text × Text) → TokenIssuer W → Option (Logger W) → Manager W
new_manager approvers issuer logger = record {
  trusted_approvers = approvers;
  issuer = issuer;
  logger = logger;
}

-- CanonicalMessage: "%s|%s|%s|%d"
unfoldable pub canonical_message : BreakGlassRequest → Text
canonical_message req =
    req.user ++ (b'|' ∷ (req.resource ++ (b'|' ∷ (req.reason ++ (b'|' ∷ decimal req.ttl_minutes)))))

-- verifiedApprovers and approverList.
pub record Tally : Type 0 where
  pub verified : List (Text × Bool)
  pub approver_list : List Text

abbrev pub no_approvals : Tally
no_approvals = record { verified = []; approver_list = [] }

-- The zero value of a missing key.
abbrev pub is_set : Option Bool → Bool
is_set none = false
is_set (some b) = b

unfoldable pub record_approval : Tally → Text → Tally
record_approval t id =
    if is_set (lookup id t.verified)
    then t
    else record { verified = insert id true t.verified; approver_list = t.approver_list ++ id ∷ [] }

module _ (ed25519 : List ℕ → Text → List ℕ → Bool) where
  abbrev checked_signature : List ℕ → Text → Option (List ℕ) → Bool
  checked_signature key message none = false
  checked_signature key message (some bytes) =
      if not (length bytes == 64) then false else ed25519 key message bytes

  abbrev checked_key : Option (List ℕ) → Text → Text → Bool
  checked_key none message signature = false
  checked_key (some key) message signature =
      if not (length key == 32) then false else checked_signature key message (hex_decode signature)

  abbrev checked_approver : Option Text → Text → Text → Bool
  checked_approver none message signature = false
  checked_approver (some key_hex) message signature =
      checked_key (hex_decode key_hex) message signature

  -- The body of the loop over the signatures up to the deduplication: no `continue` is taken.
  unfoldable pub is_valid_signature : List (Text × Text) → Text → ApprovalSignature → Bool
  is_valid_signature trusted message sig =
      checked_approver (lookup sig.approver_id trusted) message sig.signature

  unfoldable pub count_signatures :
      List (Text × Text) → Text → List ApprovalSignature → Tally → Tally
  unfolding is_valid_signature record_approval
  count_signatures trusted message [] t = t
  count_signatures trusted message (sig ∷ sigs) t =
      count_signatures trusted message sigs
        (if is_valid_signature trusted message sig then record_approval t sig.approver_id else t)

  -- Verify; its error is always nil.
  unfoldable pub verify : {W : Type 0} → Manager W → BreakGlassRequest → Bool × Text × List Text
  unfolding canonical_message count_signatures
  verify m req =
      let tally =
        count_signatures m.trusted_approvers (canonical_message req) req.signatures no_approvals in
      let count = length tally.verified in
      if is_empty req.user || is_empty req.resource
      then (false, codes "user and resource are required", [])
      else if ltb (length req.signatures) quorum_required
      then (
        false,
        codes "insufficient signatures: got "
            ++ (decimal_ℕ (length req.signatures)
                ++ (codes ", need " ++ decimal_ℕ quorum_required)),
        [],
      )
      else if ltb count quorum_required
      then (
        false,
        codes "quorum not met: "
            ++ (decimal_ℕ count
                ++ (codes " valid signature(s), need " ++ decimal_ℕ quorum_required)),
        tally.approver_list,
      )
      else (true, codes "", tally.approver_list)

-- The TTL of the token: the minutes as an int64 Duration, or MaxTTL where that is out of range.
unfoldable pub granted_ttl : ℤ → ℤ
granted_ttl ttl_minutes =
    let ttl = mul64 ttl_minutes minute in
    if leb_ℤ ttl (pos 0) || ltb_ℤ max_ttl ttl then max_ttl else ttl

-- What Activate returns: a token, the reason of a refusal, or an error.
pub data Activation : Type 0 where
  activated : IssuedToken → Activation
  rejected : Text → Activation
  failed : Text → Activation

module _ {W : Type 0} (ed25519 : List ℕ → Text → List ℕ → Bool) where
  -- The token of the issuer, tagged, and the audit event.
  unfoldable pub finish_activation :
      Manager W → BreakGlassRequest → List Text → Result IssuedToken × W → Activation × W
  finish_activation m req approvers (err e, w) = (failed (codes "break-glass issue: " ++ e), w)
  finish_activation m req approvers (ok issued, w) =
      let tok = record issued {
        justification_type = codes "break_glass";
        justification_ref = req.reason;
      } in
      (
        activated tok,
        when_wired m.logger (log_break_glass tok.id req.user req.resource approvers) w,
      )

  -- Activate
  unfoldable pub activate : Manager W → BreakGlassRequest → W → Activation × W
  unfolding granted_ttl finish_activation
  activate m req w =
      let (quorum, reason, approvers) = verify ed25519 m req in
      if quorum
      then finish_activation m req approvers
          (m.issuer.issue req.user req.resource (granted_ttl req.ttl_minutes) w)
      else (rejected reason, w)
