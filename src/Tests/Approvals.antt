-- ===== src/Tests/Approvals.antt =====
-- Break-glass requests with two approvals, under a signature scheme that accepts every signature of
-- the right length.
use jit_access_broker.Prelude.{
  ℕ, zero, suc, ◌+◌, ◌*◌, ◌≤◌, ◌<◌, ◌≡◌, ◌↔◌, refl, Bool, true, false, none, some, List, [], ◌∷◌,
  ◌++◌, In, inl, inr, pos, pos_part, Text, codes, arith, str_eq, hex_decode, is_empty,
}
use jit_access_broker.Prelude.Dict.{lookup, insert}
use jit_access_broker.Models.{IssuedToken, minute, max_ttl}
use jit_access_broker.Providers.{ok, err}
use jit_access_broker.Breakglass.{
  ApprovalSignature, BreakGlassRequest, Manager, activate, count_signatures, finish_activation,
  granted_ttl, is_valid_signature, quorum_required, record_approval, verify,
}
use jit_access_broker.Breakglass.Quorum.{Distinct}
use jit_access_broker.Breakglass.Decision.{
  Approves, verify_sound, verify_complete, granted_ttl_bounds, verify_ambiguous,
}
use jit_access_broker.Store.{add}
use jit_access_broker.Api.{Server, HttpRequest, Decoder}
use jit_access_broker.Api.Access.{break_glass_activate, answer_activation}
use jit_access_broker.Api.Guards.{break_glass_activate_granted}
use jit_access_broker.Tests.World.{World, issuer, token_of, minutes, empty_store}

abbrev any_signature : List ℕ → Text → List ℕ → Bool
any_signature key message signature = true

abbrev repeated : ℕ → ℕ → List ℕ
repeated zero c = []
repeated (suc n) c = c ∷ repeated n c

-- The hexadecimal digits of a key and of a signature of zero bytes.
abbrev zero_key : Text
zero_key = repeated 64 b'0'

abbrev zero_signature : Text
zero_signature = repeated 128 b'0'

abbrev manager : Manager World
manager = record {
  trusted_approvers = (codes "eve", zero_key) ∷ (codes "bob", zero_key) ∷ [];
  issuer = issuer;
  logger = none;
}

abbrev signed_by : Text → ApprovalSignature
signed_by id = record { approver_id = id; signature = zero_signature }

abbrev request : BreakGlassRequest
request = record {
  user = codes "ann";
  resource = codes "db";
  reason = codes "outage";
  ttl_minutes = pos 30;
  signatures = signed_by (codes "eve") ∷ signed_by (codes "eve") ∷ signed_by (codes "bob") ∷ [];
}

verify_sound_example :
    (is_empty (codes "ann") ≡ false)
    × (is_empty (codes "db") ≡ false)
    × (quorum_required ≤ 2)
    × Distinct (codes "eve" ∷ codes "bob" ∷ [])
    × ((id : Text)
        → In id (codes "eve" ∷ codes "bob" ∷ []) ↔ Approves any_signature manager request id)
unfolding verify count_signatures is_valid_signature record_approval lookup insert str_eq hex_decode
verify_sound_example =
    verify_sound any_signature manager request (codes "") (codes "eve" ∷ codes "bob" ∷ []) refl

verify_complete_example : (verify any_signature manager request).0 ≡ true
unfolding lookup str_eq hex_decode
verify_complete_example =
    verify_complete any_signature manager request (codes "eve") (codes "bob") refl refl
      (λ e. absurd (ground (arith, e)))
      (
        signed_by (codes "eve"),
        inl refl,
        refl,
        (zero_key, refl, repeated 32 0, refl, refl, repeated 64 0, refl, refl, refl),
      )
      (
        signed_by (codes "bob"),
        inr (inr (inl refl)),
        refl,
        (zero_key, refl, repeated 32 0, refl, refl, repeated 64 0, refl, refl, refl),
      )

granted_ttl_bounds_example :
    (d : ℕ) × (granted_ttl (pos 90) ≡ pos d)
    × (0 < d)
    × (d ≤ pos_part max_ttl)
    × ((n : ℕ) → pos 90 ≡ pos n → 0 < n → n ≤ 60 → d ≡ n * minute)
granted_ttl_bounds_example = granted_ttl_bounds (pos 90)

abbrev minted : IssuedToken
minted = record (token_of (codes "t9") 5 (5 + 100)) {
  justification_type = codes "break_glass";
  justification_ref = codes "outage";
}

verify_ambiguous_example :
    verify any_signature manager
      (record request { user = codes "ann"; resource = codes "dev" ++ (b'|' ∷ codes "prod") })
    ≡ verify any_signature manager
        (record request { user = codes "ann" ++ (b'|' ∷ codes "dev"); resource = codes "prod" })
verify_ambiguous_example =
    verify_ambiguous any_signature manager request (codes "ann") (codes "dev") (codes "prod") refl
      refl

abbrev server : Server World
server = record {
  engine = record { validators = [] };
  issuer = issuer;
  ttl = max_ttl;
  audit_log = none;
  bg_manager = some manager;
}

abbrev decoder : Decoder
decoder = record {
  decode_access = λ body. err (codes "unused");
  decode_extension = λ body. err (codes "unused");
  decode_break_glass = λ body. ok request;
}

abbrev post : HttpRequest
post = record { method = codes "POST"; path = []; body = [] }

break_glass_activate_granted_example :
    (m : Manager World) × (some manager ≡ some m)
    × (req : BreakGlassRequest) × (decoder.decode_break_glass [] ≡ ok req)
    × ((verify any_signature m req).0 ≡ true)
    × (issued : IssuedToken) × ((m.issuer.issue req.user req.resource
          (granted_ttl req.ttl_minutes)
          tt).0
        ≡ ok issued)
    × ((break_glass_activate server decoder
          (λ t. t)
          any_signature
          empty_store
          post
          (minutes 1)
          tt).1
        ≡ add empty_store (record issued {
          justification_type = codes "break_glass";
          justification_ref = req.reason;
        }))
unfolding break_glass_activate answer_activation activate finish_activation verify count_signatures
    is_valid_signature record_approval lookup insert str_eq hex_decode
break_glass_activate_granted_example =
    break_glass_activate_granted server decoder (λ t. t) any_signature empty_store post (minutes 1)
      tt refl
