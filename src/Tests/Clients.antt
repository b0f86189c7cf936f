-- ===== src/Tests/Clients.antt =====
-- The provider clients over a network that answers one body to every call, the sinks and jitctl.
use jit_access_broker.Prelude.{
  ℕ, ◌≡◌, ◌↔◌, refl, ◌⊎◌, true, Option, none, some, List, [], ◌∷◌, Text, codes, arith, is_empty,
  str_eq, hex_encode, pos, zero, suc, ◌<◌, length, subst,
}
use jit_access_broker.Prelude.Hex.{IsBytes}
use jit_access_broker.Prelude.Dict.{lookup}
use jit_access_broker.Models.{IssuedToken, zero_token, max_ttl}
use jit_access_broker.Providers.{Result, ok, err}
use jit_access_broker.Providers.Http.{HttpReply, Network, Machine}
use jit_access_broker.Providers.PagerDuty.{PagerDutyClient, Incident, pagerduty_validate}
use jit_access_broker.Providers.PagerDuty.Verdict
use jit_access_broker.Providers.PagerDuty.Verdict.{pagerduty_validate_iff}
use jit_access_broker.Providers.Jira.{JiraClient, Issue, jira_validate}
use jit_access_broker.Providers.Jira.Verdict.{IsWorkingOn, jira_validate_iff}
use jit_access_broker.Providers.Vault.{
  VaultClient, VaultJson, new_token_id, mint, read_created, vault_issue, vault_revoke, revoke_call,
}
use jit_access_broker.Providers.Vault.Lease.{
  IsGrantedBy, IsFresh, vault_issue_sound, vault_revoke-none_iff,
}
use jit_access_broker.Notifier.{Notifier, noop_notifier}
use jit_access_broker.Breakglass.{BreakGlassRequest, canonical_message, is_valid_signature}
use jit_access_broker.Breakglass.Signing.{
  Ed25519, IsSound, generate_key_pair, sign_message, is_valid_signature-sign_message,
}
use jit_access_broker.Tests.World.{World}
use jit_access_broker.Tests.Gates.{quoted}

abbrev pub same_case : ℕ → ℕ
same_case c = c

abbrev pub network : Network World
network = record {
  bad_request = λ method url. none;
  default_client = record { send = λ call w. (ok (record { status = 200; body = [] }), w) };
}

abbrev pub repeated : ℕ → ℕ → List ℕ
repeated zero c = []
repeated (suc n) c = c ∷ repeated n c

abbrev pub machine : Machine World
machine = record { now = λ w. (7, w); rand_read = λ n w. (repeated n 171, w) }

abbrev pub assigned : Text → Result Incident
assigned body = ok (record {
  status = codes "acknowledged";
  assignments = record { id = codes "PX"; summary = codes "ann"; html_url = [] } ∷ [];
})

abbrev pager : PagerDutyClient World
pager = record { base_url = codes "https://pd/"; api_token = codes "t"; http_client = none }

pagerduty_validate_iff_example :
    ((pagerduty_validate same_case quoted assigned network pager (codes "ann") (codes "Q1") tt).0
      ≡ ok (true, codes ""))
    ↔ ((codes "" ≡ [])
        × Verdict.IsOnCall same_case quoted assigned network pager (codes "ann") (codes "Q1") tt)
pagerduty_validate_iff_example =
    pagerduty_validate_iff same_case quoted assigned network pager (codes "ann") (codes "Q1") [] tt

abbrev pub in_progress : Text → Result Issue
in_progress body = ok (record {
  status_name = codes "In Progress";
  account_id = [];
  email_address = codes "ann";
  display_name = codes "Ann";
})

abbrev cloud : JiraClient World
cloud = record {
  base_url = codes "https://jira";
  username = codes "bot";
  api_token = codes "t";
  http_client = none;
}

jira_validate_iff_example :
    ((jira_validate same_case quoted in_progress quoted network cloud
        (codes "ann")
        (codes "D-1")
        tt).0
      ≡ ok (true, codes ""))
    ↔ ((codes "" ≡ [])
        × IsWorkingOn same_case quoted in_progress quoted network cloud
            (codes "ann")
            (codes "D-1")
            tt)
jira_validate_iff_example =
    jira_validate_iff same_case quoted in_progress quoted network cloud (codes "ann") (codes "D-1")
      [] tt

abbrev pub vault_json : VaultJson
vault_json = record {
  marshal_create = λ body. [];
  marshal_token = λ token. token;
  decode_created = λ body. ok (record { client_token = codes "s.1"; lease_duration = pos 60 });
  decode_lookup = λ body. err (codes "unused");
}

abbrev vault : VaultClient World
vault = record { addr = codes "https://vault"; token = codes "root"; http_client = none }

abbrev minted : IssuedToken
minted = record zero_token {
  id = codes "tok_abababababababab";
  user = codes "ann";
  resource = codes "db";
  token = codes "s.1";
  issued_at = 7;
  expires_at = 3600000000007;
  provider = codes "vault";
}

vault_issue_sound_example :
    IsGrantedBy vault_json network machine vault (codes "ann") (codes "db") max_ttl tt (codes "s.1")
    × IsFresh vault_json network machine vault (codes "ann") (codes "db") max_ttl minted
unfolding vault_issue read_created mint new_token_id hex_encode
vault_issue_sound_example =
    vault_issue_sound vault_json network machine vault (codes "ann") (codes "db") max_ttl tt minted
      refl

vault_revoke-none_iff_example :
    ((vault_revoke vault_json network machine vault minted tt).0 ≡ none) ↔ (
      (is_empty (codes "s.1") ≡ true)
      ⊎ ((network.bad_request (codes "POST") (codes "https://vault/v1/auth/token/revoke") ≡ none)
          × (reply : HttpReply) × ((network.default_client.send
                (revoke_call vault_json network machine vault minted)
                tt).0
              ≡ ok reply)
          × ((reply.status ≡ 204) ⊎ (reply.status ≡ 200))))
vault_revoke-none_iff_example = vault_revoke-none_iff vault_json network machine vault minted tt

-- A sink that is broken.
abbrev broken : Notifier World
broken = record { notify_expiring = λ t left w. (some (codes "down"), w) }

abbrev sinks : List (Option (Notifier World))
sinks = some broken ∷ none ∷ some noop_notifier ∷ []

abbrev first_of : List Text → Text
first_of [] = []
first_of (e ∷ errs) = e

-- A scheme whose signatures are all the same.
abbrev scheme : Ed25519 World
scheme = record {
  generate_key = λ w. (ok (repeated 32 1, repeated 64 2), w);
  sign = λ key message. repeated 64 3;
  verify = λ key message signature. true;
}

repeated-IsBytes : (n c : ℕ) → c < 256 → IsBytes (repeated n c)
repeated-IsBytes zero c h = tt
repeated-IsBytes (suc n) c h = (h, repeated-IsBytes n c h)

parts :
    (a b p q : List ℕ)
    → ◌≡◌ {A = Result (List ℕ × List ℕ)} (ok (a, b)) (ok (p, q))
    → (a ≡ p) × (b ≡ q)
parts a b p q e = (ground arith, ground arith)

scheme-IsSound : IsSound scheme
scheme-IsSound = record {
  public_size =
      λ w p q e. subst (λ k. length k ≡ 32) (parts (repeated 32 1) (repeated 64 2) p q e).0 refl;
  private_size =
      λ w p q e. subst (λ k. length k ≡ 64) (parts (repeated 32 1) (repeated 64 2) p q e).1 refl;
  public_bytes = λ w p q e.
      subst IsBytes (parts (repeated 32 1) (repeated 64 2) p q e).0
        (repeated-IsBytes 32 1 (omega arith));
  private_bytes = λ w p q e.
      subst IsBytes (parts (repeated 32 1) (repeated 64 2) p q e).1
        (repeated-IsBytes 64 2 (omega arith));
  signature_size = λ q message. refl;
  signature_bytes = λ q message. repeated-IsBytes 64 3 (omega arith);
  verified = λ w p q message e. refl;
}

abbrev plea : BreakGlassRequest
plea = record {
  user = codes "ann";
  resource = codes "db";
  reason = codes "outage";
  ttl_minutes = pos 30;
  signatures = [];
}

is_valid_signature-sign_message_example :
    (sig : Text) × (sign_message scheme quoted (hex_encode (repeated 64 2)) plea ≡ ok sig)
    × (is_valid_signature scheme.verify
          ((codes "eve", hex_encode (repeated 32 1)) ∷ [])
          (canonical_message plea)
          (record { approver_id = codes "eve"; signature = sig })
        ≡ true)
unfolding generate_key_pair lookup str_eq
is_valid_signature-sign_message_example =
    is_valid_signature-sign_message scheme quoted tt (hex_encode (repeated 32 1))
      (hex_encode (repeated 64 2)) (codes "eve") ((codes "eve", hex_encode (repeated 32 1)) ∷ [])
      plea scheme-IsSound refl refl
