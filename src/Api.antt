-- ===== src/Api.antt =====
-- api/server.go: the HTTP handlers, each a function from a request, the store and the world to the
-- response, the store and the world after it. encoding/json's decoder is a parameter; writing the
-- response and the no-op logging middleware are left out.
pub mod Access
pub mod Guards
pub mod Sessions
pub mod Listing
use jit_access_broker.Prelude.{
  ℕ, zero, suc, ◌/◌, Bool, true, false, not, Option, none, some, List, [], ◌∷◌, map, length,
  if◌then◌else◌, ℤ, pos, negsuc, sub_ℕ, Text, codes, is_empty, str_eq, starts_with,
}
use jit_access_broker.Models.{
  Instant, IssuedToken, AccessRequest, ExtensionRequest, AccessResponse, ErrorResponse,
  ExtensionResponse, whole_seconds, add_time, sub_time, max_session_duration,
}
use jit_access_broker.Audit.{Logger}
use jit_access_broker.Providers.{Result, ok, err, TokenIssuer, Context}
use jit_access_broker.Auth.{Engine}
use jit_access_broker.Breakglass.{BreakGlassRequest, Manager}
use jit_access_broker.Store.{Store, get, list, revoke_now}

pub record Server (W : Type 0) : Type 0 where
  pub engine : Engine W
  pub issuer : TokenIssuer W
  pub ttl : ℤ
  pub audit_log : Option (Logger W)
  pub bg_manager : Option (Manager W)

-- NewServer, without its Store, which is passed along.
abbrev pub new_server : {W : Type 0} → Engine W → TokenIssuer W → ℤ → Server W
new_server engine issuer ttl = record {
  engine = engine;
  issuer = issuer;
  ttl = ttl;
  audit_log = none;
  bg_manager = none;
}

-- SetAuditLogger and SetBreakGlassManager
abbrev pub wire_audit_logger : {W : Type 0} → Server W → Option (Logger W) → Server W
wire_audit_logger srv l = record srv { audit_log = l }

abbrev pub wire_break_glass : {W : Type 0} → Server W → Option (Manager W) → Server W
wire_break_glass srv m = record srv { bg_manager = m }

pub record HttpRequest : Type 0 where
  pub method : Text
  pub path : Text
  pub body : Text

-- json.NewDecoder(r.Body).Decode at the three request types.
pub record Decoder : Type 0 where
  pub decode_access : Text → Result AccessRequest
  pub decode_extension : Text → Result ExtensionRequest
  pub decode_break_glass : Text → Result BreakGlassRequest

-- The local type `safe` of listTokens: a token without its credential.
pub record Safe : Type 0 where
  pub id : Text
  pub user : Text
  pub resource : Text
  pub provider : Text
  pub issued_at : Instant
  pub expires_at : Instant
  pub original_issued_at : Instant
  pub extension_count : ℕ

pub data Body : Type 0 where
  failure : ErrorResponse → Body
  access : AccessResponse → Body
  extension : ExtensionResponse → Body
  tokens : List Safe → ℕ → Body
  revoked : Text → Body
  healthy : Body

pub record Response : Type 0 where
  pub status : ℕ
  pub body : Body

abbrev pub respond : ℕ → Body → Response
respond status body = record { status = status; body = body }

-- An ErrorResponse that names no status in its body has 0 there.
abbrev pub refuse : ℕ → Text → Text → ℕ → Response
refuse status error reason named =
    respond status (failure (record { error = error; reason = reason; status = named }))

abbrev pub is_method : HttpRequest → Text → Bool
is_method r method = str_eq r.method method

abbrev pub access_response : IssuedToken → ℤ → AccessResponse
access_response tok seconds = record {
  granted = true;
  token = tok.token;
  token_id = tok.id;
  resource = tok.resource;
  issued_at = tok.issued_at;
  expires_at = tok.expires_at;
  ttl_seconds = seconds;
  max_session_at = add_time tok.original_issued_at max_session_duration;
}

-- healthz
unfoldable pub healthz : HttpRequest → Response
healthz r = respond 200 healthy

abbrev pub safe : IssuedToken → Safe
safe t = record {
  id = t.id;
  user = t.user;
  resource = t.resource;
  provider = t.provider;
  issued_at = t.issued_at;
  expires_at = t.expires_at;
  original_issued_at = t.original_issued_at;
  extension_count = t.extension_count;
}

abbrev pub skip : ℕ → Text → Text
skip zero s = s
skip (suc n) [] = []
skip (suc n) (c ∷ s) = skip n s

-- strings.TrimPrefix
unfoldable pub trim_prefix : Text → Text → Text
trim_prefix s prefix = if starts_with s prefix then skip (length prefix) s else s

abbrev pub revoke_path : Text
revoke_path = codes "/api/v1/access/revoke/"

-- revokeToken from RevokeNow on.
abbrev revoke_answer : Text → Option Text → Response
revoke_answer id (some e) = refuse 500 (codes "revoke_failed") e 0
revoke_answer id none = respond 200 (revoked id)

module _ {W : Type 0} where
  -- listTokens
  unfoldable pub list_tokens : Store W → HttpRequest → Response
  list_tokens s r =
      let out = map safe (list s) in
      if not (is_method r (codes "GET"))
      then refuse 405 (codes "method_not_allowed") [] 0
      else respond 200 (tokens out (length out))

  -- revokeToken
  unfoldable pub revoke_token : Store W → Context W → HttpRequest → W → Response × Store W × W
  unfolding trim_prefix
  revoke_token s ctx r w =
      let id = trim_prefix r.path revoke_path in
      if not (is_method r (codes "POST"))
      then (refuse 405 (codes "method_not_allowed") [] 0, s, w)
      else if is_empty id
      then (refuse 400 (codes "missing_token_id") [] 0, s, w)
      else elim (get s id) [
        | none ↦ (refuse 404 (codes "token_not_found") [] 404, s, w)
        | some t ↦
            let (problem, s', w') = revoke_now s ctx id w in (revoke_answer id problem, s', w')
      ]
