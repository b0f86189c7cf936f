-- ===== src/Providers/Vault.antt =====
-- providers/vault.go: the TokenIssuer of HashiCorp Vault. json.Marshal is a parameter at the two
-- bodies that the client sends.
pub mod Lease
use jit_access_broker.Prelude.{
  ℕ, Bool, true, false, not, ◌&&◌, Option, none, some, List, [], ◌∷◌, ◌++◌, ◌==◌, if◌then◌else◌, ℤ,
  Text, codes, is_empty, decimal_ℕ, hex_encode,
}
use jit_access_broker.Models.{Instant, IssuedToken, zero_token, whole_seconds, add_time}
use jit_access_broker.Providers.{Result, ok, err, TokenIssuer}
use jit_access_broker.Providers.Http.{
  HttpCall, HttpReply, HttpClient, Network, Machine, client_or_default,
}

pub record VaultClient (W : Type 0) : Type 0 where
  pub addr : Text
  pub token : Text
  pub http_client : Option (HttpClient W)

-- vaultCreateResp and vaultLookupResp, without their wrappers.
pub record VaultCreated : Type 0 where
  pub client_token : Text
  pub lease_duration : ℤ

pub record VaultLookup : Type 0 where
  pub id : Text
  pub ttl : ℤ
  pub renewable : Bool

-- The body of the create request; the metadata's purpose is always the same.
pub record VaultCreate : Type 0 where
  pub ttl : ℤ
  pub display_name : Text
  pub user : Text
  pub resource : Text
  pub purpose : Text

-- encoding/json at what the client sends and reads.
pub record VaultJson : Type 0 where
  pub marshal_create : VaultCreate → Text
  pub marshal_token : Text → Text
  pub decode_created : Text → Result VaultCreated
  pub decode_lookup : Text → Result VaultLookup

-- newTokenID
unfoldable pub new_token_id : {W : Type 0} → Machine W → W → Text × W
new_token_id m w = let (b, w') = m.rand_read 8 w in (codes "tok_" ++ hex_encode b, w')

abbrev pub status_error : Text → HttpReply → Text
status_error what reply =
    codes "vault "
    ++ what
    ++ codes ": status "
    ++ decimal_ℕ reply.status
    ++ codes ": "
    ++ reply.body

module _ {W : Type 0} (json : VaultJson) (net : Network W) (m : Machine W) (v : VaultClient W) where
  abbrev pub vault_call : Text → Text → HttpCall
  vault_call path body = record {
    method = codes "POST";
    url = v.addr ++ path;
    headers =
        (codes "X-Vault-Token", v.token) ∷ (codes "Content-Type", codes "application/json") ∷ [];
    body = body;
  }

  -- The token that Issue returns: its id is drawn after the clock is read.
  unfoldable pub mint : Text → Text → ℤ → Text → W → Result IssuedToken × W
  unfolding new_token_id
  mint user resource ttl client_token w =
      let (now, w1) = m.now w in
      let (id, w2) = new_token_id m w1 in
      (
        ok (record zero_token {
          id = id;
          user = user;
          resource = resource;
          token = client_token;
          issued_at = now;
          expires_at = add_time now ttl;
          provider = codes "vault";
        }),
        w2,
      )

  -- Issue from the reply on.
  unfoldable pub read_created : Text → Text → ℤ → Result HttpReply × W → Result IssuedToken × W
  unfolding mint
  read_created user resource ttl (err e, w) = (err (codes "vault create: " ++ e), w)
  read_created user resource ttl (ok reply, w) =
      if not (reply.status == 200)
      then (err (status_error (codes "create") reply), w)
      else elim (json.decode_created reply.body) [
        | err e ↦ (err (codes "vault create: decode: " ++ e), w)
        | ok vr ↦
            if is_empty vr.client_token
            then (err (codes "vault create: empty client_token"), w)
            else mint user resource ttl vr.client_token w
      ]

  abbrev pub create_request : Text → Text → ℤ → VaultCreate
  create_request user resource ttl = record {
    ttl = whole_seconds ttl;
    display_name = codes "jit-" ++ user ++ codes "-" ++ resource;
    user = user;
    resource = resource;
    purpose = codes "jit-access-broker";
  }

  abbrev pub create_call : Text → Text → ℤ → HttpCall
  create_call user resource ttl =
      vault_call (codes "/v1/auth/token/create")
        (json.marshal_create (create_request user resource ttl))

  -- Issue
  unfoldable pub vault_issue : Text → Text → ℤ → W → Result IssuedToken × W
  unfolding read_created
  vault_issue user resource ttl w =
      let call = create_call user resource ttl in
      if is_empty v.addr
      then (err (codes "vault: addr not configured"), w)
      else elim (net.bad_request call.method call.url) [
        | some e ↦ (err e, w)
        | none ↦ read_created user resource ttl ((client_or_default net v.http_client).send call w)
      ]

  -- Revoke from the reply on.
  unfoldable pub read_revoked : Result HttpReply → Option Text
  read_revoked (err e) = some (codes "vault revoke: " ++ e)
  read_revoked (ok reply) =
      if not (reply.status == 204) && not (reply.status == 200)
      then some (status_error (codes "revoke") reply)
      else none

  abbrev pub revoke_call : IssuedToken → HttpCall
  revoke_call t = vault_call (codes "/v1/auth/token/revoke") (json.marshal_token t.token)

  -- Revoke of a token that is not nil.
  unfoldable pub vault_revoke : IssuedToken → W → Option Text × W
  unfolding read_revoked
  vault_revoke t w =
      let call = revoke_call t in
      if is_empty t.token then (none, w) else elim (net.bad_request call.method call.url) [
        | some e ↦ (some e, w)
        | none ↦
            let (answer, w') = (client_or_default net v.http_client).send call w in
            (read_revoked answer, w')
      ]

  -- Lookup from the reply on.
  unfoldable pub read_lookup : Result HttpReply → Result VaultLookup
  read_lookup (err e) = err e
  read_lookup (ok reply) =
      if not (reply.status == 200)
      then err (codes "lookup status " ++ decimal_ℕ reply.status)
      else json.decode_lookup reply.body

  -- Lookup
  unfoldable pub vault_lookup : Text → W → Result VaultLookup × W
  unfolding read_lookup
  vault_lookup token w =
      let call = vault_call (codes "/v1/auth/token/lookup") (json.marshal_token token) in
      elim (net.bad_request call.method call.url) [
        | some e ↦ (err e, w)
        | none ↦
            let (answer, w') = (client_or_default net v.http_client).send call w in
            (read_lookup answer, w')
      ]

  abbrev pub vault_issuer : TokenIssuer W
  vault_issuer = record { issue = vault_issue; revoke = vault_revoke; name = codes "vault" }
