-- ===== src/Providers/Vault/Lease.antt =====
-- What Vault's client mints, and when a revocation counts as done.
use jit_access_broker.Prelude.{
  ℕ, ◌+◌, ◌*◌, ◌/◌, ◌≤◌, ◌<◌, subst, ◌≡◌, ◌↔◌, ◌⊎◌, inl, inr, refl, sym, ◌∙◌, ap, true, false, none,
  ◌++◌, ◌==◌, arith, Bool-cases, Option-cases, ℤ, pos, Text, codes, is_empty, hex_encode,
  hex_decode,
}
use jit_access_broker.Prelude.Hex.{IsBytes, hex_decode-hex_encode}
use jit_access_broker.Models.{IssuedToken, second, add_time}
use jit_access_broker.Providers.{Result-cases, ok}
use jit_access_broker.Providers.Http.{HttpReply, Network, Machine, client_or_default}
use jit_access_broker.Providers.Vault.{
  VaultClient, VaultCreated, VaultJson, new_token_id, mint, read_created, create_request,
  create_call, vault_issue, read_revoked, revoke_call, vault_revoke,
}

-- The TTL that Issue asks Vault for is the given one in whole seconds, rounded down.
pub create_request_bounds :
    {W : Type 0} (json : VaultJson) (net : Network W) (m : Machine W) (v : VaultClient W)
    (user resource : Text) (n : ℕ)
    → (q : ℕ) × ((create_request json net m v user resource (pos n)).ttl ≡ pos q)
      × (q * second ≤ n)
      × (n < (q + 1) * second)
create_request_bounds json net m v user resource n = (n / second, refl, omega arith, omega arith)

module _ {W : Type 0} (json : VaultJson) (net : Network W) (m : Machine W) (v : VaultClient W) where
  -- A fresh token of this user and resource: not revoked, without a session yet, expiring a TTL after
  -- its issue, under a new id.
  abbrev pub IsFresh : Text → Text → ℤ → IssuedToken → Type 0
  IsFresh user resource ttl tok =
      (tok.user ≡ user)
      × (tok.resource ≡ resource)
      × (tok.provider ≡ codes "vault")
      × (tok.revoked ≡ false)
      × (tok.original_issued_at ≡ 0)
      × (tok.expires_at ≡ add_time tok.issued_at ttl)
      × (w : W) × (tok.id ≡ codes "tok_" ++ hex_encode (m.rand_read 8 w).0)

  mint-IsFresh :
      (user resource : Text) (ttl : ℤ) (client_token : Text) (w : W)
      → (tok : IssuedToken) × ((mint json net m v user resource ttl client_token w).0 ≡ ok tok)
        × (tok.token ≡ client_token)
        × IsFresh user resource ttl tok
  unfolding mint new_token_id
  mint-IsFresh user resource ttl client_token w =
      (_, refl, refl, (refl, refl, refl, refl, refl, refl, _, refl))

  -- Vault answered the create call with 200 and a client token.
  abbrev pub IsGrantedBy : Text → Text → ℤ → W → Text → Type 0
  IsGrantedBy user resource ttl w client_token =
      let call = create_call json net m v user resource ttl in
      (is_empty v.addr ≡ false)
      × (net.bad_request call.method call.url ≡ none)
      × (reply : HttpReply) × (((client_or_default net v.http_client).send call w).0 ≡ ok reply)
      × (reply.status ≡ 200)
      × (vr : VaultCreated) × (json.decode_created reply.body ≡ ok vr)
      × (vr.client_token ≡ client_token)
      × (is_empty client_token ≡ false)

  ok-injective : {A : Type 0} (a b : A) → ok a ≡ ok b → a ≡ b
  ok-injective a b h = ground arith

  read_created_sound :
      (user resource : Text) (ttl : ℤ) (reply : HttpReply) (w : W) (tok : IssuedToken)
      → (read_created json net m v user resource ttl (ok reply, w)).0 ≡ ok tok
      → (reply.status ≡ 200)
        × (vr : VaultCreated) × (json.decode_created reply.body ≡ ok vr)
        × (vr.client_token ≡ tok.token)
        × (is_empty tok.token ≡ false)
        × IsFresh user resource ttl tok
  unfolding read_created
  read_created_sound user resource ttl reply w tok h = elim (Bool-cases (reply.status == 200)) [
    | inr q ↦ absurd (ground arith)
    | inl q ↦ elim (Result-cases (json.decode_created reply.body)) [
      | inr (e, q') ↦ absurd (ground arith)
      | inl (vr, q') ↦ elim (Bool-cases (is_empty vr.client_token)) [
        | inl q'' ↦ absurd (ground arith)
        | inr q'' ↦
            let (tok', minted, same, fresh) = mint-IsFresh user resource ttl vr.client_token w in
            let e : tok' ≡ tok = ground arith in
            (
              ground arith,
              vr,
              q',
              sym same ∙ ap (λ t. t.token) e,
              ap is_empty (sym (ap (λ t. t.token) e) ∙ same) ∙ q'',
              subst (IsFresh user resource ttl) e fresh,
            )
      ]
    ]
  ]

  -- Issue hands out only what Vault minted: a token that it returns carries the non-empty client token
  -- of a 200 answer to the create call, is for the given user and resource, is not revoked and has no
  -- session yet, expires the TTL after its issue, and has an id made of the prefix and the digits of
  -- random bytes.
  pub vault_issue_sound :
      (user resource : Text) (ttl : ℤ) (w : W) (tok : IssuedToken)
      → (vault_issue json net m v user resource ttl w).0 ≡ ok tok
      → IsGrantedBy user resource ttl w tok.token × IsFresh user resource ttl tok
  unfolding vault_issue
  vault_issue_sound user resource ttl w tok h =
      let call = create_call json net m v user resource ttl in
      let (answer, w') = (client_or_default net v.http_client).send call w in
      elim (Bool-cases (is_empty v.addr)) [
        | inl q ↦ absurd (ground arith)
        | inr q ↦ elim (Option-cases (net.bad_request call.method call.url)) [
          | inr (e, q') ↦ absurd (ground arith)
          | inl q' ↦ elim (Result-cases answer) [
            | inr (e, q'') ↦ unfold read_created in absurd (ground arith)
            | inl (reply, q'') ↦
                let (status, vr, d, same, nonempty, fresh) =
                  read_created_sound user resource ttl reply w' tok (ground arith) in
                ((q, q', reply, q'', status, vr, d, same, nonempty), fresh)
          ]
        ]
      ]

  -- Revoke returns nil exactly when there is nothing to revoke, or Vault answered the revoke call with
  -- 204 or 200: any other status, a failed call or a malformed address is an error.
  pub vault_revoke-none_iff :
      (t : IssuedToken) (w : W)
      → let call = revoke_call json net m v t in
        ((vault_revoke json net m v t w).0 ≡ none) ↔ (
          (is_empty t.token ≡ true)
          ⊎ ((net.bad_request call.method call.url ≡ none)
              × (reply : HttpReply) × (((client_or_default net v.http_client).send call w).0
                  ≡ ok reply)
              × ((reply.status ≡ 204) ⊎ (reply.status ≡ 200))))
  unfolding vault_revoke read_revoked
  vault_revoke-none_iff t w =
      let call = revoke_call json net m v t in
      (
        λ h. elim (Bool-cases (is_empty t.token)) [
          | inl q ↦ inl q
          | inr q ↦ elim (Option-cases (net.bad_request call.method call.url)) [
            | inr (e, q') ↦ absurd (ground arith)
            | inl q' ↦ elim (Result-cases ((client_or_default net v.http_client).send call w).0) [
              | inr (e, q'') ↦ absurd (ground arith)
              | inl (reply, q'') ↦ inr (q', reply, q'', ground arith)
            ]
          ]
        ],
        λ h. elim h [
          | inl q ↦ ground arith
          | inr (q', reply, q'', status) ↦ elim (Bool-cases (is_empty t.token)) [
            | inl q ↦ ground arith
            | inr q ↦ ground arith
          ]
        ],
      )

-- Ids are as distinct as the random bytes: where rand.Read fills the slice with bytes, two ids of
-- newTokenID are equal only if the bytes drawn for them are.
pub new_token_id_injective :
    {W : Type 0} (m : Machine W) (w w' : W)
    → IsBytes (m.rand_read 8 w).0
    → IsBytes (m.rand_read 8 w').0
    → (new_token_id m w).0 ≡ (new_token_id m w').0
    → (m.rand_read 8 w).0 ≡ (m.rand_read 8 w').0
unfolding new_token_id
new_token_id_injective m w w' b b' h =
    let x = (m.rand_read 8 w).0 in
    let y = (m.rand_read 8 w').0 in
    let same : hex_encode x ≡ hex_encode y = ground arith in
    let decoded =
      sym (hex_decode-hex_encode x b) ∙ ap hex_decode same ∙ hex_decode-hex_encode y b' in
    ground arith
