-- ===== src/Providers/Stubs.antt =====
-- providers/aws.go and providers/demo.go: the issuers without a backend.
use jit_access_broker.Prelude.{
  Option, none, List, [], ◌∷◌, ◌++◌, if◌then◌else◌, ℤ, Text, codes, is_empty, hex_encode,
}
use jit_access_broker.Models.{IssuedToken, zero_token, add_time}
use jit_access_broker.Providers.{Result, ok, err, TokenIssuer}
use jit_access_broker.Providers.Http.{Machine}
use jit_access_broker.Providers.Vault.{new_token_id}

pub record AwsClient : Type 0 where
  pub region : Text
  pub access_key : Text
  pub secret_key : Text
  pub role_arn : Text

-- The RevokedTokens of a *DemoIssuer, as a place in the world.
pub record RevokedTokens (W : Type 0) : Type 0 where
  pub read : W → List Text
  pub write : List Text → W → W

module _ {W : Type 0} (m : Machine W) where
  -- AWSClient.Issue: the id and the token are drawn after the clock is read.
  unfoldable pub aws_issue : AwsClient → Text → Text → ℤ → W → Result IssuedToken × W
  unfolding new_token_id
  aws_issue a user resource ttl w =
      if is_empty a.role_arn
      then (err (codes "aws: role_arn not configured: provider: not implemented in this build"), w)
      else let (now, w1) = m.now w in
        let (id, w2) = new_token_id m w1 in
        let (stub, w3) = new_token_id m w2 in
        (
          ok (record zero_token {
            id = id;
            user = user;
            resource = resource;
            token = codes "AWSSTUB-" ++ stub;
            issued_at = now;
            expires_at = add_time now ttl;
            provider = codes "aws";
          }),
          w3,
        )

  -- AWSClient.Revoke does nothing.
  abbrev pub aws_issuer : AwsClient → TokenIssuer W
  aws_issuer a = record { issue = aws_issue a; revoke = λ t w. (none, w); name = codes "aws" }

  -- DemoIssuer.Issue: the bytes are drawn before the clock is read.
  unfoldable pub demo_issue : Text → Text → ℤ → W → Result IssuedToken × W
  demo_issue user resource ttl w =
      let (b, w1) = m.rand_read 8 w in
      let (now, w2) = m.now w1 in
      (
        ok (record zero_token {
          id = codes "tok_" ++ hex_encode b;
          user = user;
          resource = resource;
          token = codes "demo-" ++ user ++ codes "-" ++ hex_encode b;
          issued_at = now;
          expires_at = add_time now ttl;
          provider = codes "demo";
        }),
        w2,
      )

  -- DemoIssuer.Revoke of a token that is not nil.
  unfoldable pub demo_revoke : RevokedTokens W → IssuedToken → W → Option Text × W
  demo_revoke d t w = (none, d.write (d.read w ++ t.token ∷ []) w)

  abbrev pub demo_issuer : RevokedTokens W → TokenIssuer W
  demo_issuer d = record { issue = demo_issue; revoke = demo_revoke d; name = codes "demo" }
