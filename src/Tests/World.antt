-- ===== src/Tests/World.antt =====
-- The concrete values that the examples share. The world has one state.
use jit_access_broker.Prelude.{ℕ, ◌+◌, ◌*◌, none, some, Text, codes}
use jit_access_broker.Models.{IssuedToken, Instant, zero_token}
use jit_access_broker.Providers.{TokenIssuer, Context, ok}
use jit_access_broker.Store.{Store, new, add}

abbrev pub World : Type 0
World = Unit {0}

abbrev pub token_of : Text → Instant → Instant → IssuedToken
token_of id issued expires = record zero_token {
  id = id;
  user = codes "ann";
  resource = codes "db";
  token = codes "secret";
  issued_at = issued;
  expires_at = expires;
}

-- An issuer that mints one token and revokes all.
abbrev pub issuer : TokenIssuer World
issuer = record {
  issue = λ user resource ttl w. (ok (token_of (codes "t9") 5 (5 + 100)), w);
  revoke = λ t w. (none, w);
  name = codes "demo";
}

abbrev pub background : Context World
background = record { ctx_err = λ w. none }

abbrev pub minutes : ℕ → ℕ
minutes n = n * 60000000000

abbrev pub empty_store : Store World
unfolding new
empty_store = new (some issuer)

-- Two tokens, which expire after 10 and after 30 minutes.
abbrev pub first_token : IssuedToken
first_token = token_of (codes "a") (minutes 1) (minutes 11)

abbrev pub second_token : IssuedToken
second_token = token_of (codes "b") (minutes 1) (minutes 31)

abbrev pub two_tokens : Store World
two_tokens = add (add empty_store first_token) second_token

-- A long session: it started in minute 1, and its token expires in minute 200.
abbrev pub long_session : Store World
long_session = add empty_store (token_of (codes "c") (minutes 1) (minutes 200))
