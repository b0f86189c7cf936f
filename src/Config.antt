-- ===== src/Config.antt =====
-- config/config.go: the configuration, its durations, its defaults and its checks. YAML's decoder
-- and time.ParseDuration are parameters, and so is `%s` on a duration.
mod Types
pub mod Limits
pub use Types.*
use jit_access_broker.Prelude.{
  Bool, true, false, ◌||◌, Option, none, some, List, [], ◌++◌, if◌then◌else◌, ltb_ℤ, leb_ℤ, ℤ, pos,
  Text, codes, is_empty,
}
use jit_access_broker.Models.{second, max_ttl, max_session_duration, warning_before_expiry}
use jit_access_broker.Providers.{Result, ok, err}

-- A step runs where the ones before it returned no error.
infixl 10 ◌>>=◌
abbrev ◌>>=◌ : {A B : Type 0} → Result A → (A → Result B) → Result B
err e >>= k = err e
ok a >>= k = k a

abbrev tagged : {A : Type 0} → Text → Result A → Result A
tagged prefix (err e) = err (prefix ++ e)
tagged prefix (ok a) = ok a

module _ (parse_duration : Text → Result ℤ) where
  -- An empty string leaves the duration as it is.
  unfoldable pub duration_of : Text → Text → ℤ → Result ℤ
  duration_of key text current =
      if is_empty text then ok current else tagged (key ++ codes ": ") (parse_duration text)

  -- UnmarshalYAML on what the decoder read. The half-filled Config of an error is dropped, as Load
  -- drops it.
  unfoldable pub unmarshal_yaml : Config → Raw → Result Config
  unfolding duration_of
  unmarshal_yaml c r = do
    shutdown ←
        duration_of (codes "server.shutdown_timeout") r.server_shutdown_timeout
          c.server.shutdown_timeout
    vault_ttl ← duration_of (codes "vault.token_ttl") r.vault_token_ttl c.vault.token_ttl
    ttl ← duration_of (codes "token_ttl") r.token_ttl c.token_ttl
    session ←
        duration_of (codes "max_session_duration") r.max_session_duration c.max_session_duration
    warning ←
        duration_of (codes "warning_before_expiry") r.warning_before_expiry c.warning_before_expiry
    ok (record {
      server = record { addr = r.server_addr; shutdown_timeout = shutdown };
      providers = r.providers;
      vault = record {
        addr = r.vault_addr;
        token = r.vault_token;
        token_ttl = vault_ttl;
        max_tokens_per_user = r.vault_max_tokens_per_user;
      };
      aws = r.aws;
      token_ttl = ttl;
      max_session_duration = session;
      warning_before_expiry = warning;
      notifications = r.notifications;
      persistence = r.persistence;
      break_glass = r.break_glass;
      slack = r.slack;
    })

-- What Validate writes before its last checks.
abbrev with_session : Config → Config
with_session c =
    if leb_ℤ c.max_session_duration (pos 0)
    then record c { max_session_duration = max_session_duration }
    else c

abbrev with_warning : Config → Config
with_warning c =
    if leb_ℤ c.warning_before_expiry (pos 0)
    then record c { warning_before_expiry = warning_before_expiry }
    else c

-- What os.ReadFile and yaml's decoder answer for a path.
pub data ConfigFile : Type 0 where
  unreadable : Text → ConfigFile
  malformed : Text → ConfigFile
  decoded : Raw → ConfigFile

-- The zero Config.
abbrev pub zero_config : Config
zero_config = record {
  server = record { addr = []; shutdown_timeout = pos 0 };
  providers = record {
    pagerduty = record { api_base_url = []; api_token = [] };
    jira = record { api_base_url = []; username = []; api_token = [] };
  };
  vault = record { addr = []; token = []; token_ttl = pos 0; max_tokens_per_user = pos 0 };
  aws = record { region = []; access_key = []; secret_key = []; role_arn = [] };
  token_ttl = pos 0;
  max_session_duration = pos 0;
  warning_before_expiry = pos 0;
  notifications = record { slack_webhook_url = []; teams_webhook_url = []; enabled = false };
  persistence = record { path = [] };
  break_glass = record { trusted_approvers = [] };
  slack = record { enabled = false; signing_secret = []; bot_token = []; user_email_map = none };
}

module _ (show : ℤ → Text) where
  -- Validate: the error, and the Config that it leaves behind.
  unfoldable pub validate : Config → Option Text × Config
  validate c =
      let c1 = with_session c in
      if is_empty c.server.addr
      then (some (codes "server.addr must be set"), c)
      else if leb_ℤ c.token_ttl (pos 0)
      then (some (codes "token_ttl must be > 0"), c)
      else if ltb_ℤ max_ttl c.token_ttl
      then (
        some (
            codes "token_ttl "
            ++ (show c.token_ttl ++ (codes " exceeds hard max " ++ show max_ttl))),
        c,
      )
      else if is_empty c.vault.addr
      then (some (codes "vault.addr must be set"), c)
      else if leb_ℤ c.vault.token_ttl (pos 0) || ltb_ℤ max_ttl c.vault.token_ttl
      then (some (codes "vault.token_ttl must be in (0, " ++ (show max_ttl ++ codes "]")), c)
      else if is_empty c.providers.pagerduty.api_token
      then (some (codes "pagerduty.api_token must be set"), c)
      else if is_empty c.providers.jira.api_token
      then (some (codes "jira.api_token must be set"), c)
      else if ltb_ℤ max_session_duration c1.max_session_duration
      then (
        some (
            codes "max_session_duration "
            ++ (show c1.max_session_duration
                ++ (codes " exceeds hardcoded ceiling " ++ show max_session_duration))),
        c1,
      )
      else (none, with_warning c1)

  -- The end of Load: Validate on the Config that was parsed.
  abbrev checked : Result Config → Result Config
  checked (err e) = err (codes "parse config: " ++ e)
  checked (ok c) =
      let (failed, c') = validate c in
      elim failed [ some e ↦ err (codes "validate config: " ++ e) | none ↦ ok c' ]

  -- Load: the file's Config, over the zero Config.
  unfoldable pub load : (Text → Result ℤ) → ConfigFile → Result Config
  unfolding validate unmarshal_yaml
  load parse_duration (unreadable e) = err (codes "read config: " ++ e)
  load parse_duration (malformed e) = err (codes "parse config: " ++ e)
  load parse_duration (decoded r) = checked (unmarshal_yaml parse_duration zero_config r)

-- Default
unfoldable pub default : Config
default = record zero_config {
  server = record { addr = codes ":8080"; shutdown_timeout = pos 5000000000 };
  providers = record {
    pagerduty = record {
      api_base_url = codes "https://api.pagerduty.com";
      api_token = codes "default-disabled";
    };
    jira = record {
      api_base_url = codes "https://example.atlassian.net";
      username = codes "bot@example.com";
      api_token = codes "default-disabled";
    };
  };
  vault = record {
    addr = codes "https://127.0.0.1:8200";
    token = [];
    token_ttl = max_ttl;
    max_tokens_per_user = pos 3;
  };
  token_ttl = max_ttl;
  max_session_duration = max_session_duration;
  warning_before_expiry = warning_before_expiry;
}
