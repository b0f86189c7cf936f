-- ===== src/Config/Types.antt =====
-- The records of config/config.go, and what the YAML decoder reads into.
use jit_access_broker.Prelude.{Bool, Option, List, ℤ, Text}

pub record ServerConfig : Type 0 where
  pub addr : Text
  pub shutdown_timeout : ℤ

pub record PagerDutyConfig : Type 0 where
  pub api_base_url : Text
  pub api_token : Text

pub record JiraConfig : Type 0 where
  pub api_base_url : Text
  pub username : Text
  pub api_token : Text

pub record ProvidersConfig : Type 0 where
  pub pagerduty : PagerDutyConfig
  pub jira : JiraConfig

pub record VaultConfig : Type 0 where
  pub addr : Text
  pub token : Text
  pub token_ttl : ℤ
  pub max_tokens_per_user : ℤ

pub record AwsConfig : Type 0 where
  pub region : Text
  pub access_key : Text
  pub secret_key : Text
  pub role_arn : Text

pub record NotificationsConfig : Type 0 where
  pub slack_webhook_url : Text
  pub teams_webhook_url : Text
  pub enabled : Bool

pub record PersistenceConfig : Type 0 where
  pub path : Text

pub record BreakGlassConfig : Type 0 where
  pub trusted_approvers : List (Text × Text)

pub record SlackConfig : Type 0 where
  pub enabled : Bool
  pub signing_secret : Text
  pub bot_token : Text
  -- A nil map is `none`.
  pub user_email_map : Option (List (Text × Text))

pub record Config : Type 0 where
  pub server : ServerConfig
  pub providers : ProvidersConfig
  pub vault : VaultConfig
  pub aws : AwsConfig
  pub token_ttl : ℤ
  pub max_session_duration : ℤ
  pub warning_before_expiry : ℤ
  pub notifications : NotificationsConfig
  pub persistence : PersistenceConfig
  pub break_glass : BreakGlassConfig
  pub slack : SlackConfig

-- The local type of UnmarshalYAML, in which a duration is still a string.
pub record Raw : Type 0 where
  pub server_addr : Text
  pub server_shutdown_timeout : Text
  pub providers : ProvidersConfig
  pub vault_addr : Text
  pub vault_token : Text
  pub vault_token_ttl : Text
  pub vault_max_tokens_per_user : ℤ
  pub aws : AwsConfig
  pub token_ttl : Text
  pub max_session_duration : Text
  pub warning_before_expiry : Text
  pub notifications : NotificationsConfig
  pub persistence : PersistenceConfig
  pub break_glass : BreakGlassConfig
  pub slack : SlackConfig
