-- ===== src/Main.antt =====
-- main.go: the wiring of the broker from its configuration. What the program gets from libraries and
-- from the machine is a parameter; the log lines, the goroutines, the HTTP server and the flags are
-- left out.
pub mod Wiring
pub mod Guarantees
pub mod Life
pub mod Restart
use jit_access_broker.Prelude.{
  ℕ, Bool, true, false, not, ◌&&◌, Option, none, some, List, [], ◌∷◌, ◌++◌, if◌then◌else◌, ℤ, Text,
  codes, is_empty, str_eq,
}
use jit_access_broker.Models.{Instant}
use jit_access_broker.Audit.{Logger}
use jit_access_broker.Audit.Writer.{AuditWriter, new_logger}
use jit_access_broker.Providers.{Result, ok, err, TokenIssuer, ContextValidator, Context}
use jit_access_broker.Providers.Http.{HttpClient, Network, Machine}
use jit_access_broker.Providers.PagerDuty.{PagerDutyClient, Incident, pagerduty_validator}
use jit_access_broker.Providers.Jira.{JiraClient, Issue, jira_validator}
use jit_access_broker.Providers.Vault.{VaultClient, VaultJson, vault_issuer}
use jit_access_broker.Providers.Stubs.{RevokedTokens, demo_issuer}
use jit_access_broker.Auth.{Engine}
use jit_access_broker.Retry.{new_retry_revoker}
use jit_access_broker.Persistence.{FileSystem, Codec, FileStore}
use jit_access_broker.Notifier.{Notifier, multi_notifier}
use jit_access_broker.Notifier.Sinks.{
  Console, MessageCard, log_notifier, slack_notifier, teams_notifier,
}
use jit_access_broker.Breakglass.{Manager, new_manager}
use jit_access_broker.Config.{Config, ConfigFile, default, load}
use jit_access_broker.Store.{
  Store, new, set_session_limits, set_retry_revoker, set_audit_logger, set_notifier,
}
use jit_access_broker.Store.Recovery.{set_persistence, persist_all}
use jit_access_broker.Api.{Server, new_server, wire_audit_logger, wire_break_glass}
use jit_access_broker.Slack.{Handler}
use jit_access_broker.Router.{Libraries}

-- What main.go's packages take from the libraries and the machine.
pub record Outside (W : Type 0) : Type 0 where
  pub lib : Libraries
  pub net : Network W
  pub machine : Machine W
  pub fold : ℕ → ℕ
  pub base64 : Text → Text
  pub decode_incident : Text → Result Incident
  pub decode_issue : Text → Result Issue
  pub vault_json : VaultJson
  pub revoked_tokens : RevokedTokens W
  pub audit_writer : AuditWriter W
  pub sleep : ℤ → W → W
  pub jitter_parts : ℤ → W → (ℤ × ℤ) × W
  pub to_duration : ℕ → ℤ
  pub fs : FileSystem W
  pub codec : Codec
  pub background : Context W
  pub console : Console W
  pub timed_client : HttpClient W
  pub show_duration : ℤ → Text
  pub show_errors : List Text → Text
  pub marshal_text : Text → Text
  pub marshal_card : MessageCard → Text

-- The configuration: Default, or what the file of the flag holds; an error ends the program.
unfoldable pub main_config : (ℤ → Text) → (Text → Result ℤ) → Text → ConfigFile → Result Config
main_config show parse_duration config_path file =
    if is_empty config_path then ok default else load show parse_duration file

-- A Vault token is configured that is not the placeholder.
abbrev pub has_vault : Config → Bool
has_vault cfg =
    not (is_empty cfg.vault.token) && not (str_eq cfg.vault.token (codes "YOUR_VAULT_ROOT_TOKEN"))

module _ {W : Type 0} (out : Outside W) (cfg : Config) where
  abbrev main_logger : Logger W
  main_logger = new_logger out.audit_writer

  abbrev pub pagerduty_client : PagerDutyClient W
  pagerduty_client = record {
    base_url = cfg.providers.pagerduty.api_base_url;
    api_token = cfg.providers.pagerduty.api_token;
    http_client = none;
  }

  abbrev pub jira_client : JiraClient W
  jira_client = record {
    base_url = cfg.providers.jira.api_base_url;
    username = cfg.providers.jira.username;
    api_token = cfg.providers.jira.api_token;
    http_client = none;
  }

  abbrev pub vault_client : VaultClient W
  vault_client = record { addr = cfg.vault.addr; token = cfg.vault.token; http_client = none }

  -- Vault's issuer, or else the demo issuer.
  unfoldable pub main_issuer : TokenIssuer W
  main_issuer =
      if has_vault cfg
      then vault_issuer out.vault_json out.net out.machine vault_client
      else demo_issuer out.machine out.revoked_tokens

  abbrev pub pagerduty : ContextValidator W
  pagerduty =
      pagerduty_validator out.fold out.lib.quote out.decode_incident out.net pagerduty_client

  abbrev pub jira : ContextValidator W
  jira = jira_validator out.fold out.lib.quote out.decode_issue out.base64 out.net jira_client

  unfoldable pub main_engine : Engine W
  main_engine = record { validators = (codes "pagerduty", pagerduty) ∷ (codes "jira", jira) ∷ [] }

  -- The store before its state file is read.
  unfoldable pub wired_store : Store W
  unfolding main_issuer
  wired_store =
      let revoker =
        new_retry_revoker main_issuer (some main_logger) out.sleep out.jitter_parts
          out.to_duration in
      let limited =
        set_session_limits (new (some main_issuer)) cfg.token_ttl cfg.max_session_duration
          cfg.warning_before_expiry in
      set_audit_logger (set_retry_revoker limited (some revoker)) (some main_logger)

  abbrev pub state_file : FileStore W
  state_file = record { path = cfg.persistence.path; fs = out.fs; json = out.codec }

  -- The store with its state file, if one is configured; an error of the recovery is only logged.
  unfoldable pub recovered_store : Instant → W → Store W × W
  unfolding wired_store
  recovered_store now w =
      if is_empty cfg.persistence.path
      then (wired_store, w)
      else let (ignored, s, w') =
          set_persistence wired_store (some state_file) out.background now w in
        (s, w')

  unfoldable pub main_manager : Option (Manager W)
  unfolding main_issuer
  main_manager = elim cfg.break_glass.trusted_approvers [
    | [] ↦ none
    | a ∷ rest ↦ some (new_manager (a ∷ rest) main_issuer (some main_logger))
  ]

  abbrev webhook_if : Bool → Text → (Text → Notifier W) → List (Option (Notifier W))
  webhook_if enabled url sink = if enabled && not (is_empty url) then some (sink url) ∷ [] else []

  -- The sinks of the expiry warnings, the log always among them.
  unfoldable pub main_notifiers : List (Option (Notifier W))
  main_notifiers =
      let hooks = cfg.notifications in
      webhook_if hooks.enabled hooks.slack_webhook_url (λ url.
        slack_notifier out.show_duration out.net out.timed_client out.marshal_text
          (record { url = url; client = none }))
      ++ (webhook_if hooks.enabled hooks.teams_webhook_url (λ url.
            teams_notifier out.show_duration out.net out.timed_client out.marshal_card
              (record { url = url; client = none }))
          ++ some (log_notifier out.show_duration out.console) ∷ [])

  -- The store that Run and the server get.
  unfoldable pub main_store : Instant → W → Store W × W
  unfolding recovered_store
  main_store now w =
      let (s, w') = recovered_store now w in
      (set_notifier s (some (multi_notifier out.show_errors main_notifiers)), w')

  -- A nil manager is not set, which leaves nil.
  unfoldable pub main_server : Server W
  unfolding main_issuer main_engine main_manager
  main_server =
      let srv =
        wire_audit_logger (new_server main_engine main_issuer cfg.token_ttl) (some main_logger) in
      wire_break_glass srv main_manager

  unfoldable pub main_slack : Option (Handler W)
  unfolding main_issuer main_engine
  main_slack =
      let handler : Handler W = record {
        engine = main_engine;
        issuer = main_issuer;
        ttl = cfg.token_ttl;
        signing_secret = cfg.slack.signing_secret;
        user_email_map = cfg.slack.user_email_map;
        bot_token = cfg.slack.bot_token;
      } in
      if cfg.slack.enabled then some handler else none
