-- ===== src/Tests/Settings.antt =====
-- A configuration file that Load accepts.
use jit_access_broker.Prelude.{◌≡◌, refl, [], none, Text, codes, ℤ, pos}
use jit_access_broker.Models.{max_ttl}
use jit_access_broker.Providers.{Result, ok}
use jit_access_broker.Config.{
  Config, Raw, decoded, default, zero_config, duration_of, unmarshal_yaml, validate, load,
}
use jit_access_broker.Config.Limits.{WithinLimits, load-WithinLimits}

-- Every duration of the file is an hour.
abbrev an_hour : Text → Result ℤ
an_hour text = ok max_ttl

abbrev written : Raw
unfolding default
written = record {
  server_addr = codes ":8080";
  server_shutdown_timeout = [];
  providers = default.providers;
  vault_addr = codes "https://vault";
  vault_token = codes "root";
  vault_token_ttl = codes "1h";
  vault_max_tokens_per_user = pos 3;
  aws = zero_config.aws;
  token_ttl = codes "1h";
  max_session_duration = [];
  warning_before_expiry = [];
  notifications = zero_config.notifications;
  persistence = zero_config.persistence;
  break_glass = zero_config.break_glass;
  slack = zero_config.slack;
}

abbrev loaded : Config
loaded = record zero_config {
  server = record { addr = codes ":8080"; shutdown_timeout = pos 0 };
  providers = default.providers;
  vault = record {
    addr = codes "https://vault";
    token = codes "root";
    token_ttl = max_ttl;
    max_tokens_per_user = pos 3;
  };
  token_ttl = max_ttl;
  max_session_duration = default.max_session_duration;
  warning_before_expiry = default.warning_before_expiry;
}

load-WithinLimits_example :
    WithinLimits loaded × (validate (λ d. codes "1h0m0s") loaded ≡ (none, loaded))
unfolding load unmarshal_yaml duration_of validate default
load-WithinLimits_example =
    load-WithinLimits (λ d. codes "1h0m0s") an_hour (decoded written) loaded refl
