-- ===== src/Config/Limits.antt =====
-- The limits that a configuration satisfies once Validate, or Load, accepts it.
use jit_access_broker.Prelude.{
  ◌≡◌, refl, subst, inl, inr, false, none, arith, ℤ, pos, ◌≤ℤ◌, Text, is_empty,
}
use jit_access_broker.Models.{max_ttl, max_session_duration}
use jit_access_broker.Providers.{Result, ok, Result-cases}
use jit_access_broker.Config.{
  Config, ConfigFile, unreadable, malformed, decoded, unmarshal_yaml, validate, load, default,
  zero_config,
}

-- The hard invariants.
pub record WithinLimits (c : Config) : Type 0 where
  pub addr_set : is_empty c.server.addr ≡ false
  pub ttl_positive : pos 1 ≤ℤ c.token_ttl
  pub ttl_capped : c.token_ttl ≤ℤ max_ttl
  pub vault_set : is_empty c.vault.addr ≡ false
  pub vault_ttl_positive : pos 1 ≤ℤ c.vault.token_ttl
  pub vault_ttl_capped : c.vault.token_ttl ≤ℤ max_ttl
  pub pagerduty_set : is_empty c.providers.pagerduty.api_token ≡ false
  pub jira_set : is_empty c.providers.jira.api_token ≡ false
  pub session_positive : pos 1 ≤ℤ c.max_session_duration
  pub session_capped : c.max_session_duration ≤ℤ max_session_duration
  pub warning_positive : pos 1 ≤ℤ c.warning_before_expiry

module _ (show : ℤ → Text) where
  validate-WithinLimits :
      (c : Config) → (validate show c).0 ≡ none → WithinLimits (validate show c).1
  unfolding validate
  validate-WithinLimits c h = record {
    addr_set = ground arith;
    ttl_positive = ground arith;
    ttl_capped = ground arith;
    vault_set = ground arith;
    vault_ttl_positive = ground arith;
    vault_ttl_capped = ground arith;
    pagerduty_set = ground arith;
    jira_set = ground arith;
    session_positive = ground arith;
    session_capped = ground arith;
    warning_positive = ground arith;
  }

  -- A Config within the limits is accepted and left as it is.
  WithinLimits-validate : (c : Config) → WithinLimits c → validate show c ≡ (none, c)
  unfolding validate
  WithinLimits-validate c v = ground (
    arith, v.addr_set, v.ttl_positive, v.ttl_capped, v.vault_set, v.vault_ttl_positive,
    v.vault_ttl_capped, v.pagerduty_set, v.jira_set, v.session_positive, v.session_capped,
    v.warning_positive,
  )

  load-validate :
      (parse : Text → Result ℤ) (file : ConfigFile) (c : Config)
      → load show parse file ≡ ok c
      → (c' : Config) × ((validate show c').0 ≡ none) × ((validate show c').1 ≡ c)
  unfolding load
  load-validate parse (unreadable e) c h = ground arith
  load-validate parse (malformed e) c h = ground arith
  load-validate parse (decoded r) c h = elim (Result-cases (unmarshal_yaml parse zero_config r)) [
    | inr (e, q) ↦ ground arith
    | inl (c', q) ↦ (c', ground arith, ground arith)
  ]

  -- Load answers only Configs within the hard limits, whatever the file holds: both token TTLs in
  -- (0, MaxTTL], the session ceiling in (0, MaxSessionDuration], a positive warning window and the
  -- required addresses and API tokens set; and Validate then accepts the Config again, unchanged.
  pub load-WithinLimits :
      (parse : Text → Result ℤ) (file : ConfigFile) (c : Config)
      → load show parse file ≡ ok c
      → WithinLimits c × (validate show c ≡ (none, c))
  load-WithinLimits parse file c h =
      let (c', accepted, left) = load-validate parse file c h in
      let w = subst WithinLimits left (validate-WithinLimits c' accepted) in
      (w, WithinLimits-validate c w)

-- The built-in configuration is within the limits.
pub default-WithinLimits : WithinLimits default
unfolding default
default-WithinLimits = record {
  addr_set = refl;
  ttl_positive = omega arith;
  ttl_capped = omega arith;
  vault_set = refl;
  vault_ttl_positive = omega arith;
  vault_ttl_capped = omega arith;
  pagerduty_set = refl;
  jira_set = refl;
  session_positive = omega arith;
  session_capped = omega arith;
  warning_positive = omega arith;
}
