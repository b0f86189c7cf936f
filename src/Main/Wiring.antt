-- ===== src/Main/Wiring.antt =====
-- What the wired configuration, providers and issuer are.
use jit_access_broker.Prelude.{
  ◌≡◌, ◌⊎◌, sym, subst, ◌∙◌, ap, inl, inr, some, arith, Bool-cases, [], ◌∷◌, Text, codes, is_empty,
  str_eq, str_eq_iff, ℤ,
}
use jit_access_broker.Prelude.Dict.{lookup}
use jit_access_broker.Models.{IssuedToken, AccessRequest, add_time}
use jit_access_broker.Providers.{Result, ok}
use jit_access_broker.Providers.PagerDuty.Verdict.{IsOnCall, pagerduty_validate_iff}
use jit_access_broker.Providers.Jira.Verdict.{IsWorkingOn, jira_validate_iff}
use jit_access_broker.Providers.Vault.{vault_issue}
use jit_access_broker.Providers.Vault.Lease.{vault_issue_sound}
use jit_access_broker.Providers.Stubs.{demo_issue}
use jit_access_broker.Auth.{normal_type}
use jit_access_broker.Auth.Gate.{IsVouched}
use jit_access_broker.Config.{Config, ConfigFile, default}
use jit_access_broker.Config.Limits.{WithinLimits, load-WithinLimits, default-WithinLimits}
use jit_access_broker.Main.{
  Outside, main_config, has_vault, vault_client, main_issuer, main_engine, pagerduty, jira,
  pagerduty_client, jira_client,
}

-- A configuration that the program starts with is within the hard limits.
pub main_config-WithinLimits :
    (show : ℤ → Text) (parse : Text → Result ℤ) (config_path : Text) (file : ConfigFile)
    (cfg : Config)
    → main_config show parse config_path file ≡ ok cfg
    → WithinLimits cfg
unfolding main_config
main_config-WithinLimits show parse config_path file cfg h =
    elim (Bool-cases (is_empty config_path)) [
      | inl q ↦ subst WithinLimits {x = default} {y = cfg} (ground arith) default-WithinLimits
      | inr q ↦ (load-WithinLimits show parse file cfg (ground arith)).0
    ]

lookup_two :
    {V : Type 0} (j k key : Text) (a b v : V)
    → lookup key ((j, a) ∷ (k, b) ∷ []) ≡ some v
    → ((key ≡ j) × (v ≡ a)) ⊎ ((key ≡ k) × (v ≡ b))
unfolding lookup
lookup_two j k key a b v h = elim (Bool-cases (str_eq j key)) [
  | inl q ↦ inl (sym ((str_eq_iff j key).0 q), ground arith)
  | inr q ↦ elim (Bool-cases (str_eq k key)) [
    | inl q' ↦ inr (sym ((str_eq_iff k key).0 q'), ground arith)
    | inr q' ↦ absurd (ground arith)
  ]
]

module _ {W : Type 0} (out : Outside W) (cfg : Config) where
  -- The provider of the request's type confirms it: an acknowledged incident of PagerDuty or an issue
  -- in progress of Jira, with the user assigned.
  abbrev pub IsConfirmed : AccessRequest → W → Type 0
  IsConfirmed req w =
      ((normal_type req.justification_type ≡ codes "pagerduty")
        × IsOnCall out.fold out.lib.quote out.decode_incident out.net (pagerduty_client out cfg)
            req.user_identity req.justification_ref w)
      ⊎ ((normal_type req.justification_type ≡ codes "jira")
          × IsWorkingOn out.fold out.lib.quote out.decode_issue out.base64 out.net
              (jira_client out cfg) req.user_identity req.justification_ref w)

  pub IsVouched-IsConfirmed :
      (req : AccessRequest) (w : W)
      → IsVouched out.lib.quote (main_engine out cfg) req w
      → IsConfirmed req w
  unfolding main_engine
  IsVouched-IsConfirmed req w (v, found, reason, said) =
      let user = req.user_identity in
      let ref = req.justification_ref in
      elim (lookup_two _ _ _ (pagerduty out cfg) (jira out cfg) v found) [
        | inl (jt, e) ↦
            let told = ap (λ u. (u.validate user ref w).0) (sym e) ∙ said in
            inl (
              jt,
              ((pagerduty_validate_iff out.fold out.lib.quote out.decode_incident out.net
                    (pagerduty_client out cfg) user ref reason w).0
                  told).1,
            )
        | inr (jt, e) ↦
            let told = ap (λ u. (u.validate user ref w).0) (sym e) ∙ said in
            inr (
              jt,
              ((jira_validate_iff out.fold out.lib.quote out.decode_issue out.base64 out.net
                    (jira_client out cfg) user ref reason w).0
                  told).1,
            )
      ]

  -- A new token of the wired issuer, be it Vault's or the demo's.
  abbrev pub IsDue : Text → Text → ℤ → IssuedToken → Type 0
  IsDue user resource ttl tok =
      (tok.user ≡ user)
      × (tok.resource ≡ resource)
      × (tok.expires_at ≡ add_time tok.issued_at ttl)
      × (tok.original_issued_at ≡ 0)

  demo_issue-IsDue :
      (user resource : Text) (ttl : ℤ) (w : W) (tok : IssuedToken)
      → (demo_issue out.machine user resource ttl w).0 ≡ ok tok
      → IsDue user resource ttl tok
  unfolding demo_issue
  demo_issue-IsDue user resource ttl w tok h =
      (ground arith, ground arith, ground arith, ground arith)

  vault_issue-IsDue :
      (user resource : Text) (ttl : ℤ) (w : W) (tok : IssuedToken)
      → (vault_issue out.vault_json out.net out.machine
          (vault_client out cfg)
          user
          resource
          ttl
          w).0
        ≡ ok tok
      → IsDue user resource ttl tok
  vault_issue-IsDue user resource ttl w tok h =
      let (by_vault, (u, r, p, live, o, e, v, id)) =
        vault_issue_sound out.vault_json out.net out.machine (vault_client out cfg) user resource
          ttl w tok h in
      (u, r, e, o)

  pub main_issuer-IsDue :
      (user resource : Text) (ttl : ℤ) (w : W) (tok : IssuedToken)
      → ((main_issuer out cfg).issue user resource ttl w).0 ≡ ok tok
      → IsDue user resource ttl tok
  unfolding main_issuer
  main_issuer-IsDue user resource ttl w tok h = elim (Bool-cases (has_vault cfg)) [
    | inl q ↦ vault_issue-IsDue user resource ttl w tok (ground arith)
    | inr q ↦ demo_issue-IsDue user resource ttl w tok (ground arith)
  ]
