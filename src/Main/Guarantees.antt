-- ===== src/Main/Guarantees.antt =====
-- What the running broker guarantees, as main.go wires it.
use jit_access_broker.Prelude.{
  In, List, [], ◌≡◌, ◌⊎◌, ◌≤◌, sym, subst, ◌∙◌, inl, inr, true, some, arith, Bool-cases, Text, ℤ,
  List-cases,
}
use jit_access_broker.Models.{IssuedToken, AccessRequest, add_time, max_session_duration}
use jit_access_broker.Providers.{Result, ok}
use jit_access_broker.Auth.{validate}
use jit_access_broker.Auth.Gate.{IsVouched}
use jit_access_broker.Breakglass.{BreakGlassRequest, Manager, verify, granted_ttl}
use jit_access_broker.Config.{Config, ConfigFile}
use jit_access_broker.Config.Limits.{WithinLimits}
use jit_access_broker.Store.{Store, get}
use jit_access_broker.Slack.{
  Handler, SlashCommand, parse_slack_command, parse_command_text, resolve_email,
}
use jit_access_broker.Api.{HttpRequest}
use jit_access_broker.Api.Sessions.{get-find_live}
use jit_access_broker.Store.Ceiling.{find_live-lookup}
use jit_access_broker.Persistence.Files.{IsFileSystem, IsCodec}
use jit_access_broker.Main.Life.{Life, requests}
use jit_access_broker.Main.Life.Kept.{Life-Fit}
use jit_access_broker.System.Origins.{Minted, IsAccounted, by_provider, by_slack, by_quorum}
use jit_access_broker.System.Ceiling.{IsPunctual, IsConfined, InTime}
use jit_access_broker.Main.{
  Outside, main_config, main_issuer, main_engine, main_manager, main_server, main_slack,
}
use jit_access_broker.Main.Wiring.{
  IsConfirmed, IsVouched-IsConfirmed, main_issuer-IsDue, main_config-WithinLimits,
}

module _ {W : Type 0} (out : Outside W) (cfg : Config) where
  main_issuer-IsPunctual : IsPunctual (main_issuer out cfg)
  main_issuer-IsPunctual user resource ttl w tok h =
      let (u, r, e, o) = main_issuer-IsDue out cfg user resource ttl w tok h in (e, o)

  -- The handler that is mounted has the server's parts.
  main_slack-parts :
      (h : Handler W)
      → main_slack out cfg ≡ some h
      → (h.engine ≡ main_engine out cfg)
        × (h.issuer ≡ main_issuer out cfg)
        × (h.ttl ≡ cfg.token_ttl)
  unfolding main_slack
  main_slack-parts h e = elim (Bool-cases cfg.slack.enabled) [
    | inl q ↦ ground arith
    | inr q ↦ absurd (ground arith)
  ]

  main_slack-settings :
      (h : Handler W)
      → main_slack out cfg ≡ some h
      → (h.signing_secret ≡ cfg.slack.signing_secret)
        × (h.user_email_map ≡ cfg.slack.user_email_map)
  unfolding main_slack
  main_slack-settings h e = elim (Bool-cases cfg.slack.enabled) [
    | inl q ↦ (ground arith, ground arith)
    | inr q ↦ absurd (ground arith)
  ]

  main_manager-issuer :
      (m : Manager W) → main_manager out cfg ≡ some m → m.issuer ≡ main_issuer out cfg
  unfolding main_manager
  main_manager-issuer m e = elim (List-cases cfg.break_glass.trusted_approvers) [
    | inl q ↦ absurd (ground arith)
    | inr (a, rest, q) ↦ ground arith
  ]

  pub main-IsConfined : WithinLimits cfg → IsConfined (main_server out cfg) (main_slack out cfg)
  unfolding main_server
  main-IsConfined v = record {
    ttl = ground (arith, v.ttl_capped);
    issuer = main_issuer-IsPunctual;
    slack_ttl =
        λ h e. let (engine, issuer, ttl) = main_slack-parts h e in ground (arith, v.ttl_capped);
    slack_issuer = λ h e.
        let (engine, issuer, ttl) = main_slack-parts h e in
        subst IsPunctual (sym issuer) main_issuer-IsPunctual;
    manager_issuer = λ m e. subst IsPunctual (sym (main_manager-issuer m e)) main_issuer-IsPunctual;
  }

  -- The request is for this justification: it decodes to it, or it is a Slack command with the
  -- configured secret, of a known user, that parses to it.
  abbrev pub Asks : HttpRequest → AccessRequest → Type 0
  Asks r req =
      (out.lib.json.decode_access r.body ≡ ok req)
      ⊎ ((cmd : SlashCommand) × (parse_slack_command
              (record { method = r.method; form = out.lib.parse_form r })
            ≡ ok cmd)
          × ((cfg.slack.signing_secret ≡ []) ⊎ (cmd.token ≡ cfg.slack.signing_secret))
          × (parse_command_text cmd.text
              ≡ ok (req.resource, req.justification_type, req.justification_ref))
          × (req.user_identity ≡ resolve_email cfg.slack.user_email_map cmd.user_id cmd.user_name))

  -- One of the requests asked for a token with this owner and this resource: PagerDuty or Jira
  -- confirmed it in the world that it was served in, or it carries the signatures of a quorum.
  abbrev pub IsWarranted : List (HttpRequest × W) → IssuedToken → Type 0
  IsWarranted log t =
      (r : HttpRequest) × (w : W) × In (r, w) log
      × (((req : AccessRequest) × Asks r req
            × (t.user ≡ req.user_identity)
            × (t.resource ≡ req.resource)
            × IsConfirmed out cfg req w)
          ⊎ ((m : Manager W) × (req : BreakGlassRequest) × (main_manager out cfg ≡ some m)
              × (out.lib.json.decode_break_glass r.body ≡ ok req)
              × (t.user ≡ req.user)
              × (t.resource ≡ req.resource)
              × ((verify out.lib.ed25519 m req).0 ≡ true)))

  Minted-IsWarranted :
      (log : List (HttpRequest × W)) (t issued : IssuedToken)
      → Minted out.lib (main_server out cfg) (main_slack out cfg) log issued
      → t.user ≡ issued.user
      → t.resource ≡ issued.resource
      → IsWarranted log t
  unfolding main_server
  Minted-IsWarranted log t issued (by_provider r w req _ i d complete vouched minted) u s =
      let (u', s', e, o) = main_issuer-IsDue out cfg _ _ _ _ issued minted in
      (r, w, i, inl (req, inl d, u ∙ u', s ∙ s', IsVouched-IsConfirmed out cfg req w vouched))
  Minted-IsWarranted log t issued (by_slack r w h st cmd req _ i q parsed authentic a) u s =
      let (text, user, complete, vouched, minted) = a in
      let (engine, issuer, ttl) = main_slack-parts h q in
      let (secret, map) = main_slack-settings h q in
      let v = (validate out.lib.quote h.engine req w).2 in
      let by_main =
        subst (λ i. (i.issue req.user_identity req.resource h.ttl v).0 ≡ ok issued) issuer minted in
      let (u', s', e, o) = main_issuer-IsDue out cfg _ _ _ _ issued by_main in
      let vouched' = subst (λ e. IsVouched out.lib.quote e req w) engine vouched in
      let authentic' = subst (λ x. (x ≡ []) ⊎ (cmd.token ≡ x)) secret authentic in
      let user' =
        subst (λ x. req.user_identity ≡ resolve_email x cmd.user_id cmd.user_name) map user in
      (
        r,
        w,
        i,
        inl (
          req,
          inr (cmd, parsed, authentic', text, user'),
          u ∙ u',
          s ∙ s',
          IsVouched-IsConfirmed out cfg req w vouched',
        ),
      )
  Minted-IsWarranted log t issued (by_quorum r w m req _ i q d signed minted) u s =
      let ttl = granted_ttl req.ttl_minutes in
      let by_main =
        subst (λ i. (i.issue req.user req.resource ttl w).0 ≡ ok issued) (main_manager-issuer m q)
          minted in
      let (u', s', e, o) = main_issuer-IsDue out cfg _ _ _ _ issued by_main in
      (r, w, i, inr (m, req, q, d, u ∙ u', s ∙ s', signed))

-- The broker keeps its word over all its lives: with the default configuration or any file that
-- Load accepts, first started without a state file or on one that holds no active record, and then
-- through any sequence of requests to any path, ticks of the worker, and shutdowns in which
-- PersistAll returns nil, each followed by a start that finds the file as PersistAll left it,
-- every token that Get answers expires at most four hours after its session began, and was asked
-- for by one of the requests so far: its user and resource are those of an access request or an
-- authentic Slack command that PagerDuty (an acknowledged incident) or Jira (an issue in progress)
-- confirmed with that user assigned, in the world that the request was served in, or those of an
-- emergency request whose signatures are a quorum of the trusted approvers. The file system keeps
-- what is written and renamed, the JSON codec reads back what it wrote, and no id is minted twice.
pub main_store-Life :
    {W : Type 0} (out : Outside W) (show : ℤ → Text) (parse : Text → Result ℤ) (config_path : Text)
    (file : ConfigFile) (cfg : Config) (s : Store W) (id : Text) (t : IssuedToken)
    → main_config show parse config_path file ≡ ok cfg
    → IsFileSystem out.fs
    → IsCodec out.codec
    → (life : Life out cfg s) → get s id ≡ some t
    → (t.expires_at ≤ add_time t.original_issued_at max_session_duration)
      × IsWarranted out cfg (requests out cfg life) t
main_store-Life out show parse config_path file cfg s id t configured os json life found =
    let limits = main_config-WithinLimits show parse config_path file cfg configured in
    let f =
      Life-Fit out cfg life (ground (arith, limits.session_capped)) (main-IsConfined out cfg limits)
        os json in
    let (a, live, e) = get-find_live (main_server out cfg) s id t found in
    let below = f.inv.mapped id a (find_live-lookup s id a live).0 in
    let (issued, minted, i, u, r) =
      subst (IsAccounted out.lib (main_server out cfg) (main_slack out cfg) (requests out cfg life))
        e (f.books a below) in
    (
      subst InTime e (f.timely.each a below),
      Minted-IsWarranted out cfg (requests out cfg life) t issued minted u r,
    )
