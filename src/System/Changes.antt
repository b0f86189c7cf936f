-- ===== src/System/Changes.antt =====
-- What a request may do to the store.
use jit_access_broker.Prelude.{
  [], ◌⊎◌, ◌≡◌, sym, subst, true, Option, some, ◌==◌, arith, inl, inr, Option-cases, Bool-cases,
  ==_iff, Text, codes, is_empty,
}
use jit_access_broker.Models.{Instant, IssuedToken, AccessRequest, ExtensionRequest}
use jit_access_broker.Providers.{Result-cases, ok, Context}
use jit_access_broker.Auth.{validate}
use jit_access_broker.Auth.Gate.{IsComplete, IsVouched, validate_iff}
use jit_access_broker.Breakglass.{BreakGlassRequest, Manager, verify, granted_ttl}
use jit_access_broker.Store.{Store, add, get, revoke_now}
use jit_access_broker.Store.Extension.{extend}
use jit_access_broker.Api.{Server, HttpRequest, is_method, revoke_token, trim_prefix, revoke_path}
use jit_access_broker.Api.Access.{
  request_access, extend_access, extend_validated, answer_extension, shut_out, break_glass_activate,
}
use jit_access_broker.Api.Guards.{
  justified, request_access_granted, request_access_refused, break_glass_activate_granted,
  break_glass_activate_refused,
}
use jit_access_broker.Api.Sessions.{revalidated}
use jit_access_broker.Slack.{Handler, SlashCommand, FormRequest, parse_slack_command}
use jit_access_broker.Slack.Guards.{IsApproved, handle_guarded}
use jit_access_broker.Router.{
  Libraries, Endpoint, to_healthz, to_request, to_extend, to_tokens, to_revoke, to_break_glass,
  to_slack, is_some, route, dispatch, serve,
}

-- The token of a quorum: tagged, with the request's reason.
abbrev pub emergency_token : IssuedToken → BreakGlassRequest → IssuedToken
emergency_token issued req = record issued {
  justification_type = codes "break_glass";
  justification_ref = req.reason;
}

module _ {W : Type 0} (lib : Libraries) (srv : Server W) (slack : Option (Handler W)) where
  -- The store after the request in world `w`: the same; with one token more, on a provider's word or
  -- on a quorum's; with a session that was extended on a provider's word; or with a session ended.
  pub data Change (s : Store W) (r : HttpRequest) (w : W) : Store W → Type 0 where
    unchanged : Change s r w s
    granted :
        (req : AccessRequest) (issued : IssuedToken)
        → lib.json.decode_access r.body ≡ ok req
        → IsComplete lib.quote srv.engine req w
        → IsVouched lib.quote srv.engine req w
        → (srv.issuer.issue req.user_identity req.resource srv.ttl
            (validate lib.quote srv.engine req w).2).0
          ≡ ok issued
        → Change s r w (add s (justified issued req))
    slack_granted :
        (h : Handler W) (cmd : SlashCommand) (req : AccessRequest) (issued : IssuedToken)
        → slack ≡ some h
        → parse_slack_command (record { method = r.method; form = lib.parse_form r }) ≡ ok cmd
        → (h.signing_secret ≡ []) ⊎ (cmd.token ≡ h.signing_secret)
        → IsApproved h lib.rfc3339 lib.quote lib.path_escape s w cmd req issued
        → Change s r w (add s (justified issued req))
    emergency :
        (m : Manager W) (req : BreakGlassRequest) (issued : IssuedToken)
        → srv.bg_manager ≡ some m
        → lib.json.decode_break_glass r.body ≡ ok req
        → (verify lib.ed25519 m req).0 ≡ true
        → (m.issuer.issue req.user req.resource (granted_ttl req.ttl_minutes) w).0 ≡ ok issued
        → Change s r w (add s (emergency_token issued req))
    extended :
        (req : ExtensionRequest) (tok : IssuedToken) (now later : Instant) (v : W)
        → lib.json.decode_extension r.body ≡ ok req
        → get s req.token_id ≡ some tok
        → IsComplete lib.quote srv.engine (revalidated req tok) w
        → IsVouched lib.quote srv.engine (revalidated req tok) w
        → Change s r w (extend s req.token_id now later v).1
    ended : (ctx : Context W) (id : Text) (v : W) → Change s r w (revoke_now s ctx id v).1

  -- A change to a state that is known to be another one.
  along : {s t u : Store W} {r : HttpRequest} {w : W} → u ≡ t → Change s r w t → Change s r w u
  along {s} {r = r} {w = w} e c = subst (Change s r w) (sym e) c

  request_access-Change :
      (s : Store W) (r : HttpRequest) (w : W)
      → Change s r w (request_access srv lib.json lib.quote s r w).1
  request_access-Change s r w =
      let status = (request_access srv lib.json lib.quote s r w).0.status in
      elim (Bool-cases (status == 200)) [
        | inr q ↦
            along (request_access_refused srv lib.json lib.quote s r w (ground arith)) unchanged
        | inl q ↦
            let (req, d, complete, vouched, issued, minted, added) =
              request_access_granted srv lib.json lib.quote s r w ((==_iff status 200).0 q) in
            along added (granted req issued d complete vouched minted)
      ]

  extend_validated-Change :
      (s : Store W) (ctx : Context W) (r : HttpRequest) (req : ExtensionRequest) (tok : IssuedToken)
      (now later : Instant) (w : W)
      → lib.json.decode_extension r.body ≡ ok req
      → get s req.token_id ≡ some tok
      → Change s r w
          (extend_validated srv s ctx req.token_id now later
            (validate lib.quote srv.engine (revalidated req tok) w)).1
  unfolding extend_validated answer_extension shut_out
  extend_validated-Change s ctx r req tok now later w decoded found =
      let (res, e, v) = validate lib.quote srv.engine (revalidated req tok) w in
      elim (Option-cases e) [
        | inr (m, q) ↦ along (ground arith) unchanged
        | inl q ↦ elim (Bool-cases res.is_ok) [
          | inr q' ↦ along (ground arith) (ended ctx req.token_id v)
          | inl q' ↦
              let (complete, vouched, fine) =
                (validate_iff lib.quote srv.engine (revalidated req tok) w).0 q' in
              along (ground arith) (extended req tok now later v decoded found complete vouched)
        ]
      ]

  extend_access-Change :
      (s : Store W) (ctx : Context W) (r : HttpRequest) (now later : Instant) (w : W)
      → Change s r w (extend_access srv lib.json lib.quote s ctx r now later w).1
  unfolding extend_access
  extend_access-Change s ctx r now later w = elim (Bool-cases (is_method r (codes "POST"))) [
    | inr q ↦ along (ground arith) unchanged
    | inl q ↦ elim (Result-cases (lib.json.decode_extension r.body)) [
      | inr (e, q1) ↦ along (ground arith) unchanged
      | inl (req, q1) ↦ elim (Bool-cases (is_empty req.token_id)) [
        | inl q2 ↦ along (ground arith) unchanged
        | inr q2 ↦ elim (Option-cases (get s req.token_id)) [
          | inl q3 ↦ along (ground arith) unchanged
          | inr (tok, q3) ↦
              along (ground arith) (extend_validated-Change s ctx r req tok now later w q1 q3)
        ]
      ]
    ]
  ]

  revoke_token-Change :
      (s : Store W) (ctx : Context W) (r : HttpRequest) (w : W)
      → Change s r w (revoke_token s ctx r w).1
  unfolding revoke_token
  revoke_token-Change s ctx r w =
      let id = trim_prefix r.path revoke_path in
      elim (Bool-cases (is_method r (codes "POST"))) [
        | inr q ↦ along (ground arith) unchanged
        | inl q ↦ elim (Bool-cases (is_empty id)) [
          | inl q1 ↦ along (ground arith) unchanged
          | inr q1 ↦ elim (Option-cases (get s id)) [
            | inl q2 ↦ along (ground arith) unchanged
            | inr (tok, q2) ↦ along (ground arith) (ended ctx id w)
          ]
        ]
      ]

  break_glass-Change :
      (s : Store W) (r : HttpRequest) (now : Instant) (w : W)
      → Change s r w (break_glass_activate srv lib.json lib.quote lib.ed25519 s r now w).1
  break_glass-Change s r now w =
      let status = (break_glass_activate srv lib.json lib.quote lib.ed25519 s r now w).0.status in
      elim (Bool-cases (status == 200)) [
        | inr q ↦
            along
              (break_glass_activate_refused srv lib.json lib.quote lib.ed25519 s r now w
                (ground arith))
              unchanged
        | inl q ↦
            let (m, wired, req, d, quorum, issued, minted, added) =
              break_glass_activate_granted srv lib.json lib.quote lib.ed25519 s r now w
                ((==_iff status 200).0 q) in
            along added (emergency m req issued wired d quorum minted)
      ]

  dispatch-Change :
      (e : Endpoint) (s : Store W) (ctx : Context W) (r : HttpRequest) (now later : Instant) (w : W)
      → Change s r w (dispatch lib srv slack e s ctx r now later w).1
  unfolding dispatch
  dispatch-Change to_healthz s ctx r now later w = unchanged
  dispatch-Change to_request s ctx r now later w = request_access-Change s r w
  dispatch-Change to_extend s ctx r now later w = extend_access-Change s ctx r now later w
  dispatch-Change to_tokens s ctx r now later w = unchanged
  dispatch-Change to_revoke s ctx r now later w = revoke_token-Change s ctx r w
  dispatch-Change to_break_glass s ctx r now later w = break_glass-Change s r now w
  dispatch-Change to_slack s ctx r now later w = elim (Option-cases slack) [
    | inl q ↦ along (ground arith) unchanged
    | inr (h, q) ↦
        let form : FormRequest = record { method = r.method; form = lib.parse_form r } in
        elim (handle_guarded h lib.rfc3339 lib.quote lib.path_escape s w form) [
          | inl same ↦ along (ground arith) unchanged
          | inr (post, cmd, parsed, authentic, req, issued, approved, added) ↦
              along (ground arith) (slack_granted h cmd req issued q parsed authentic approved)
        ]
  ]

  -- No way around the guards: whatever the request to Router, the store afterwards is the one before,
  -- or has exactly one token more, for which, as the request's body asks, a provider vouched (by HTTP
  -- or by an authentic Slack command) or a quorum signed, or is what Extend leaves for the live token
  -- that the body names and whose resource a provider vouched for, or what RevokeNow leaves.
  pub serve-Change :
      (s : Store W) (ctx : Context W) (r : HttpRequest) (now later : Instant) (w : W)
      → Change s r w (serve lib srv slack s ctx r now later w).1
  unfolding serve
  serve-Change s ctx r now later w = elim (Option-cases (route (is_some slack) r.path)) [
    | inl q ↦ along (ground arith) unchanged
    | inr (e, q) ↦ along (ground arith) (dispatch-Change e s ctx r now later w)
  ]
