-- ===== src/Slack/Parity.antt =====
-- The slash command and the HTTP endpoint decide alike.
use jit_access_broker.Prelude.{
  ◌≡◌, ◌≢◌, refl, Option, none, some, [], arith, inl, inr, Bool-cases, Text, codes, str_eq_refl,
}
use jit_access_broker.Models.{Instant, IssuedToken, AccessRequest}
use jit_access_broker.Providers.{Result, ok, err}
use jit_access_broker.Auth.{ValidationResult, validate}
use jit_access_broker.Store.{Store}
use jit_access_broker.Api.{Server, HttpRequest, Decoder}
use jit_access_broker.Api.Access.{grant, decide, request_access}
use jit_access_broker.Slack.{
  Handler, SlashCommand, FormRequest, parse_slack_command, parse_command_text, resolve_email,
  command_request, slack_grant, slack_decide, run_command, handle,
}

module _ {W : Type 0} (h : Handler W) (srv : Server W) (rfc3339 : Instant → Text) where
  -- One configuration behind both endpoints, as main.go wires them.
  abbrev pub IsWiredAlike : Type 0
  IsWiredAlike = (h.engine ≡ srv.engine) × (h.issuer ≡ srv.issuer) × (h.ttl ≡ srv.ttl)

  slack_grant-grant :
      (s : Store W) (req : AccessRequest) (answer : Result IssuedToken × W)
      → (slack_grant h rfc3339 s req answer).1 ≡ (grant srv s req answer).1
  unfolding slack_grant grant
  slack_grant-grant s req (err e, w) = refl
  slack_grant-grant s req (ok issued, w) = refl

  slack_decide-decide :
      (s : Store W) (req : AccessRequest) (answer : ValidationResult × Option Text × W)
      → IsWiredAlike
      → (slack_decide h rfc3339 s req answer).1 ≡ (decide srv s req answer).1
  unfolding slack_decide decide
  slack_decide-decide s req (res, some e, w) wired = refl
  slack_decide-decide s req (res, none, w) (e, i, t) = elim (Bool-cases res.is_ok) [
    | inr q ↦ ground arith
    | inl q ↦
        ground (
          arith,
          slack_grant-grant s req (srv.issuer.issue req.user_identity req.resource srv.ttl w),
        )
  ]

  -- Both doors lead to the same store: a slash command with the right token, whose text parses and
  -- whose user has an email, leaves the store that a POST to the HTTP endpoint with the same user,
  -- resource and justification leaves, whatever the provider and the issuer answer.
  pub handle-request_access :
      (json : Decoder) (quote path_escape : Text → Text) (s : Store W) (r : FormRequest)
      (r' : HttpRequest) (w : W) (cmd : SlashCommand) (resource jtype jref : Text)
      → IsWiredAlike
      → r.method ≡ codes "POST"
      → parse_slack_command r ≡ ok cmd
      → cmd.token ≡ h.signing_secret
      → parse_command_text cmd.text ≡ ok (resource, jtype, jref)
      → resolve_email h.user_email_map cmd.user_id cmd.user_name ≢ []
      → r'.method ≡ codes "POST"
      → json.decode_access r'.body
        ≡ ok (
            command_request
              (resolve_email h.user_email_map cmd.user_id cmd.user_name)
              resource
              jtype
              jref)
      → (handle h rfc3339 quote path_escape s r w).1 ≡ (request_access srv json quote s r' w).1
  unfolding handle run_command request_access
  handle-request_access json quote path_escape s r r' w cmd resource jtype jref wired post parsed
        token words email post' decoded =
      let user = resolve_email h.user_email_map cmd.user_id cmd.user_name in
      let req = command_request user resource jtype jref in
      let same = slack_decide-decide s req (validate quote h.engine req w) wired in
      ground (arith, str_eq_refl (codes "POST"), str_eq_refl h.signing_secret)
