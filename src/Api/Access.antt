-- ===== src/Api/Access.antt =====
-- api/server.go: requestAccess, extendAccess and breakGlassActivate.
use jit_access_broker.Prelude.{
  ℕ, Bool, true, false, not, Option, none, some, List, [], ◌++◌, if◌then◌else◌, pos, Text, codes,
  is_empty, contains,
}
use jit_access_broker.Models.{
  Instant, IssuedToken, AccessRequest, ExtensionRequest, ExtensionResponse, sub_time, whole_seconds,
}
use jit_access_broker.Audit.{when_wired, log_granted, log_denied, log_extended}
use jit_access_broker.Providers.{Result, ok, err, Context}
use jit_access_broker.Auth.{ValidationResult, validate}
use jit_access_broker.Breakglass.{Activation, activated, rejected, failed, activate}
use jit_access_broker.Store.{Store, with_origin, add, get, revoke_now}
use jit_access_broker.Store.Extension.{ExtendResult, extend}
use jit_access_broker.Api.{
  Server, HttpRequest, Decoder, Response, access, extension, respond, refuse, is_method,
  access_response,
}

-- An ExtensionResponse that extends nothing.
abbrev not_extended : Text → Text → ExtensionResponse
not_extended id reason = record {
  extended = false;
  token_id = id;
  new_expires_at = 0;
  extensions_left = pos 0;
  max_session_at = 0;
  reason = reason;
}

abbrev pub method_not_allowed : ℕ → Response
method_not_allowed named = refuse 405 (codes "method_not_allowed") [] named

module _ {W : Type 0} (srv : Server W) where
  -- The issued token with its justification: registered, logged and answered.
  unfoldable pub grant : Store W → AccessRequest → Result IssuedToken × W → Response × Store W × W
  grant s req (err e, w) = (refuse 500 (codes "token_issue_failed") e 500, s, w)
  grant s req (ok issued, w) =
      let tok = record issued {
        justification_type = req.justification_type;
        justification_ref = req.justification_ref;
      } in
      let seconds = whole_seconds srv.ttl in
      (
        respond 200 (access (access_response (with_origin tok) seconds)),
        add s tok,
        when_wired srv.audit_log (log_granted (with_origin tok) seconds) w,
      )

  -- requestAccess on what Validate answered.
  unfoldable pub decide :
      Store W → AccessRequest → ValidationResult × Option Text × W → Response × Store W × W
  unfolding grant
  decide s req (res, some e, w) =
      (refuse 502 (codes "validation_transport_error") res.reason 502, s, w)
  decide s req (res, none, w) =
      if not res.is_ok
      then (
        refuse 403 (codes "context_validation_failed") res.reason 403,
        s,
        when_wired srv.audit_log (log_denied [] req.user_identity req.resource res.reason) w,
      )
      else grant s req (srv.issuer.issue req.user_identity req.resource srv.ttl w)

  -- What extendAccess answers to the result of Extend; `none` is Extend's panic.
  unfoldable pub answer_extension :
      Text → Option ExtendResult × Store W × W → Option Response × Store W × W
  answer_extension id (none, s, w) = (none, s, w)
  answer_extension id (some r, s, w) =
      if not r.extended
      then (
        some (
            respond (if contains r.reason (codes "not found") then 404 else 403)
              (extension (not_extended id r.reason))),
        s,
        w,
      )
      else (
        some (
            respond 200 (
              extension (record {
                extended = true;
                token_id = id;
                new_expires_at = r.new_expires_at;
                extensions_left = r.extensions_left;
                max_session_at = r.max_session_at;
                reason = [];
              }))),
        s,
        elim r.token [
          | none ↦ w
          | some a ↦
              when_wired srv.audit_log
                (log_extended (s.memory a) r.new_expires_at r.extensions_left) w
        ],
      )

  -- The context is no longer valid: the token is revoked, and RevokeNow's error dropped.
  unfoldable pub shut_out : Store W → Context W → Text → Text → W → Option Response × Store W × W
  shut_out s ctx id reason w =
      let (ignored, s', w') = revoke_now s ctx id w in
      (
        some (
            respond 403 (
              extension
                (not_extended id (codes "context no longer valid — token revoked: " ++ reason)))),
        s',
        w',
      )

  -- extendAccess on what Validate answered.
  unfoldable pub extend_validated :
      Store W
      → Context W
      → Text
      → Instant
      → Instant
      → ValidationResult × Option Text × W
      → Option Response × Store W × W
  unfolding answer_extension shut_out
  extend_validated s ctx id now later (res, some e, w) =
      (some (refuse 502 (codes "validation_transport_error") res.reason 502), s, w)
  extend_validated s ctx id now later (res, none, w) =
      if not res.is_ok
      then shut_out s ctx id res.reason w
      else answer_extension id (extend s id now later w)

  -- breakGlassActivate on what Activate returned; `now` is time.Until's reading of the clock.
  unfoldable pub answer_activation : Store W → Instant → Activation × W → Response × Store W × W
  answer_activation s now (failed e, w) = (refuse 500 (codes "break_glass_failed") e 0, s, w)
  answer_activation s now (rejected reason, w) =
      (refuse 403 (codes "break_glass_rejected") reason 0, s, w)
  answer_activation s now (activated tok, w) = (
    respond 200
        (access (access_response (with_origin tok) (whole_seconds (sub_time tok.expires_at now)))),
    add s tok,
    w,
  )

  module _ (json : Decoder) (quote : Text → Text) where
    -- requestAccess
    unfoldable pub request_access : Store W → HttpRequest → W → Response × Store W × W
    unfolding decide
    request_access s r w =
        if not (is_method r (codes "POST"))
        then (method_not_allowed 405, s, w)
        else elim (json.decode_access r.body) [
          | err e ↦ (refuse 400 (codes "invalid_json") e 400, s, w)
          | ok req ↦ decide s req (validate quote srv.engine req w)
        ]

    -- extendAccess for a token that Get found.
    abbrev extend_found :
        Store W
        → Context W
        → ExtensionRequest
        → IssuedToken
        → Instant
        → Instant
        → W
        → Option Response × Store W × W
    extend_found s ctx req tok now later w = extend_validated s ctx req.token_id now later (
        validate quote srv.engine
          (record {
            user_identity = req.user_identity;
            resource = tok.resource;
            justification_type = req.justification_type;
            justification_ref = req.justification_ref;
          })
          w)

    -- extendAccess; `now` and `later` are Extend's readings of the clock.
    unfoldable pub extend_access :
        Store W → Context W → HttpRequest → Instant → Instant → W → Option Response × Store W × W
    unfolding extend_validated
    extend_access s ctx r now later w =
        if not (is_method r (codes "POST"))
        then (some (method_not_allowed 0), s, w)
        else elim (json.decode_extension r.body) [
          | err e ↦ (some (refuse 400 (codes "invalid_json") e 400), s, w)
          | ok req ↦
              if is_empty req.token_id
              then (some (refuse 400 (codes "missing_token_id") [] 0), s, w)
              else elim (get s req.token_id) [
                | none ↦ (some (refuse 404 (codes "token_not_found") [] 404), s, w)
                | some tok ↦ extend_found s ctx req tok now later w
              ]
        ]

    -- breakGlassActivate
    unfoldable pub break_glass_activate :
        (List ℕ → Text → List ℕ → Bool)
        → Store W
        → HttpRequest
        → Instant
        → W
        → Response × Store W × W
    unfolding answer_activation
    break_glass_activate ed25519 s r now w =
        if not (is_method r (codes "POST"))
        then (method_not_allowed 0, s, w)
        else elim srv.bg_manager [
          | none ↦ (
            refuse 503 (codes "break_glass_disabled") (codes "no trusted approvers configured") 0,
            s,
            w,
          )
          | some m ↦ elim (json.decode_break_glass r.body) [
            | err e ↦ (refuse 400 (codes "invalid_json") e 0, s, w)
            | ok req ↦ answer_activation s now (activate ed25519 m req w)
          ]
        ]
