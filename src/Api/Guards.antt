-- ===== src/Api/Guards.antt =====
-- What stands between a request and a token.
use jit_access_broker.Prelude.{
  ℕ, ◌≡◌, ◌≢◌, refl, ◌∙◌, ap, Bool, true, Option, none, some, List, arith, inl, inr, Option-cases,
  Bool-cases, Text, codes,
}
use jit_access_broker.Models.{Instant, IssuedToken, AccessRequest}
use jit_access_broker.Providers.{Result, Result-cases, ok, err}
use jit_access_broker.Auth.{ValidationResult, validate}
use jit_access_broker.Auth.Gate.{IsComplete, IsVouched, validate_iff}
use jit_access_broker.Breakglass.{
  BreakGlassRequest, Manager, Activation, activated, rejected, failed, activate, verify,
}
use jit_access_broker.Breakglass.{granted_ttl}
use jit_access_broker.Breakglass.Decision.{activate_issues}
use jit_access_broker.Store.{Store, add}
use jit_access_broker.Api.{Server, HttpRequest, Decoder, is_method}
use jit_access_broker.Api.Access.{
  grant, decide, request_access, break_glass_activate, answer_activation,
}

-- The issued token with the request's justification.
abbrev pub justified : IssuedToken → AccessRequest → IssuedToken
justified issued req = record issued {
  justification_type = req.justification_type;
  justification_ref = req.justification_ref;
}

module _ {W : Type 0} (srv : Server W) where
  grant-200 :
      (s : Store W) (req : AccessRequest) (answer : Result IssuedToken) (w : W)
      → (grant srv s req (answer, w)).0.status ≡ 200
      → (issued : IssuedToken) × (answer ≡ ok issued)
        × ((grant srv s req (answer, w)).1 ≡ add s (justified issued req))
  unfolding grant
  grant-200 s req (err e) w h = ground arith
  grant-200 s req (ok issued) w h = (issued, refl, refl)

  grant-refused :
      (s : Store W) (req : AccessRequest) (answer : Result IssuedToken) (w : W)
      → (grant srv s req (answer, w)).0.status ≢ 200
      → (grant srv s req (answer, w)).1 ≡ s
  unfolding grant
  grant-refused s req (err e) w h = refl
  grant-refused s req (ok issued) w h = absurd (h refl)

  decide-200 :
      (s : Store W) (req : AccessRequest) (res : ValidationResult) (e : Option Text) (w : W)
      → (decide srv s req (res, e, w)).0.status ≡ 200
      → (res.is_ok ≡ true)
        × (issued : IssuedToken) × ((srv.issuer.issue req.user_identity req.resource srv.ttl w).0
            ≡ ok issued)
        × ((decide srv s req (res, e, w)).1 ≡ add s (justified issued req))
  unfolding decide
  decide-200 s req res (some e) w h = ground arith
  decide-200 s req res none w h = elim (Bool-cases res.is_ok) [
    | inr q ↦ ground arith
    | inl q ↦
        let (answer, v) = srv.issuer.issue req.user_identity req.resource srv.ttl w in
        let (issued, minted, added) = grant-200 s req answer v (ground arith) in
        (q, issued, minted, ground arith)
  ]

  decide-refused :
      (s : Store W) (req : AccessRequest) (answer : ValidationResult × Option Text × W)
      → (decide srv s req answer).0.status ≢ 200
      → (decide srv s req answer).1 ≡ s
  unfolding decide
  decide-refused s req (res, some e, w) h = refl
  decide-refused s req (res, none, w) h = elim (Bool-cases res.is_ok) [
    | inr q ↦ ground arith
    | inl q ↦
        let (answer, v) = srv.issuer.issue req.user_identity req.resource srv.ttl w in
        ground (arith, grant-refused s req answer v)
  ]

  module _ (json : Decoder) (quote : Text → Text) (s : Store W) (r : HttpRequest) (w : W) where
    -- Access is granted only on a provider's word: when requestAccess answers 200, the body decodes
    -- to a request without blank fields for which the provider of its justification type vouched, the
    -- issuer minted a token for that user and resource with the server's TTL, and the store is the
    -- old one with exactly that token, tagged with the justification, added.
    pub request_access_granted :
        (request_access srv json quote s r w).0.status ≡ 200
        → (req : AccessRequest) × (json.decode_access r.body ≡ ok req)
          × IsComplete quote srv.engine req w
          × IsVouched quote srv.engine req w
          × (issued : IssuedToken) × ((srv.issuer.issue req.user_identity req.resource srv.ttl
                (validate quote srv.engine req w).2).0
              ≡ ok issued)
          × ((request_access srv json quote s r w).1 ≡ add s (justified issued req))
    unfolding request_access
    request_access_granted h = elim (Bool-cases (is_method r (codes "POST"))) [
      | inr q ↦ ground arith
      | inl q ↦ elim (Result-cases (json.decode_access r.body)) [
        | inr (e, q') ↦ ground arith
        | inl (req, q') ↦
            let (res, e, v) = validate quote srv.engine req w in
            let (allowed, issued, minted, added) = decide-200 s req res e v (ground arith) in
            let (complete, vouched, fine) = (validate_iff quote srv.engine req w).0 allowed in
            (req, q', complete, vouched, issued, minted, ground arith)
      ]
    ]

    -- Any other answer of requestAccess leaves the store as it was.
    pub request_access_refused :
        (request_access srv json quote s r w).0.status ≢ 200
        → (request_access srv json quote s r w).1 ≡ s
    unfolding request_access
    request_access_refused h = elim (Bool-cases (is_method r (codes "POST"))) [
      | inr q ↦ ground arith
      | inl q ↦ elim (Result-cases (json.decode_access r.body)) [
        | inr (e, q') ↦ ground arith
        | inl (req, q') ↦ ground (arith, decide-refused s req (validate quote srv.engine req w))
      ]
    ]

  answer_activation-200 :
      (s : Store W) (now : Instant) (act : Activation) (w : W)
      → (answer_activation srv s now (act, w)).0.status ≡ 200
      → (tok : IssuedToken) × (act ≡ activated tok)
        × ((answer_activation srv s now (act, w)).1 ≡ add s tok)
  unfolding answer_activation
  answer_activation-200 s now (failed e) w h = absurd (omega arith)
  answer_activation-200 s now (rejected reason) w h = absurd (omega arith)
  answer_activation-200 s now (activated tok) w h = (tok, refl, refl)

  -- Emergency access needs the quorum: when breakGlassActivate answers 200, a manager is wired, the
  -- body decodes to a request that its Verify accepts, and the store is the old one with exactly the
  -- token that the manager's issuer minted for the request's user and resource and for the granted
  -- TTL, added with the break-glass tag and the request's reason.
  pub break_glass_activate_granted :
      (json : Decoder) (quote : Text → Text) (ed25519 : List ℕ → Text → List ℕ → Bool) (s : Store W)
      (r : HttpRequest) (now : Instant) (w : W)
      → (break_glass_activate srv json quote ed25519 s r now w).0.status ≡ 200
      → (m : Manager W) × (srv.bg_manager ≡ some m)
        × (req : BreakGlassRequest) × (json.decode_break_glass r.body ≡ ok req)
        × ((verify ed25519 m req).0 ≡ true)
        × (issued : IssuedToken) × ((m.issuer.issue req.user req.resource
              (granted_ttl req.ttl_minutes)
              w).0
            ≡ ok issued)
        × ((break_glass_activate srv json quote ed25519 s r now w).1
            ≡ add s (record issued {
              justification_type = codes "break_glass";
              justification_ref = req.reason;
            }))
  unfolding break_glass_activate
  break_glass_activate_granted json quote ed25519 s r now w h =
      elim (Bool-cases (is_method r (codes "POST"))) [
        | inr q ↦ ground arith
        | inl q ↦ elim (Option-cases srv.bg_manager) [
          | inl q' ↦ ground arith
          | inr (m, q') ↦ elim (Result-cases (json.decode_break_glass r.body)) [
            | inr (e, q'') ↦ ground arith
            | inl (req, q'') ↦
                let (act, v) = activate ed25519 m req w in
                let (tok, act_tok, added) = answer_activation-200 s now act v (ground arith) in
                let (quorum, issued, v', minted, tagged, logged) =
                  activate_issues ed25519 m w req tok v (ground arith) in
                (
                  m,
                  q',
                  req,
                  q'',
                  quorum,
                  issued,
                  ap (λ o. o.0) minted,
                  ground arith ∙ added ∙ ap (add s) tagged,
                )
          ]
        ]
      ]

  -- Any other answer of breakGlassActivate leaves the store as it was.
  pub break_glass_activate_refused :
      (json : Decoder) (quote : Text → Text) (ed25519 : List ℕ → Text → List ℕ → Bool) (s : Store W)
      (r : HttpRequest) (now : Instant) (w : W)
      → (break_glass_activate srv json quote ed25519 s r now w).0.status ≢ 200
      → (break_glass_activate srv json quote ed25519 s r now w).1 ≡ s
  unfolding break_glass_activate answer_activation
  break_glass_activate_refused json quote ed25519 s r now w h =
      elim (Bool-cases (is_method r (codes "POST"))) [
        | inr q ↦ ground arith
        | inl q ↦ elim (Option-cases srv.bg_manager) [
          | inl q' ↦ ground arith
          | inr (m, q') ↦ elim (Result-cases (json.decode_break_glass r.body)) [
            | inr (e, q'') ↦ ground arith
            | inl (req, q'') ↦ ground arith
          ]
        ]
      ]
