-- ===== src/Jitctl/Reach.antt =====
-- The command line client reaches the handlers that its commands name.
use mathlib.Core.List.{append_assoc}
use jit_access_broker.Prelude.{
  ap, ◌≡◌, refl, Bool, ◌||◌, none, some, ◌++◌, arith, ◌⊎◌, inl, inr, Bool-cases, Text, codes,
  is_empty, str_eq, starts_with,
}
use jit_access_broker.Models.{AccessRequest, ExtensionRequest}
use jit_access_broker.Api.{revoke_path}
use jit_access_broker.Api.Sessions.{starts_with-append}
use jit_access_broker.Router.{
  Endpoint, to_healthz, to_request, to_extend, to_tokens, to_revoke, route,
}
use jit_access_broker.Jitctl.{Flags, Plan, refused, posts, gets, request_body, extend_body, plan}

-- Router hands the path to the endpoint, whether Slack is mounted or not.
abbrev pub IsRouted : Text → Endpoint → Type 0
IsRouted path endpoint = (has_slack : Bool) → route has_slack path ≡ some endpoint

fixed-IsRouted :
    IsRouted (codes "/api/v1/access/request") to_request
    × IsRouted (codes "/api/v1/access/extend") to_extend
    × IsRouted (codes "/api/v1/access/tokens") to_tokens
    × IsRouted (codes "/healthz") to_healthz
unfolding route str_eq starts_with
fixed-IsRouted = (λ b. refl, λ b. refl, λ b. refl, λ b. refl)

revoke_path-IsRouted : (id : Text) → IsRouted (revoke_path ++ id) to_revoke
unfolding route str_eq
revoke_path-IsRouted id has_slack = ground (arith, starts_with-append revoke_path id)

module _ (marshal_access : AccessRequest → Text) (marshal_extension : ExtensionRequest → Text)
    (f : Flags) where
  -- A call of the broker at a path, by POST with a body or by GET, that Router hands to the endpoint.
  abbrev Reaches : Text → Endpoint → (Text → Plan) → Type 0
  Reaches path endpoint method =
      IsRouted path endpoint × (plan marshal_access marshal_extension f ≡ method (f.broker ++ path))

  -- The flags of a command that is sent.
  abbrev pub Sent : Type 0
  Sent =
      Reaches (codes "/api/v1/access/request") to_request
        (λ url. posts url (some (marshal_access (request_body marshal_access marshal_extension f))))
      ⊎ Reaches (codes "/api/v1/access/extend") to_extend (λ url.
        posts url (some (marshal_extension (extend_body marshal_access marshal_extension f))))
      ⊎ Reaches (codes "/api/v1/access/tokens") to_tokens gets
      ⊎ Reaches (revoke_path ++ f.id) to_revoke (λ url. posts url none)
      ⊎ Reaches (codes "/healthz") to_healthz gets

  -- jitctl says what is missing, or calls the broker at a path that Router hands to the endpoint for
  -- it: request and extend with the JSON of the flags, list and health by GET, and revoke by a POST
  -- whose path has the id behind the revoke path.
  pub plan-Sent :
      ((message : Text) × (plan marshal_access marshal_extension f ≡ refused message)) ⊎ Sent
  unfolding plan
  plan-Sent = elim (Bool-cases (str_eq f.cmd (codes "request"))) [
    | inl q ↦
        elim (Bool-cases
          (is_empty f.user || is_empty f.resource || is_empty f.j_type || is_empty f.ref)) [
            | inl e ↦ inl (codes "request requires --user, --resource, --type, --ref", ground arith)
            | inr e ↦ inr (inl (fixed-IsRouted.0, ground arith))
          ]
    | inr q ↦ elim (Bool-cases (str_eq f.cmd (codes "extend"))) [
      | inl q1 ↦
          elim (Bool-cases
            (is_empty f.id || is_empty f.user || is_empty f.j_type || is_empty f.ref)) [
              | inl e ↦ inl (codes "extend requires --id, --user, --type, --ref", ground arith)
              | inr e ↦ inr (inr (inl (fixed-IsRouted.1, ground arith)))
            ]
      | inr q1 ↦ elim (Bool-cases (str_eq f.cmd (codes "list"))) [
        | inl q2 ↦ inr (inr (inr (inl (fixed-IsRouted.2, ground arith))))
        | inr q2 ↦ elim (Bool-cases (str_eq f.cmd (codes "revoke"))) [
          | inl q3 ↦ elim (Bool-cases (is_empty f.id)) [
            | inl e ↦ inl (codes "revoke requires --id", ground arith)
            | inr e ↦ inr (
                inr (
                  inr (
                    inr (
                      inl (
                        revoke_path-IsRouted f.id,
                        rw (q, q1, q2, q3, e)
                            (ap (λ url. posts url none) (append_assoc f.broker revoke_path f.id)),
                      )))))
          ]
          | inr q3 ↦ elim (Bool-cases (str_eq f.cmd (codes "health"))) [
            | inl q4 ↦ inr (inr (inr (inr (inr (fixed-IsRouted.3, ground arith)))))
            | inr q4 ↦
                inl (codes "unknown --cmd. Use: request|extend|list|revoke|health", ground arith)
          ]
        ]
      ]
    ]
  ]
