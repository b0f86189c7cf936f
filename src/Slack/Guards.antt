-- ===== src/Slack/Guards.antt =====
-- What stands between a slash command and a token.
use jit_access_broker.Prelude.{
  ◌≡◌, ◌≢◌, refl, Bool, true, false, Option, none, some, List, [], ◌∷◌, arith, inl, inr, ◌⊎◌,
  Bool-cases, Text, codes, is_empty, not, ◌&&◌, str_eq, str_eq_iff,
}
use jit_access_broker.Prelude.Dict.{lookup}
use jit_access_broker.Models.{Instant, IssuedToken, AccessRequest}
use jit_access_broker.Providers.{Result, Result-cases, ok, err}
use jit_access_broker.Auth.{ValidationResult, validate}
use jit_access_broker.Auth.Gate.{IsComplete, IsVouched, validate_iff}
use jit_access_broker.Store.{Store, add}
use jit_access_broker.Api.Guards.{justified}
use jit_access_broker.Slack.{
  Handler, SlashCommand, FormRequest, parse_slack_command, parse_command_text, resolve_email,
  command_request, slack_grant, slack_decide, run_command, handle,
}

-- The handler turns the token away.
abbrev turned_away : Text → Text → Bool
turned_away token secret = not (is_empty secret) && not (str_eq token secret)

turned_away-cases :
    (token secret : Text)
    → ((turned_away token secret ≡ false) × ((secret ≡ []) ⊎ (token ≡ secret)))
      ⊎ (turned_away token secret ≡ true)
turned_away-cases token [] = inl (refl, inl refl)
turned_away-cases token (c ∷ secret) = elim (Bool-cases (str_eq token (c ∷ secret))) [
  | inl q ↦ inl (ground arith, inr ((str_eq_iff token (c ∷ secret)).0 q))
  | inr q ↦ inr (ground arith)
]

module _ {W : Type 0} (h : Handler W) (rfc3339 : Instant → Text) where
  -- The store after a grant: the same, or with the token that the issuer minted.
  slack_grant-cases :
      (s : Store W) (req : AccessRequest) (answer : Result IssuedToken) (w : W)
      → ((slack_grant h rfc3339 s req (answer, w)).1 ≡ s)
        ⊎ ((issued : IssuedToken) × (answer ≡ ok issued)
            × ((slack_grant h rfc3339 s req (answer, w)).1 ≡ add s (justified issued req)))
  unfolding slack_grant
  slack_grant-cases s req (err e) w = inl refl
  slack_grant-cases s req (ok issued) w = inr (issued, refl, refl)

  slack_decide-cases :
      (s : Store W) (req : AccessRequest) (res : ValidationResult) (e : Option Text) (w : W)
      → ((slack_decide h rfc3339 s req (res, e, w)).1 ≡ s)
        ⊎ ((res.is_ok ≡ true)
            × (issued : IssuedToken) × ((h.issuer.issue req.user_identity req.resource h.ttl w).0
                ≡ ok issued)
            × ((slack_decide h rfc3339 s req (res, e, w)).1 ≡ add s (justified issued req)))
  unfolding slack_decide
  slack_decide-cases s req res (some e) w = inl refl
  slack_decide-cases s req res none w = elim (Bool-cases res.is_ok) [
    | inr q ↦ inl (ground arith)
    | inl q ↦
        let (answer, v) = h.issuer.issue req.user_identity req.resource h.ttl w in
        elim (slack_grant-cases s req answer v) [
          | inl same ↦ inl (ground arith)
          | inr (issued, minted, added) ↦ inr (q, issued, minted, ground arith)
        ]
  ]

  module _ (quote path_escape : Text → Text) (s : Store W) (w : W) where
    -- The command names a resource for a user whom the handler knows, the engine vouches for the
    -- request, and the issuer mints the token.
    abbrev pub IsApproved : SlashCommand → AccessRequest → IssuedToken → Type 0
    IsApproved cmd req issued =
        (parse_command_text cmd.text
          ≡ ok (req.resource, req.justification_type, req.justification_ref))
        × (req.user_identity ≡ resolve_email h.user_email_map cmd.user_id cmd.user_name)
        × IsComplete quote h.engine req w
        × IsVouched quote h.engine req w
        × ((h.issuer.issue req.user_identity req.resource h.ttl (validate quote h.engine req w).2).0
            ≡ ok issued)

    run_command-cases :
        (cmd : SlashCommand)
        → ((run_command h rfc3339 quote path_escape s cmd w).1 ≡ s)
          ⊎ ((req : AccessRequest) × (issued : IssuedToken) × IsApproved cmd req issued
              × ((run_command h rfc3339 quote path_escape s cmd w).1
                  ≡ add s (justified issued req)))
    unfolding run_command
    run_command-cases cmd = elim (Result-cases (parse_command_text cmd.text)) [
      | inr (e, q) ↦ inl (ground arith)
      | inl ((resource, jtype, jref), q) ↦
          let email = resolve_email h.user_email_map cmd.user_id cmd.user_name in
          let req = command_request email resource jtype jref in
          elim (Bool-cases (is_empty email)) [
            | inl q' ↦ inl (ground arith)
            | inr q' ↦
                let (res, e, v) = validate quote h.engine req w in
                elim (slack_decide-cases s req res e v) [
                  | inl same ↦ inl (ground arith)
                  | inr (allowed, issued, minted, added) ↦
                      let (complete, vouched, fine) =
                        (validate_iff quote h.engine req w).0 allowed in
                      inr (req, issued, (q, refl, complete, vouched, minted), ground arith)
                ]
          ]
    ]

    -- A slash command adds a token only on a provider's word: the store after Handle is the one
    -- before, or the request is a POST whose form parses to a command with the signing secret as its
    -- token (where one is set), whose text names a resource, a type and a reference and whose user
    -- resolves to an email, the provider of the type vouched for that user, the issuer minted a token
    -- for that user and resource with the handler's TTL, and exactly that token, tagged with the
    -- justification, was added.
    pub handle_guarded :
        (r : FormRequest)
        → ((handle h rfc3339 quote path_escape s r w).1 ≡ s)
          ⊎ ((r.method ≡ codes "POST")
              × (cmd : SlashCommand) × (parse_slack_command r ≡ ok cmd)
              × ((h.signing_secret ≡ []) ⊎ (cmd.token ≡ h.signing_secret))
              × (req : AccessRequest) × (issued : IssuedToken) × IsApproved cmd req issued
              × ((handle h rfc3339 quote path_escape s r w).1 ≡ add s (justified issued req)))
    unfolding handle
    handle_guarded r = elim (Bool-cases (str_eq r.method (codes "POST"))) [
      | inr q ↦ inl (ground arith)
      | inl q ↦ elim (Result-cases (parse_slack_command r)) [
        | inr (e, q') ↦ inl (ground arith)
        | inl (cmd, q') ↦ elim (turned_away-cases cmd.token h.signing_secret) [
          | inr bad ↦ inl (ground arith)
          | inl (fine, e) ↦ elim (run_command-cases cmd) [
            | inl same ↦ inl (ground arith)
            | inr (req, issued, approved, added) ↦ inr (
              (str_eq_iff r.method (codes "POST")).0 q,
              cmd,
              q',
              e,
              req,
              issued,
              approved,
              ground arith,
            )
          ]
        ]
      ]
    ]

    run_command_outsider :
        (cmd : SlashCommand)
        → resolve_email h.user_email_map cmd.user_id cmd.user_name ≡ []
        → ((run_command h rfc3339 quote path_escape s cmd w).1 ≡ s)
          × ((run_command h rfc3339 quote path_escape s cmd w).2 ≡ w)
    unfolding run_command
    run_command_outsider cmd none_known = elim (Result-cases (parse_command_text cmd.text)) [
      | inr (e, q) ↦ ground arith
      | inl ((resource, jtype, jref), q) ↦ ground arith
    ]

    -- A stranger reaches nothing: where a signing secret is set and the command's token is another, or
    -- where an email map is set and does not have the command's user, Handle changes neither the store
    -- nor the world: no provider is asked and no token is minted.
    pub handle_stranger :
        (r : FormRequest) (cmd : SlashCommand)
        → parse_slack_command r ≡ ok cmd
        → ((h.signing_secret ≢ []) × (cmd.token ≢ h.signing_secret))
          ⊎ ((emails : List (Text × Text)) × (h.user_email_map ≡ some emails)
              × (lookup cmd.user_id emails ≡ none))
        → ((handle h rfc3339 quote path_escape s r w).1 ≡ s)
          × ((handle h rfc3339 quote path_escape s r w).2 ≡ w)
    unfolding handle resolve_email
    handle_stranger r cmd parsed (inl (secret, other)) =
        elim (turned_away-cases cmd.token h.signing_secret) [
          | inl (fine, inl e) ↦ absurd (secret e)
          | inl (fine, inr e) ↦ absurd (other e)
          | inr bad ↦ ground arith
        ]
    handle_stranger r cmd parsed (inr (emails, m, unknown)) =
        ground (arith, run_command_outsider cmd (ground arith))
