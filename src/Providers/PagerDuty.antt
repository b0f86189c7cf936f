-- ===== src/Providers/PagerDuty.antt =====
-- providers/pagerduty.go: the ContextValidator of PagerDuty's incidents.
pub mod Verdict
use jit_access_broker.Prelude.{
  ℕ, Bool, true, false, not, ◌||◌, Option, none, some, List, [], ◌∷◌, ◌++◌, ◌==◌, if◌then◌else◌,
  Text, codes, is_empty, str_eq, trim_space, trim_right, equal_fold, decimal_ℕ,
}
use jit_access_broker.Providers.{Result, ok, err, ContextValidator}
use jit_access_broker.Providers.Http.{HttpCall, HttpReply, HttpClient, Network, client_or_default}

pub record PagerDutyClient (W : Type 0) : Type 0 where
  pub base_url : Text
  pub api_token : Text
  pub http_client : Option (HttpClient W)

pub record Assignee : Type 0 where
  pub id : Text
  pub summary : Text
  pub html_url : Text

-- pdIncidentEnvelope, without its wrappers: an assignment is its assignee.
pub record Incident : Type 0 where
  pub status : Text
  pub assignments : List Assignee

module _ (fold : ℕ → ℕ) (quote : Text → Text) (decode : Text → Result Incident) where
  -- The loop over the assignments.
  unfoldable pub is_assigned : List Assignee → Text → Bool
  is_assigned [] user = false
  is_assigned (a ∷ rest) user =
      str_eq a.id user || equal_fold fold a.summary user || is_assigned rest user

  -- Validate from the incident on.
  unfoldable pub judge_incident : Incident → Text → Text → Result (Bool × Text)
  unfolding is_assigned
  judge_incident inc user ref =
      if not (str_eq inc.status (codes "acknowledged"))
      then ok
          (false, codes "incident status is " ++ quote inc.status ++ codes ", must be acknowledged")
      else elim inc.assignments [
        | [] ↦ ok (false, codes "no engineer is assigned to this incident")
        | a ∷ rest ↦
            if is_assigned (a ∷ rest) user
            then ok (true, [])
            else ok
                (false, codes "user " ++ user ++ codes " is not an assignee of incident " ++ ref)
      ]

  -- Validate from the reply of the API on.
  unfoldable pub read_incident : Result HttpReply → Text → Text → Result (Bool × Text)
  unfolding judge_incident
  read_incident (err e) user ref = err (codes "pagerduty: " ++ e)
  read_incident (ok reply) user ref =
      if reply.status == 404
      then ok (false, codes "incident " ++ ref ++ codes " not found")
      else if not (reply.status == 200)
      then err (
          codes "pagerduty: unexpected status "
          ++ decimal_ℕ reply.status
          ++ codes ": "
          ++ reply.body)
      else elim (decode reply.body) [
        | err e ↦ err (codes "pagerduty: decode: " ++ e)
        | ok inc ↦ judge_incident inc user ref
      ]

  module _ {W : Type 0} (net : Network W) (p : PagerDutyClient W) where
    abbrev pub incident_call : Text → Text → HttpCall
    incident_call user ref = record {
      method = codes "GET";
      url = trim_right p.base_url b'/' ++ codes "/incidents/" ++ ref;
      headers =
          (codes "Authorization", codes "Token token=" ++ p.api_token)
          ∷ (codes "Accept", codes "application/vnd.pagerduty+json;version=2")
          ∷ (codes "From", user)
          ∷ [];
      body = [];
    }

    -- Validate
    unfoldable pub pagerduty_validate : Text → Text → W → Result (Bool × Text) × W
    unfolding read_incident
    pagerduty_validate user ref w =
        let call = incident_call user ref in
        if is_empty (trim_space ref)
        then (ok (false, codes "missing incident id"), w)
        else elim (net.bad_request call.method call.url) [
          | some e ↦ (err e, w)
          | none ↦
              let (answer, w') = (client_or_default net p.http_client).send call w in
              (read_incident answer user ref, w')
        ]

    abbrev pub pagerduty_validator : ContextValidator W
    pagerduty_validator = record { validate = pagerduty_validate }
