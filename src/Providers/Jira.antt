-- ===== src/Providers/Jira.antt =====
-- providers/jira.go: the ContextValidator of Jira's issues. base64's encoder is a parameter.
pub mod Verdict
use jit_access_broker.Prelude.{
  ℕ, Bool, true, false, not, ◌||◌, ◌&&◌, Option, none, some, List, [], ◌∷◌, ◌++◌, ◌==◌,
  if◌then◌else◌, Text, codes, is_empty, str_eq, trim_space, trim_right, equal_fold, decimal_ℕ,
}
use jit_access_broker.Providers.{Result, ok, err, ContextValidator}
use jit_access_broker.Providers.Http.{HttpCall, HttpReply, HttpClient, Network, client_or_default}

pub record JiraClient (W : Type 0) : Type 0 where
  pub base_url : Text
  pub username : Text
  pub api_token : Text
  pub http_client : Option (HttpClient W)

-- jiraIssue, without its wrappers. An unassigned issue has an assignee of empty strings.
pub record Issue : Type 0 where
  pub status_name : Text
  pub account_id : Text
  pub email_address : Text
  pub display_name : Text

module _ (fold : ℕ → ℕ) (quote : Text → Text) (decode : Text → Result Issue) where
  -- Validate from the issue on.
  unfoldable pub judge_issue : Issue → Text → Text → Result (Bool × Text)
  judge_issue issue user ref =
      if not (equal_fold fold issue.status_name (codes "In Progress"))
      then ok (
        false,
        codes "issue status is " ++ quote issue.status_name ++ codes ", must be In Progress",
      )
      else if is_empty issue.account_id && is_empty issue.email_address
      then ok (false, codes "issue has no assignee")
      else if str_eq issue.account_id user
          || equal_fold fold issue.email_address user
          || equal_fold fold issue.display_name user
      then ok (true, [])
      else ok (false, codes "user " ++ user ++ codes " is not the assignee of issue " ++ ref)

  -- Validate from the reply of the API on.
  unfoldable pub read_issue : Result HttpReply → Text → Text → Result (Bool × Text)
  unfolding judge_issue
  read_issue (err e) user ref = err (codes "jira: " ++ e)
  read_issue (ok reply) user ref =
      if reply.status == 404
      then ok (false, codes "issue " ++ ref ++ codes " not found")
      else if not (reply.status == 200)
      then err
          (codes "jira: unexpected status " ++ decimal_ℕ reply.status ++ codes ": " ++ reply.body)
      else elim (decode reply.body) [
        | err e ↦ err (codes "jira: decode: " ++ e)
        | ok issue ↦ judge_issue issue user ref
      ]

  module _ {W : Type 0} (base64 : Text → Text) (net : Network W) (j : JiraClient W) where
    abbrev pub issue_call : Text → HttpCall
    issue_call ref = record {
      method = codes "GET";
      url =
          trim_right j.base_url b'/'
          ++ codes "/rest/api/3/issue/"
          ++ ref
          ++ codes "?fields=status,assignee";
      headers =
          (codes "Authorization", codes "Basic " ++ base64 (j.username ++ codes ":" ++ j.api_token))
          ∷ (codes "Accept", codes "application/json")
          ∷ [];
      body = [];
    }

    -- Validate
    unfoldable pub jira_validate : Text → Text → W → Result (Bool × Text) × W
    unfolding read_issue
    jira_validate user ref w =
        let call = issue_call ref in
        if is_empty (trim_space ref)
        then (ok (false, codes "missing issue key"), w)
        else elim (net.bad_request call.method call.url) [
          | some e ↦ (err e, w)
          | none ↦
              let (answer, w') = (client_or_default net j.http_client).send call w in
              (read_issue answer user ref, w')
        ]

    abbrev pub jira_validator : ContextValidator W
    jira_validator = record { validate = jira_validate }
