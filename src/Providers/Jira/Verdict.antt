-- ===== src/Providers/Jira/Verdict.antt =====
-- When Jira vouches for a user.
use jit_access_broker.Prelude.{
  ℕ, ◌≡◌, ◌↔◌, ◌⊎◌, inl, inr, Bool, true, false, ◌||◌, ◌&&◌, none, [], ◌==◌, arith, Bool-cases,
  Option-cases, Text, codes, is_empty, trim_space, str_eq, str_eq_iff, equal_fold,
}
use jit_access_broker.Providers.{Result, Result-cases, ok}
use jit_access_broker.Providers.Http.{HttpReply, Network, client_or_default}
use jit_access_broker.Providers.Jira.{
  JiraClient, Issue, judge_issue, read_issue, issue_call, jira_validate,
}

module _ (fold : ℕ → ℕ) (quote : Text → Text) (decode : Text → Result Issue) where
  -- The issue's assignee has the user's account id or, in any case, the user's email or name.
  abbrev pub IsUser : Text → Issue → Type 0
  IsUser user issue =
      (issue.account_id ≡ user)
      ⊎ ((equal_fold fold issue.email_address user ≡ true)
          ⊎ (equal_fold fold issue.display_name user ≡ true))

  -- The issue is in progress, is assigned, and its assignee is the user.
  abbrev pub IsActive : Text → Issue → Type 0
  IsActive user issue =
      (equal_fold fold issue.status_name (codes "In Progress") ≡ true)
      × ((is_empty issue.account_id && is_empty issue.email_address) ≡ false)
      × IsUser user issue

  -- The last test of Validate.
  abbrev matches : Issue → Text → Bool
  matches issue user =
      str_eq issue.account_id user
      || equal_fold fold issue.email_address user
      || equal_fold fold issue.display_name user

  matches_iff : (issue : Issue) (user : Text) → (matches issue user ≡ true) ↔ IsUser user issue
  matches_iff issue user = ground (arith, str_eq_iff issue.account_id user)

  judge_issue_iff :
      (issue : Issue) (user ref reason : Text)
      → (judge_issue fold quote decode issue user ref ≡ ok (true, reason))
        ↔ ((reason ≡ []) × IsActive user issue)
  unfolding judge_issue
  judge_issue_iff issue user ref reason = (
    λ h. elim (Bool-cases (matches issue user)) [
      | inr q ↦ absurd (ground arith)
      | inl q ↦ (ground arith, (ground arith, ground arith, (matches_iff issue user).0 q))
    ],
    λ (r, (status, assigned, u)). let q = (matches_iff issue user).1 u in ground arith,
  )

  read_issue_iff :
      (reply : HttpReply) (user ref reason : Text)
      → (read_issue fold quote decode (ok reply) user ref ≡ ok (true, reason)) ↔ (
          (reason ≡ [])
          × (reply.status ≡ 200)
          × (issue : Issue) × (decode reply.body ≡ ok issue)
          × IsActive user issue)
  unfolding read_issue
  read_issue_iff reply user ref reason = (
    λ h. elim (Bool-cases (reply.status == 200)) [
      | inr q ↦ absurd (ground arith)
      | inl q ↦ elim (Result-cases (decode reply.body)) [
        | inr (e, q') ↦ absurd (ground arith)
        | inl (issue, q') ↦
            let (r, active) = (judge_issue_iff issue user ref reason).0 (ground arith) in
            (r, ground arith, issue, q', active)
      ]
    ],
    λ (r, status, issue, d, active).
        let judged = (judge_issue_iff issue user ref reason).1 (r, active) in ground arith,
  )

  module _ {W : Type 0} (base64 : Text → Text) (net : Network W) (j : JiraClient W) where
    -- Jira's answer, for a key that is not blank, is an issue in progress of the user.
    abbrev pub IsWorkingOn : Text → Text → W → Type 0
    IsWorkingOn user ref w =
        let call = issue_call fold quote decode base64 net j ref in
        (is_empty (trim_space ref) ≡ false)
        × (net.bad_request call.method call.url ≡ none)
        × (reply : HttpReply) × (((client_or_default net j.http_client).send call w).0 ≡ ok reply)
        × (reply.status ≡ 200)
        × (issue : Issue) × (decode reply.body ≡ ok issue)
        × IsActive user issue

    -- Jira vouches for a user exactly when the key is not blank, the request for that issue is
    -- answered with 200 and a body that decodes to an issue in progress (in any case), and that issue
    -- has an assignee, whose account id is the user or whose email or display name is it in any case.
    pub jira_validate_iff :
        (user ref reason : Text) (w : W)
        → ((jira_validate fold quote decode base64 net j user ref w).0 ≡ ok (true, reason))
          ↔ ((reason ≡ []) × IsWorkingOn user ref w)
    unfolding jira_validate
    jira_validate_iff user ref reason w =
        let call = issue_call fold quote decode base64 net j ref in
        let answer = ((client_or_default net j.http_client).send call w).0 in
        (
          λ h. elim (Bool-cases (is_empty (trim_space ref))) [
            | inl q ↦ absurd (ground arith)
            | inr q ↦ elim (Option-cases (net.bad_request call.method call.url)) [
              | inr (e, q') ↦ absurd (ground arith)
              | inl q' ↦ elim (Result-cases answer) [
                | inr (e, q'') ↦ unfold read_issue in absurd (ground arith)
                | inl (reply, q'') ↦
                    let (r, status, issue, d, active) =
                      (read_issue_iff reply user ref reason).0 (ground arith) in
                    (r, (q, q', reply, q'', status, issue, d, active))
              ]
            ]
          ],
          λ (r, (q, q', reply, q'', status, issue, d, active)).
              let read = (read_issue_iff reply user ref reason).1 (r, status, issue, d, active) in
              ground arith,
        )
