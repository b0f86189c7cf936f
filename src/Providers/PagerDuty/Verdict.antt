-- ===== src/Providers/PagerDuty/Verdict.antt =====
-- When PagerDuty vouches for a user.
use jit_access_broker.Prelude.{
  ℕ, ◌≡◌, ◌↔◌, ◌⊎◌, inl, inr, refl, sym, ◌∙◌, ap, true, false, none, List, [], ◌∷◌, arith,
  Bool-cases, Option-cases, List-cases, ◌==◌, subst, In, Text, codes, is_empty, trim_space, str_eq,
  str_eq_iff, equal_fold,
}
use jit_access_broker.Providers.{Result, Result-cases, ok}
use jit_access_broker.Providers.Http.{HttpReply, Network, client_or_default}
use jit_access_broker.Providers.PagerDuty.{
  PagerDutyClient, Assignee, Incident, is_assigned, judge_incident, read_incident, incident_call,
  pagerduty_validate,
}

module _ (fold : ℕ → ℕ) (quote : Text → Text) (decode : Text → Result Incident) where
  -- The assignee is the user: by id, or by summary in any case.
  abbrev pub IsUser : Text → Assignee → Type 0
  IsUser user a = (a.id ≡ user) ⊎ (equal_fold fold a.summary user ≡ true)

  -- The incident is acknowledged and the user is one of its assignees.
  abbrev pub IsActive : Text → Incident → Type 0
  IsActive user inc =
      (inc.status ≡ codes "acknowledged") × (a : Assignee) × In a inc.assignments × IsUser user a

  is_assigned_iff :
      (l : List Assignee) (user : Text)
      → (is_assigned fold quote decode l user ≡ true) ↔ ((a : Assignee) × In a l × IsUser user a)
  unfolding is_assigned
  is_assigned_iff [] user = (λ h. absurd (ground arith), λ (a, m, u). absurd m)
  is_assigned_iff (a ∷ l) user = (
    λ h. elim (Bool-cases (str_eq a.id user)) [
      | inl q ↦ (a, inl refl, inl ((str_eq_iff a.id user).0 q))
      | inr q ↦ elim (Bool-cases (equal_fold fold a.summary user)) [
        | inl q' ↦ (a, inl refl, inr q')
        | inr q' ↦ let (b, m, u) = (is_assigned_iff l user).0 (ground arith) in (b, inr m, u)
      ]
    ],
    λ (b, m, u). elim m [
      | inl e ↦ elim u [
        | inl i ↦ ground (arith, (str_eq_iff a.id user).1 (ap (λ x. x.id) e ∙ i))
        | inr i ↦ ground (arith, ap (λ x. equal_fold fold x.summary user) e ∙ i)
      ]
      | inr n ↦ ground (arith, (is_assigned_iff l user).1 (b, n, u))
    ],
  )

  judge_incident_iff :
      (inc : Incident) (user ref reason : Text)
      → (judge_incident fold quote decode inc user ref ≡ ok (true, reason))
        ↔ ((reason ≡ []) × IsActive user inc)
  unfolding judge_incident
  judge_incident_iff inc user ref reason = (
    λ h. elim (Bool-cases (str_eq inc.status (codes "acknowledged"))) [
      | inr q ↦ absurd (ground arith)
      | inl q ↦ elim (List-cases inc.assignments) [
        | inl e ↦ absurd (ground arith)
        | inr (a, rest, e) ↦ elim (Bool-cases (is_assigned fold quote decode (a ∷ rest) user)) [
          | inr q' ↦ absurd (ground arith)
          | inl q' ↦
              let found = (is_assigned_iff (a ∷ rest) user).0 q' in
              (
                ground arith,
                (
                  (str_eq_iff inc.status (codes "acknowledged")).0 q,
                  found.0,
                  subst (In found.0) (sym e) found.1,
                  found.2,
                ),
              )
        ]
      ]
    ],
    λ (r, (acknowledged, a, m, u)).
        let q = (str_eq_iff inc.status (codes "acknowledged")).1 acknowledged in
        let q' = (is_assigned_iff inc.assignments user).1 (a, m, u) in
        elim (List-cases inc.assignments) [
          | inl e ↦ absurd (subst (In a) e m)
          | inr (b, rest, e) ↦ ground arith
        ],
  )

  read_incident_iff :
      (reply : HttpReply) (user ref reason : Text)
      → (read_incident fold quote decode (ok reply) user ref ≡ ok (true, reason)) ↔ (
          (reason ≡ [])
          × (reply.status ≡ 200)
          × (inc : Incident) × (decode reply.body ≡ ok inc)
          × IsActive user inc)
  unfolding read_incident
  read_incident_iff reply user ref reason = (
    λ h. elim (Bool-cases (reply.status == 200)) [
      | inr q ↦ absurd (ground arith)
      | inl q ↦ elim (Result-cases (decode reply.body)) [
        | inr (e, q') ↦ absurd (ground arith)
        | inl (inc, q') ↦
            let (r, active) = (judge_incident_iff inc user ref reason).0 (ground arith) in
            (r, ground arith, inc, q', active)
      ]
    ],
    λ (r, status, inc, d, active).
        let judged = (judge_incident_iff inc user ref reason).1 (r, active) in ground arith,
  )

  module _ {W : Type 0} (net : Network W) (p : PagerDutyClient W) where
    -- PagerDuty's answer, for a reference that is not blank, is an active incident of the user.
    abbrev pub IsOnCall : Text → Text → W → Type 0
    IsOnCall user ref w =
        let call = incident_call fold quote decode net p user ref in
        (is_empty (trim_space ref) ≡ false)
        × (net.bad_request call.method call.url ≡ none)
        × (reply : HttpReply) × (((client_or_default net p.http_client).send call w).0 ≡ ok reply)
        × (reply.status ≡ 200)
        × (inc : Incident) × (decode reply.body ≡ ok inc)
        × IsActive user inc

    -- PagerDuty vouches for a user exactly when the reference is not blank, the request for that
    -- incident is answered with 200 and a body that decodes to an acknowledged incident, and one of
    -- its assignees has the user's id or, in any case, the user's name.
    pub pagerduty_validate_iff :
        (user ref reason : Text) (w : W)
        → ((pagerduty_validate fold quote decode net p user ref w).0 ≡ ok (true, reason))
          ↔ ((reason ≡ []) × IsOnCall user ref w)
    unfolding pagerduty_validate read_incident
    pagerduty_validate_iff user ref reason w =
        let call = incident_call fold quote decode net p user ref in
        let answer = ((client_or_default net p.http_client).send call w).0 in
        (
          λ h. elim (Bool-cases (is_empty (trim_space ref))) [
            | inl q ↦ absurd (ground arith)
            | inr q ↦ elim (Option-cases (net.bad_request call.method call.url)) [
              | inr (e, q') ↦ absurd (ground arith)
              | inl q' ↦ elim (Result-cases answer) [
                | inr (e, q'') ↦ absurd (ground arith)
                | inl (reply, q'') ↦
                    let (r, status, inc, d, active) =
                      (read_incident_iff reply user ref reason).0 (ground arith) in
                    (r, (q, q', reply, q'', status, inc, d, active))
              ]
            ]
          ],
          λ (r, (q, q', reply, q'', status, inc, d, active)).
              let read = (read_incident_iff reply user ref reason).1 (r, status, inc, d, active) in
              ground arith,
        )
