-- ===== src/Auth/Gate.antt =====
-- When Validate of auth/engine.go answers OK.
use jit_access_broker.Prelude.{
  ◌≡◌, refl, ap, ◌∙◌, ◌↔◌, true, false, Option, none, some, arith, Bool-cases, inl, inr, Text,
  is_empty,
}
use jit_access_broker.Prelude.Dict.{lookup}
use jit_access_broker.Models.{AccessRequest}
use jit_access_broker.Providers.{Result-cases, ok, ContextValidator}
use jit_access_broker.Auth.{Engine, ValidationResult, is_blank, normal_type, consult, validate}

module _ {W : Type 0} (quote : Text → Text) (e : Engine W) (req : AccessRequest) (w : W) where
  -- Every field of the request says something.
  abbrev pub IsComplete : Type 0
  IsComplete =
      (is_blank req.user_identity ≡ false)
      × (is_blank req.resource ≡ false)
      × (is_empty (normal_type req.justification_type) ≡ false)
      × (is_blank req.justification_ref ≡ false)

  -- The provider registered for the request's type, asked about this user and this reference, says
  -- yes.
  abbrev pub IsVouched : Type 0
  IsVouched =
      (v : ContextValidator W) × (lookup (normal_type req.justification_type) e.validators ≡ some v)
      × (reason : Text) × ((v.validate req.user_identity req.justification_ref w).0
          ≡ ok (true, reason))

  -- What a validator must answer.
  abbrev Vouches : Text → Option (ContextValidator W) → Type 0
  Vouches jt found =
      (v : ContextValidator W) × (found ≡ some v)
      × (reason : Text) × ((v.validate req.user_identity req.justification_ref w).0
          ≡ ok (true, reason))

  consult_sound :
      (jt : Text) (found : Option (ContextValidator W))
      → (consult quote found jt req w).0.is_ok ≡ true
      → Vouches jt found × ((consult quote found jt req w).1 ≡ none)
  unfolding consult
  consult_sound jt none h = ground arith
  consult_sound jt (some v) h =
      elim (Result-cases (v.validate req.user_identity req.justification_ref w).0) [
        | inl ((granted, reason), q) ↦ elim (Bool-cases granted) [
          | inl t ↦ ((v, refl, reason, q ∙ ap (λ b. ok (b, reason)) t), ground arith)
          | inr f ↦ ground arith
        ]
        | inr (e', q) ↦ ground arith
      ]

  consult_complete :
      (jt : Text) (found : Option (ContextValidator W))
      → Vouches jt found
      → (consult quote found jt req w).0.is_ok ≡ true
  unfolding consult
  consult_complete jt none (v, q, r, a) = ground arith
  consult_complete jt (some u) (v, q, r, a) = ground arith

  -- The provider's part of Validate.
  abbrev consulted : ValidationResult × Option Text × W
  consulted =
      let jt = normal_type req.justification_type in consult quote (lookup jt e.validators) jt req w

  validate-IsComplete :
      (validate quote e req w).0.is_ok ≡ true
      → IsComplete × (consulted.0.is_ok ≡ true) × ((validate quote e req w).1 ≡ consulted.1)
  unfolding validate
  validate-IsComplete h = ground arith

  validate_complete : IsComplete → validate quote e req w ≡ consulted
  unfolding validate
  validate_complete c = ground arith

  -- Validate answers OK exactly when no field of the request is blank and the provider registered for
  -- its justification type, asked about its user and its reference, answers yes without an error; and
  -- then Validate returns no error.
  pub validate_iff :
      ((validate quote e req w).0.is_ok ≡ true)
      ↔ (IsComplete × IsVouched × ((validate quote e req w).1 ≡ none))
  validate_iff =
      let jt = normal_type req.justification_type in
      let found = lookup jt e.validators in
      (
        λ h.
            let (c, o, n) = validate-IsComplete h in
            let (v, n') = consult_sound jt found o in (c, v, n ∙ n'),
        λ (c, v, n). ap (λ r. r.0.is_ok) (validate_complete c) ∙ consult_complete jt found v,
      )
