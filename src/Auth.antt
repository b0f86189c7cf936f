-- ===== src/Auth.antt =====
-- auth/engine.go: the contextual validation engine. `quote` is fmt's %q.
pub mod Gate
use jit_access_broker.Prelude.{
  Bool, true, false, Option, none, some, List, ◌++◌, if◌then◌else◌, Text, codes, is_empty,
  trim_space, to_lower,
}
use jit_access_broker.Prelude.Dict.{lookup}
use jit_access_broker.Models.{AccessRequest}
use jit_access_broker.Providers.{Result, ok, err, ContextValidator}

-- NewEngine takes the map as it is; a nil map and an empty one are the same list.
pub record Engine (W : Type 0) : Type 0 where
  pub validators : List (Text × ContextValidator W)

pub record ValidationResult : Type 0 where
  pub is_ok : Bool
  pub reason : Text
  pub provider : Text
  pub ref : Text

abbrev pub denied : Text → ValidationResult
denied reason = record { is_ok = false; reason = reason; provider = codes ""; ref = codes "" }

-- strings.TrimSpace(s) == ""
abbrev pub is_blank : Text → Bool
is_blank s = is_empty (trim_space s)

-- The justification type as the engine looks it up.
unfoldable pub normal_type : Text → Text
normal_type s = to_lower (trim_space s)

module _ {W : Type 0} (quote : Text → Text) where
  abbrev judged : Text → Text → Result (Bool × Text) × W → ValidationResult × Option Text × W
  judged jt ref (err e, w) = (
    record {
      is_ok = false;
      reason = codes "context validation error: " ++ e;
      provider = jt;
      ref = ref;
    },
    some e,
    w,
  )
  judged jt ref (ok (granted, reason), w) =
      (record { is_ok = granted; reason = reason; provider = jt; ref = ref }, none, w)

  -- The validator of the type, if there is one.
  unfoldable pub consult :
      Option (ContextValidator W) → Text → AccessRequest → W → ValidationResult × Option Text × W
  consult none jt req w = (denied (codes "unsupported justification_type " ++ quote jt), none, w)
  consult (some v) jt req w =
      judged jt req.justification_ref (v.validate req.user_identity req.justification_ref w)

  -- Validate: the result, the transport error, and the world.
  unfoldable pub validate : Engine W → AccessRequest → W → ValidationResult × Option Text × W
  unfolding normal_type consult
  validate e req w =
      let jt = normal_type req.justification_type in
      if is_blank req.user_identity
      then (denied (codes "user_identity is required"), none, w)
      else if is_blank req.resource
      then (denied (codes "resource is required"), none, w)
      else if is_empty jt
      then (denied (codes "justification_type is required (pagerduty|jira)"), none, w)
      else if is_blank req.justification_ref
      then (denied (codes "justification_ref is required"), none, w)
      else consult (lookup jt e.validators) jt req w
