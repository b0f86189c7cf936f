-- ===== src/Audit.antt =====
-- audit/audit.go: the events, and the logger as an action on the world, which stands for the
-- io.Writer. Emit is in Audit.Writer.
pub mod Writer
use jit_access_broker.Prelude.{ℕ, Text, List, length, Option, none, some, ℤ, codes}
use jit_access_broker.Models.{Instant, IssuedToken, add_time, max_session_duration, whole_seconds}

pub data EventType : Type 0 where
  requested granted denied revoked extended warning_sent break_glass revoke_failed : EventType

pub data Outcome : Type 0 where
  success failure : Outcome

-- The metadata that each kind of event carries.
pub data Metadata : Type 0 where
  no_metadata : Metadata
  justification : Text → Text → Metadata
  grant : ℤ → Instant → Instant → Instant → Metadata
  revocation : Text → Instant → Metadata
  extension : Instant → ℕ → ℤ → Metadata
  time_left : ℤ → Metadata
  quorum : List Text → ℕ → ℕ → Metadata
  attempt : ℕ → Metadata

pub record Event : Type 0 where
  pub event_type : EventType
  pub session_id : Text
  pub actor : Text
  pub resource : Text
  pub provider : Text
  pub outcome : Outcome
  pub reason : Text
  pub metadata : Metadata

-- The logger, with Emit as an action on the world.
pub record Logger (W : Type 0) : Type 0 where
  pub emit : Event → W → W

-- A logger that is not wired (nil) writes nothing.
abbrev pub when_wired : {W : Type 0} → Option (Logger W) → Event → W → W
when_wired none e w = w
when_wired (some l) e w = l.emit e w

abbrev pub log_requested : Text → Text → Text → Text → Text → Event
log_requested session_id user resource j_type j_ref = record {
  event_type = requested;
  session_id = session_id;
  actor = user;
  resource = resource;
  provider = codes "";
  outcome = success;
  reason = codes "";
  metadata = justification j_type j_ref;
}

unfoldable pub log_granted : IssuedToken → ℤ → Event
log_granted tok ttl_seconds = record {
  event_type = granted;
  session_id = tok.id;
  actor = tok.user;
  resource = tok.resource;
  provider = tok.provider;
  outcome = success;
  reason = codes "";
  metadata =
      grant ttl_seconds tok.expires_at tok.issued_at
        (add_time tok.original_issued_at max_session_duration);
}

unfoldable pub log_denied : Text → Text → Text → Text → Event
log_denied session_id user resource reason = record {
  event_type = denied;
  session_id = session_id;
  actor = user;
  resource = resource;
  provider = codes "";
  outcome = failure;
  reason = reason;
  metadata = no_metadata;
}

unfoldable pub log_revoked : IssuedToken → Text → Event
log_revoked tok source = record {
  event_type = revoked;
  session_id = tok.id;
  actor = tok.user;
  resource = tok.resource;
  provider = tok.provider;
  outcome = success;
  reason = codes "";
  metadata = revocation source tok.expires_at;
}

unfoldable pub log_extended : IssuedToken → Instant → ℤ → Event
log_extended tok new_expiry extensions_left = record {
  event_type = extended;
  session_id = tok.id;
  actor = tok.user;
  resource = tok.resource;
  provider = tok.provider;
  outcome = success;
  reason = codes "";
  metadata = extension new_expiry tok.extension_count extensions_left;
}

abbrev pub log_warning_sent : IssuedToken → ℤ → Event
log_warning_sent tok left = record {
  event_type = warning_sent;
  session_id = tok.id;
  actor = tok.user;
  resource = tok.resource;
  provider = codes "";
  outcome = success;
  reason = codes "";
  metadata = time_left (whole_seconds left);
}

unfoldable pub log_revoke_failed : IssuedToken → ℕ → Text → Event
log_revoke_failed tok n err = record {
  event_type = revoke_failed;
  session_id = tok.id;
  actor = tok.user;
  resource = tok.resource;
  provider = codes "";
  outcome = failure;
  reason = err;
  metadata = attempt n;
}

unfoldable pub log_break_glass : Text → Text → Text → List Text → Event
log_break_glass session_id user resource approvers = record {
  event_type = break_glass;
  session_id = session_id;
  actor = user;
  resource = resource;
  provider = codes "";
  outcome = success;
  reason = codes "";
  metadata = quorum approvers 2 (length approvers);
}
