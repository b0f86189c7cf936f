-- ===== src/Audit/Writer.antt =====
-- NewLogger and Emit of audit/audit.go: one JSON line for an event. The mutex that keeps two lines
-- apart is left out.
use jit_access_broker.Prelude.{Text, codes, ◌++◌}
use jit_access_broker.Models.{Instant}
use jit_access_broker.Providers.{Result, ok, err}
use jit_access_broker.Audit.{Event, Logger}

-- The io.Writer by fmt.Fprintln, the clock, the timestamp's format, json.Marshal of an event with its
-- timestamp, and `%q`.
pub record AuditWriter (W : Type 0) : Type 0 where
  pub print_line : Text → W → W
  pub now : W → Instant × W
  pub rfc3339_nano : Instant → Text
  pub marshal_event : Event → Text → Result Text
  pub quote : Text → Text

module _ {W : Type 0} (out : AuditWriter W) where
  abbrev line_of : Result Text → Text
  line_of (ok line) = line
  line_of (err e) = codes "{\"event_type\":\"audit_error\",\"reason\":" ++ out.quote e ++ codes "}"

  -- Emit. The Log methods leave the timestamp empty, so that Emit sets it.
  unfoldable pub emit_event : Event → W → W
  emit_event e w =
      let (now, w') = out.now w in
      out.print_line (line_of (out.marshal_event e (out.rfc3339_nano now))) w'

  -- NewLogger and NewLoggerWith
  abbrev pub new_logger : Logger W
  new_logger = record { emit = emit_event }

-- NoopLogger
abbrev pub noop_logger : {W : Type 0} → Logger W
noop_logger = record { emit = λ e w. w }
