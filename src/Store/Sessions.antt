-- ===== src/Store/Sessions.antt =====
-- What the store of store/store.go promises, without its map, heap and memory: a table of the live
-- sessions, and what each operation does to it.
use jit_access_broker.Prelude.{true, Option, none, some, if◌then◌else◌, ℤ, Text, str_eq}
use jit_access_broker.Models.{Instant, IssuedToken}
use jit_access_broker.Store.{with_origin}
use jit_access_broker.Store.Worker.{is_due}
use jit_access_broker.Store.Expiry.{unexpired}

-- The live session under each id.
abbrev pub Sessions : Type 0
Sessions = Text → Option IssuedToken

abbrev live_only : IssuedToken → Option IssuedToken
live_only t = if t.revoked then none else some t

-- A session begins.
abbrev pub opened : IssuedToken → Sessions → Sessions
opened t v id = if str_eq t.id id then live_only (with_origin t) else v id

-- The session under an id ends.
abbrev pub closed : Text → Sessions → Sessions
closed id v j = if str_eq id j then none else v j

abbrev pub marked : ℤ → Instant → IssuedToken → IssuedToken
marked window now t = if is_due window now t then record t { notified_expiry = true } else t

abbrev pub mark_some : ℤ → Instant → Option IssuedToken → Option IssuedToken
mark_some window now none = none
mark_some window now (some t) = some (marked window now t)

-- The sessions that are due for a warning are marked.
abbrev pub warned : ℤ → Instant → Sessions → Sessions
warned window now v id = mark_some window now (v id)

-- The sessions that have expired end.
abbrev pub swept : Instant → Sessions → Sessions
swept now v id = unexpired now (v id)
