-- ===== src/Lib.antt =====
-- A model of the JIT access broker, and theorems about it.
--
-- The broker hands out short-lived access tokens. A request passes the contextual engine, which asks
-- the provider of its justification type; the issuer mints a token; the store keeps it, extends it
-- up to a session ceiling, warns before its expiry, and revokes it when it expires. An emergency path
-- replaces the provider by the signatures of two approvers. Revocation retries with backoff, every
-- decision is an audit event, and the token state can be saved to a file and recovered from it.
--
-- The parts:
--   Models       models/models.go: payloads, IssuedToken, the hard limits. A time.Time is a number of
--                nanoseconds since the zero Time, a time.Duration a signed number of nanoseconds.
--   Providers    providers/providers.go: ContextValidator and TokenIssuer as records of actions on a
--                world W, which stands for all that is outside the program. PagerDuty, Jira and Vault
--                are providers/pagerduty.go, jira.go and vault.go over an HTTP client (Http), Stubs is
--                aws.go and demo.go.
--   Auth         auth/engine.go: Validate. Auth.Gate says when it answers OK.
--   Store        store/store.go: New, the setters, Add, Get, List and RevokeNow on a record of the
--                Store's fields. A *IssuedToken is an address in `memory`, shared by the map and the
--                heap. Store.Heap is tokenHeap with container/heap's Push and Pop, Store.Extension is
--                Extend, Store.Worker is fireWarnings, revokeExpired and Run,
--                Store.Recovery is store/reliability.go. The other children are theorems: the
--                invariant, what the worker leaves and spares, the ceiling, whole histories, restarts.
--                Store.Sessions is its abstract view, a table of live sessions, which
--                Store.Refinement relates to it.
--   Retry        retry/retry.go: Revoke with its defaults, delays, cancellation and audit events.
--   Breakglass   breakglass/breakglass.go: CanonicalMessage, Verify and Activate; Signing has
--                GenerateKeyPair and SignMessage.
--   Persistence  persistence/persistence.go: SaveAll, LoadAll, LoadActive, ToRecord, ToToken and
--                MissedExpirations.
--   Config       config/config.go: UnmarshalYAML after the decoder, Validate, Load and Default.
--   Audit        audit/audit.go: the event of each Log method; Audit.Writer is Emit.
--   Notifier     notifier/notifier.go: the interface, MultiNotifier and NoopNotifier; Sinks has the log
--                and the webhooks.
--   Api          api/server.go: the handlers, from a request, the store and the world to the response,
--                the store and the world. Api.Guards and Api.Sessions say what a 200 takes,
--                Api.Listing what listTokens shows.
--   Slack        slack/slack.go: ParseSlackCommand, ParseCommandText, Handle and its helpers.
--   Router       Router of api/server.go: a request to any path, answered by its handler.
--   System       the broker's turns: requests to Router and ticks of the worker over one store.
--   Main         main.go: the wiring of all the parts from the configuration. Main.Life has turns,
--                shutdowns that save and starts that read the state file again.
--   Jitctl       cmd/jitctl/main.go: the command line client.
--   Prelude      what the files share: tests, lists, integers, strings and maps.
--   Tests        the theorems at concrete inputs.
--
-- A Go error is its message: an operation answers an Option of it, or a Result. A reading of the
-- clock is an argument, one for each reading. A panic, which only Extend's division by a zero TTL can
-- raise, is the answer `none`. A map is an association list, which insertion keeps free of double
-- keys; where the code ranges over a map, the model visits it in the list's order.
--
-- Fuel: the sift loops of the heap get one round for each level they can pass, bounded by the index
-- or the number of entries; revokeExpired gets one round for each entry of the heap, and each round
-- removes one; the attempts of Revoke are counted down from MaxAttempts; digits of a number are at
-- most its value and one. The theorems on the results show that this is enough.
--
-- Parameters: the operating system's file calls, encoding/json, YAML, time.ParseDuration, Ed25519, net/http's
-- client and ParseForm, crypto/rand, the clock, Unicode's case folding, `%q`, `%s` on durations and
-- errors, and the float64 conversions of the backoff. Where a theorem needs their documented
-- behaviour, it is a named hypothesis (IsFileSystem, IsCodec, IsExact, Transient, IsSound, IsBytes),
-- and Tests has an instance.
--
-- Concurrency: Store.Sections has what the store's methods do under its lock, and Store.Interleaving
-- lets goroutines take turns between these sections. Elsewhere, in System and in the handlers, each
-- method and each request runs from its start to its end.
--
-- Not modelled: the HTTP server, the signals and the order of the shutdown of main.go, the parsing
-- of flags, the redirect of paths that ServeMux cleans, and MarshalForJSON, which is encoding/json
-- alone. The counters that Go keeps in an int (ExtensionCount, the number of revocations) are
-- unbounded here. strings.ToLower acts on the ASCII letters and the two other code points whose lower
-- case is one, so that a justification type with other capital letters, which no provider has, is not
-- lowered in the message that refuses it.
mod Prelude
pub mod Models
pub mod Audit
pub mod Providers
pub mod Store
pub mod Retry
pub mod Notifier
pub mod Persistence
pub mod Breakglass
pub mod Auth
pub mod Config
pub mod Slack
pub mod Api
pub mod Router
pub mod System
pub mod Main
pub mod Jitctl
pub mod Tests
