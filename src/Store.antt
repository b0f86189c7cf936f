-- ===== src/Store.antt =====
-- store/store.go: the token store, with its setters, Add, Get, List, RevokeNow and RevokedCount.
-- A *IssuedToken is an address in `memory`, which the map and the heap share, so that a write
-- through one is seen through the other. `next` is the address of the next object. The external
-- parts act on the world `W`. Each method runs here from its start to its end; Sections and
-- Interleaving are about what other goroutines may do meanwhile.
pub mod Heap
pub mod Extension
pub mod Worker
pub mod Evolution
pub mod Invariant
pub mod Expiry
pub mod Ceiling
pub mod StaleHeap
pub mod Revocation
pub mod History
pub mod Lifetime
pub mod Patience
pub mod Recovery
pub mod Sessions
pub mod Refinement
pub mod Rounds
pub mod Refusals
pub mod Ticks
pub mod Sections
pub mod Interleaving
use jit_access_broker.Prelude.{
  ℕ, suc, ◌+◌, Bool, true, false, Option, none, some, List, [], ◌∷◌, ◌==◌, if◌then◌else◌, ℤ, pos,
  Text, codes,
}
use jit_access_broker.Prelude.Dict.{lookup, insert}
use jit_access_broker.Models.{
  Instant, IssuedToken, zero_token, is_zero_time, max_ttl, max_session_duration,
  warning_before_expiry,
}
use jit_access_broker.Audit.{Logger, when_wired, log_revoked}
use jit_access_broker.Providers.{TokenIssuer, Context}
use jit_access_broker.Notifier.{Notifier, noop_notifier}
use jit_access_broker.Persistence.{FileStore}
use jit_access_broker.Retry
use jit_access_broker.Retry.{RetryRevoker}
use Heap.{push}

abbrev pub Memory : Type 0
Memory = ℕ → IssuedToken

abbrev pub write : Memory → ℕ → IssuedToken → Memory
write m a t b = if a == b then t else m b

-- The expiry that the heap order reads.
abbrev pub expiry : Memory → ℕ → Instant
expiry m a = (m a).expires_at

pub record Store (W : Type 0) : Type 0 where
  pub memory : Memory
  pub next : ℕ
  pub tokens : List (Text × ℕ)
  pub pq : List ℕ
  pub issuer : Option (TokenIssuer W)
  pub revoked_count : ℕ
  -- A send on an observation channel.
  pub revoked_chan : Option (Text → W → W)
  pub ttl : ℤ
  pub max_session : ℤ
  pub warning_before : ℤ
  pub notifier : Option (Notifier W)
  pub warned_chan : Option (Text → W → W)
  pub audit_log : Option (Logger W)
  pub revoker : Option (RetryRevoker W)
  pub persist : Option (FileStore W)

-- The token that Add registers: a first issue starts its session.
abbrev pub with_origin : IssuedToken → IssuedToken
with_origin t =
    if is_zero_time t.original_issued_at then record t { original_issued_at = t.issued_at } else t

abbrev unless_revoked : Memory → Option ℕ → Option ℕ
unless_revoked m none = none
unless_revoked m (some a) = if (m a).revoked then none else some a

unfoldable pub live_tokens : Memory → List (Text × ℕ) → List IssuedToken
live_tokens m [] = []
live_tokens m ((id, a) ∷ rest) =
    let out = live_tokens m rest in if (m a).revoked then out else m a ∷ out

module _ {W : Type 0} where
  -- New
  unfoldable pub new : Option (TokenIssuer W) → Store W
  new issuer = record {
    memory = λ a. zero_token;
    next = 0;
    tokens = [];
    pq = [];
    issuer = issuer;
    revoked_count = 0;
    revoked_chan = none;
    ttl = max_ttl;
    max_session = max_session_duration;
    warning_before = warning_before_expiry;
    notifier = some noop_notifier;
    warned_chan = none;
    audit_log = none;
    revoker = none;
    persist = none;
  }

  unfoldable pub set_session_limits : Store W → ℤ → ℤ → ℤ → Store W
  set_session_limits s ttl max_session warning_before = record s {
    ttl = ttl;
    max_session = max_session;
    warning_before = warning_before;
  }

  -- A nil notifier is ignored.
  unfoldable pub set_notifier : Store W → Option (Notifier W) → Store W
  set_notifier s none = s
  set_notifier s (some n) = record s { notifier = some n }

  unfoldable pub set_revoked_chan : Store W → Option (Text → W → W) → Store W
  set_revoked_chan s c = record s { revoked_chan = c }

  unfoldable pub set_warned_chan : Store W → Option (Text → W → W) → Store W
  set_warned_chan s c = record s { warned_chan = c }

  unfoldable pub set_audit_logger : Store W → Option (Logger W) → Store W
  set_audit_logger s l = record s { audit_log = l }

  unfoldable pub set_retry_revoker : Store W → Option (RetryRevoker W) → Store W
  set_retry_revoker s r = record s { revoker = r }

  -- Add. The caller's token becomes the object at the next address: every caller passes a token
  -- that it has just made.
  unfoldable pub add : Store W → IssuedToken → Store W
  add s t =
      let t' = with_origin t in
      let m = write s.memory s.next t' in
      record s {
        memory = m;
        next = suc s.next;
        tokens = insert t'.id s.next s.tokens;
        pq = push (expiry m) s.pq s.next;
      }

  -- `t, ok := s.tokens[id]` where it is there and not revoked.
  unfoldable pub find_live : Store W → Text → Option ℕ
  find_live s id = unless_revoked s.memory (lookup id s.tokens)

  -- Get
  unfoldable pub get : Store W → Text → Option IssuedToken
  unfolding find_live
  get s id = elim (find_live s id) [ none ↦ none | some a ↦ some (s.memory a) ]

  -- List
  unfoldable pub list : Store W → List IssuedToken
  unfolding live_tokens
  list s = live_tokens s.memory s.tokens

  -- t.Revoked = true; s.revokedCount++
  unfoldable pub mark_revoked : Store W → ℕ → Store W
  mark_revoked s a = record s {
    memory = write s.memory a (record (s.memory a) { revoked = true });
    revoked_count = s.revoked_count + 1;
  }

  -- The call of the retry revoker, or else of the issuer, if one is wired.
  unfoldable pub call_revoker : Store W → Context W → IssuedToken → W → Option Text × W
  call_revoker s ctx t w = elim s.revoker [
    | some r ↦ Retry.revoke r ctx (some t) w
    | none ↦ elim s.issuer [ some i ↦ i.revoke t w | none ↦ (none, w) ]
  ]

  abbrev pub noted_revoked : Store W → IssuedToken → Text → W → W
  noted_revoked s t source = when_wired s.audit_log (log_revoked t source)

  -- The rest of RevokeNow once the token at `a` is marked.
  unfoldable pub finish_revoke : Store W → Context W → ℕ → W → Option Text × W
  unfolding call_revoker
  finish_revoke s ctx a w =
      let (failed, w') = call_revoker s ctx (s.memory a) w in
      elim failed [
        | some e ↦ (some e, w')
        | none ↦ (none, noted_revoked s (s.memory a) (codes "manual") w')
      ]

  -- RevokeNow
  unfoldable pub revoke_now : Store W → Context W → Text → W → Option Text × Store W × W
  unfolding find_live mark_revoked finish_revoke
  revoke_now s ctx id w = elim (find_live s id) [
    | none ↦ (none, s, w)
    | some a ↦
        let s' = mark_revoked s a in let (failed, w') = finish_revoke s' ctx a w in (failed, s', w')
  ]
