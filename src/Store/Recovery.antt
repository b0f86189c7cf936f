-- ===== src/Store/Recovery.antt =====
-- store/reliability.go: RecoverMissedExpirations, SetPersistence and PersistAll. `now` is the clock
-- read once at the start; the log lines are left out.
pub mod Replay
pub mod Missed
pub mod Kept
pub mod Covers
pub mod Restart
use jit_access_broker.Prelude.{
  ℕ, suc, ◌+◌, Bool, true, false, ◌||◌, Option, none, some, List, [], ◌∷◌, map, if◌then◌else◌, ltb,
  Text, codes,
}
use jit_access_broker.Prelude.Dict.{lookup, insert}
use jit_access_broker.Models.{Instant, IssuedToken}
use jit_access_broker.Audit.{when_wired, log_revoked}
use jit_access_broker.Providers.{Result, ok, err, Context}
use jit_access_broker.Persistence.{
  FileStore, Record, to_record, to_token, load_active, missed_expirations, save_all,
}
use jit_access_broker.Store.{Store, write, add, call_revoker}

module _ {W : Type 0} where
  -- The first loop's body: a record that is still valid is added, unless its id is in the map.
  unfoldable pub readd_one : Store W → Instant → Record → Store W
  readd_one s now r =
      if r.revoked || ltb r.expires_at now
      then s
      else elim (lookup (to_token r).id s.tokens) [ some a ↦ s | none ↦ add s (to_token r) ]

  unfoldable pub readd : Store W → Instant → List Record → Store W
  unfolding readd_one
  readd s now [] = s
  readd s now (r ∷ records) = readd (readd_one s now r) now records

  -- The store's part of the second loop's body: a new object, marked and put in the map only.
  unfoldable pub put_revoked : Store W → IssuedToken → Store W
  put_revoked s tok = record s {
    memory = write s.memory s.next tok;
    next = suc s.next;
    tokens = insert tok.id s.next s.tokens;
    revoked_count = s.revoked_count + 1;
  }

  -- The second loop's body: the revoker's answer is ignored.
  unfoldable pub revoke_missed_one : Store W → Context W → Record → W → Store W × W
  unfolding put_revoked
  revoke_missed_one s ctx r w =
      let tok = record (to_token r) { revoked = true } in
      let s' = put_revoked s tok in
      let (ignored, w') = call_revoker s' ctx tok w in
      (s', when_wired s'.audit_log (log_revoked tok (codes "recovery")) w')

  unfoldable pub revoke_missed : Store W → Context W → List Record → W → Store W × W
  unfolding revoke_missed_one
  revoke_missed s ctx [] w = (s, w)
  revoke_missed s ctx (r ∷ records) w =
      let (s', w') = revoke_missed_one s ctx r w in revoke_missed s' ctx records w'

  -- RecoverMissedExpirations once the records are loaded.
  unfoldable pub replay : Store W → Context W → Instant → List Record → W → Store W × W
  unfolding readd revoke_missed
  replay s ctx now records w =
      revoke_missed (readd s now records) ctx (missed_expirations records now) w

  -- RecoverMissedExpirations
  unfoldable pub recover_missed_expirations :
      Store W → Context W → Instant → W → Option Text × Store W × W
  unfolding replay
  recover_missed_expirations s ctx now w = elim s.persist [
    | none ↦ (none, s, w)
    | some p ↦ elim (load_active p w) [
      | err e ↦ (some e, s, w)
      | ok records ↦ let (s', w') = replay s ctx now records w in (none, s', w')
    ]
  ]

  -- SetPersistence
  unfoldable pub set_persistence :
      Store W → Option (FileStore W) → Context W → Instant → W → Option Text × Store W × W
  unfolding recover_missed_expirations
  set_persistence s p ctx now w = recover_missed_expirations (record s { persist = p }) ctx now w

  -- PersistAll, in the order of the model's map.
  unfoldable pub persist_all : Store W → W → Option Text × W
  persist_all s w = elim s.persist [
    | none ↦ (none, w)
    | some p ↦ save_all p (map (λ e. to_record (s.memory e.1)) s.tokens) w
  ]
