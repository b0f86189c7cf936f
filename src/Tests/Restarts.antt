-- ===== src/Tests/Restarts.antt =====
-- Saving, failing to save, and restarting, on a disk in memory.
use jit_access_broker.Prelude.{◌≡◌, refl, none, some, List, [], ◌∷◌, ◌++◌, codes, str_eq}
use jit_access_broker.Prelude.Dict.{lookup, insert}
use jit_access_broker.Providers.{Context}
use jit_access_broker.Persistence.{Record, to_record, save_all, write_then_rename}
use jit_access_broker.Persistence.Files.{save_all-atomic}
use jit_access_broker.Store.{Store, new, add, get}
use jit_access_broker.Store.Invariant.{Inv, new-Inv, add-Inv}
use jit_access_broker.Store.Recovery.{persist_all, set_persistence}
use jit_access_broker.Store.Recovery.Restart.{surviving, get-set_persistence}
use jit_access_broker.Tests.World.{minutes, first_token, second_token}
use jit_access_broker.Tests.Disk.{
  Disk, disk-IsFileSystem, stuck_disk, stuck_disk-IsFileSystem, plain-IsCodec, on_disk,
  on_stuck_disk,
}

abbrev two_records : List Record
unfolding to_record
two_records = to_record first_token ∷ to_record second_token ∷ []

abbrev saved_disk : Disk
unfolding save_all
saved_disk = (save_all on_disk two_records []).1

save_all-atomic_example :
    stuck_disk.read_file (codes "state.json") (save_all on_stuck_disk two_records saved_disk).1
    ≡ stuck_disk.read_file (codes "state.json") saved_disk
unfolding save_all write_then_rename
save_all-atomic_example =
    save_all-atomic on_stuck_disk stuck_disk-IsFileSystem two_records saved_disk
      (save_all on_stuck_disk two_records saved_disk).1
      (codes "persistence: rename: " ++ codes "busy") refl

-- A store of two tokens with the disk wired.
abbrev wired : Store Disk
wired = record (add (add (new none) first_token) second_token) { persist = some on_disk }

wired-Inv : Inv wired
unfolding new add lookup insert str_eq
wired-Inv =
    let v =
      add-Inv {W = Disk} (add (new none) first_token) second_token
        (add-Inv {W = Disk} (new none) first_token (new-Inv none) refl) refl in
    record {
      keyed = v.keyed;
      mapped = v.mapped;
      queued = v.queued;
      named = v.named;
      aligned = v.aligned;
      tracked = v.tracked;
    }

abbrev background : Context Disk
background = record { ctx_err = λ w. none }

abbrev shut_down : Disk
shut_down = (persist_all wired []).1

-- In minute 20 the first token has expired, and the second has not.
get-set_persistence_example :
    let (failed, s', w') =
      set_persistence (new none) (some on_disk) background (minutes 20) shut_down in
    (failed ≡ none) × (get s' (codes "b") ≡ surviving (minutes 20) (get wired (codes "b")))
unfolding persist_all save_all write_then_rename new add lookup insert str_eq
get-set_persistence_example =
    get-set_persistence wired on_disk none background (minutes 20) [] shut_down (codes "b")
      wired-Inv disk-IsFileSystem plain-IsCodec refl refl
