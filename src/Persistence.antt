-- ===== src/Persistence.antt =====
-- persistence/persistence.go: the records on disk, the file and recovery's scan.
-- The file system and the JSON codec are parameters; the mutex of the file is left out, since each
-- method holds it from its first line to its last.
pub mod Files
pub mod Scan
use jit_access_broker.Prelude.{
  ℕ, ◌<◌, Bool, false, ◌&&◌, not, Option, none, some, List, [], ◌∷◌, ◌++◌, select, ltb, Text, codes,
}
use jit_access_broker.Models.{Instant, IssuedToken}
use jit_access_broker.Providers.{Result, ok, err}

pub record Record : Type 0 where
  pub version : ℕ
  pub id : Text
  pub user : Text
  pub resource : Text
  pub token : Text
  pub provider : Text
  pub issued_at : Instant
  pub expires_at : Instant
  pub original_issued_at : Instant
  pub extension_count : ℕ
  pub revoked : Bool
  pub revocation_pending : Bool
  pub justification_type : Text
  pub justification_ref : Text

-- What os.ReadFile answers.
pub data FileRead : Type 0 where
  content : Text → FileRead
  not_exist : FileRead
  read_error : Text → FileRead

-- package os
pub record FileSystem (W : Type 0) : Type 0 where
  pub write_file : Text → Text → W → Option Text × W
  pub rename : Text → Text → W → Option Text × W
  pub read_file : Text → W → FileRead

-- package encoding/json at []Record
pub record Codec : Type 0 where
  pub marshal : List Record → Result Text
  pub unmarshal : Text → Result (List Record)

pub record FileStore (W : Type 0) : Type 0 where
  pub path : Text
  pub fs : FileSystem W
  pub json : Codec

abbrev wrapped : Text → Option Text → Option Text
wrapped prefix none = none
wrapped prefix (some e) = some (prefix ++ e)

abbrev decoded : Result (List Record) → Result (List Record)
decoded (ok records) = ok records
decoded (err e) = err (codes "persistence: unmarshal: " ++ e)

module _ {W : Type 0} where
  abbrev pub tmp_path : FileStore W → Text
  tmp_path p = p.path ++ codes ".tmp"

  -- os.WriteFile to the temporary file, then os.Rename.
  unfoldable pub write_then_rename : FileStore W → Text → W → Option Text × W
  write_then_rename p bytes w =
      let (failed, w1) = p.fs.write_file (tmp_path p) bytes w in
      elim failed [
        | some e ↦ (some (codes "persistence: write tmp: " ++ e), w1)
        | none ↦
            let (unmoved, w2) = p.fs.rename (tmp_path p) p.path w1 in
            (wrapped (codes "persistence: rename: ") unmoved, w2)
      ]

  -- SaveAll
  unfoldable pub save_all : FileStore W → List Record → W → Option Text × W
  unfolding write_then_rename
  save_all p records w = elim (p.json.marshal records) [
    | err e ↦ (some (codes "persistence: marshal: " ++ e), w)
    | ok bytes ↦ write_then_rename p bytes w
  ]

  -- LoadAll
  unfoldable pub load_all : FileStore W → W → Result (List Record)
  load_all p w = elim (p.fs.read_file p.path w) [
    | not_exist ↦ ok []
    | read_error e ↦ err (codes "persistence: read: " ++ e)
    | content bytes ↦ decoded (p.json.unmarshal bytes)
  ]

  -- LoadActive
  unfoldable pub load_active : FileStore W → W → Result (List Record)
  unfolding load_all
  load_active p w = elim (load_all p w) [
    | err e ↦ err e
    | ok all ↦ ok (select (λ r. not r.revoked) all)
  ]

unfoldable pub to_record : IssuedToken → Record
to_record t = record {
  version = 1;
  id = t.id;
  user = t.user;
  resource = t.resource;
  token = t.token;
  provider = t.provider;
  issued_at = t.issued_at;
  expires_at = t.expires_at;
  original_issued_at = t.original_issued_at;
  extension_count = t.extension_count;
  revoked = t.revoked;
  revocation_pending = false;
  justification_type = t.justification_type;
  justification_ref = t.justification_ref;
}

unfoldable pub to_token : Record → IssuedToken
to_token r = record {
  id = r.id;
  user = r.user;
  resource = r.resource;
  token = r.token;
  provider = r.provider;
  issued_at = r.issued_at;
  expires_at = r.expires_at;
  original_issued_at = r.original_issued_at;
  extension_count = r.extension_count;
  revoked = r.revoked;
  notified_expiry = false;
  justification_type = r.justification_type;
  justification_ref = r.justification_ref;
}

-- MissedExpirations
unfoldable pub missed_expirations : List Record → Instant → List Record
missed_expirations records now = select (λ r. not r.revoked && ltb r.expires_at now) records
