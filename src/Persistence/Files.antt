-- ===== src/Persistence/Files.antt =====
-- Saving and loading, over what the operating system and encoding/json document.
use jit_access_broker.Prelude.{
  ◌≡◌, ◌≢◌, none, some, List, arith, Text, Option-cases, inl, inr, ap, length, length-append, codes,
}
use jit_access_broker.Providers.{Result-cases, ok}
use jit_access_broker.Persistence.{
  Record, content, FileSystem, Codec, FileStore, tmp_path, save_all, load_all,
}

-- What the os package promises of the three calls.
pub record IsFileSystem {W : Type 0} (fs : FileSystem W) : Type 0 where
  pub write_reads :
      (p b : Text) (w w' : W) → fs.write_file p b w ≡ (none, w') → fs.read_file p w' ≡ content b
  pub write_elsewhere :
      (p q b : Text) (w : W) → p ≢ q → fs.read_file q (fs.write_file p b w).1 ≡ fs.read_file q w
  pub rename_moves :
      (p q b : Text) (w w' : W)
      → fs.rename p q w ≡ (none, w')
      → fs.read_file p w ≡ content b
      → fs.read_file q w' ≡ content b
  pub rename_fails :
      (p q e : Text) (w w' : W)
      → fs.rename p q w ≡ (some e, w')
      → fs.read_file q w' ≡ fs.read_file q w

-- What is written reads back.
abbrev pub IsCodec : Codec → Type 0
IsCodec c =
    (records : List Record) (bytes : Text)
    → c.marshal records ≡ ok bytes
    → c.unmarshal bytes ≡ ok records

tmp_path_ne : {W : Type 0} (p : FileStore W) → tmp_path p ≢ p.path
tmp_path_ne p e = absurd (omega (arith, ap length e, length-append p.path (codes ".tmp")))

module _ {W : Type 0} (p : FileStore W) (os : IsFileSystem p.fs) where
  -- Where the file system behaves as documented and the codec reads back what it wrote, a SaveAll that
  -- returns nil leaves a file from which LoadAll returns the same records.
  pub load_all-save_all :
      (records : List Record) (w w' : W)
      → IsCodec p.json
      → save_all p records w ≡ (none, w')
      → load_all p w' ≡ ok records
  unfolding save_all load_all
  load_all-save_all records w w' c h = elim (Result-cases (p.json.marshal records)) [
    | inr (e, failed) ↦ ground arith
    | inl (bytes, done) ↦
        let (kept, w1) = p.fs.write_file (tmp_path p) bytes w in
        elim (Option-cases kept) [
          | inr (e, failed) ↦ ground arith
          | inl written ↦
              let moved : p.fs.rename (tmp_path p) p.path w1 ≡ (none, w') = ground arith in
              let read : p.fs.read_file p.path w' ≡ content bytes =
                os.rename_moves (tmp_path p) p.path bytes w1 w' moved
                  (os.write_reads (tmp_path p) bytes w w1 (ground arith)) in
              ground (arith, c records bytes)
        ]
  ]

  -- Where the file system behaves as documented, a SaveAll that returns an error leaves the file as it
  -- was.
  pub save_all-atomic :
      (records : List Record) (w w' : W) (e : Text)
      → save_all p records w ≡ (some e, w')
      → p.fs.read_file p.path w' ≡ p.fs.read_file p.path w
  unfolding save_all
  save_all-atomic records w w' e h = elim (Result-cases (p.json.marshal records)) [
    | inr (m, failed) ↦ ground arith
    | inl (bytes, done) ↦
        let (kept, w1) = p.fs.write_file (tmp_path p) bytes w in
        let same = os.write_elsewhere (tmp_path p) p.path bytes w (tmp_path_ne p) in
        elim (Option-cases kept) [
          | inr (m, failed) ↦ ground arith
          | inl written ↦
              let (moved, w2) = p.fs.rename (tmp_path p) p.path w1 in
              elim (Option-cases moved) [
                | inl through ↦ ground arith
                | inr (m, refused) ↦
                    ground (arith, os.rename_fails (tmp_path p) p.path m w1 w2 (ground arith))
              ]
        ]
  ]
