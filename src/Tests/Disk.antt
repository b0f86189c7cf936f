-- ===== src/Tests/Disk.antt =====
-- A disk in memory, and a codec for the records.
use jit_access_broker.Prelude.{
  ℕ, zero, suc, ◌≡◌, refl, ◌∙◌, ap, Bool, true, false, Option, none, some, List, [], ◌∷◌, ◌++◌, map,
  Text, codes, arith, str_eq_iff, str_eq_refl, Option-cases, inl, inr,
}
use jit_access_broker.Prelude.Dict.{lookup, insert, lookup-insert}
use jit_access_broker.Providers.{ok}
use jit_access_broker.Persistence.{
  Record, FileRead, content, not_exist, FileSystem, Codec, FileStore,
}
use jit_access_broker.Persistence.Files.{IsFileSystem, IsCodec}

abbrev pub Disk : Type 0
Disk = List (Text × Text)

abbrev file_of : Option Text → FileRead
file_of none = not_exist
file_of (some b) = content b

abbrev move_file : Text → Disk → Option Text → Option Text × Disk
move_file q w none = (some (codes "no such file"), w)
move_file q w (some b) = (none, insert q b w)

abbrev pub disk : FileSystem Disk
disk = record {
  write_file = λ p b w. (none, insert p b w);
  rename = λ p q w. move_file q w (lookup p w);
  read_file = λ p w. file_of (lookup p w);
}

pub disk-IsFileSystem : IsFileSystem disk
disk-IsFileSystem = record {
  write_reads = λ p b w w' h. ground (arith, lookup-insert p p b w, str_eq_refl p);
  write_elsewhere =
      λ p q b w ne. ap file_of (lookup-insert p q b w ∙ ground (arith, str_eq_iff p q));
  rename_moves = λ p q b w w' h e. elim (Option-cases (lookup p w)) [
    | inl n ↦ absurd (ground arith)
    | inr (c, n) ↦ ground (arith, lookup-insert q q c w, str_eq_refl q)
  ];
  rename_fails = λ p q e w w' h. elim (Option-cases (lookup p w)) [
    | inl n ↦ ground arith
    | inr (c, n) ↦ absurd (ground arith)
  ];
}

-- A disk on which every rename fails.
abbrev pub stuck_disk : FileSystem Disk
stuck_disk = record {
  write_file = λ p b w. (none, insert p b w);
  rename = λ p q w. (some (codes "busy"), w);
  read_file = λ p w. file_of (lookup p w);
}

pub stuck_disk-IsFileSystem : IsFileSystem stuck_disk
stuck_disk-IsFileSystem = record {
  write_reads = disk-IsFileSystem.write_reads;
  write_elsewhere = disk-IsFileSystem.write_elsewhere;
  rename_moves = λ p q b w w' h e. absurd (ground arith);
  rename_fails = λ p q e w w' h. ground arith;
}

-- A text as one above each code point, and a zero.
abbrev joined : List Text → Text
joined [] = []
joined (t ∷ ts) = map suc t ++ 0 ∷ joined ts

abbrev prefixed : ℕ → List Text → List Text
prefixed c [] = (c ∷ []) ∷ []
prefixed c (t ∷ ts) = (c ∷ t) ∷ ts

abbrev separated : Text → List Text
separated [] = []
separated (zero ∷ s) = [] ∷ separated s
separated (suc c ∷ s) = prefixed c (separated s)

separated-append :
    (u : Text) (ts : List Text)
    → separated (joined ts) ≡ ts
    → separated (map suc u ++ 0 ∷ joined ts) ≡ u ∷ ts
separated-append [] ts h = ap (λ r. [] ∷ r) h
separated-append (c ∷ u) ts h = ap (prefixed c) (separated-append u ts h)

separated-joined : (ts : List Text) → separated (joined ts) ≡ ts
separated-joined [] = refl
separated-joined (t ∷ ts) = separated-append t ts (separated-joined ts)

abbrev bit : Bool → Text
bit true = 1 ∷ []
bit false = []

abbrev is_bit : Text → Bool
is_bit [] = false
is_bit (c ∷ t) = true

abbrev number : Text → ℕ
number [] = 0
number (n ∷ t) = n

abbrev fields : List Record → List Text
fields [] = []
fields (r ∷ rs) =
    (r.version ∷ [])
    ∷ r.id
    ∷ r.user
    ∷ r.resource
    ∷ r.token
    ∷ r.provider
    ∷ (r.issued_at ∷ [])
    ∷ (r.expires_at ∷ [])
    ∷ (r.original_issued_at ∷ [])
    ∷ (r.extension_count ∷ [])
    ∷ bit r.revoked
    ∷ bit r.revocation_pending
    ∷ r.justification_type
    ∷ r.justification_ref
    ∷ fields rs

abbrev records_of : List Text → List Record
records_of (v ∷ id ∷ user ∷ res ∷ tok ∷ prov ∷ at ∷ exp ∷ orig ∷ n ∷ rev ∷ pend ∷ jt ∷ jr ∷ rest) =
    record {
      version = number v;
      id = id;
      user = user;
      resource = res;
      token = tok;
      provider = prov;
      issued_at = number at;
      expires_at = number exp;
      original_issued_at = number orig;
      extension_count = number n;
      revoked = is_bit rev;
      revocation_pending = is_bit pend;
      justification_type = jt;
      justification_ref = jr;
    }
    ∷ records_of rest
records_of _ = []

is_bit-bit : (b : Bool) → is_bit (bit b) ≡ b
is_bit-bit true = refl
is_bit-bit false = refl

records_of-fields : (rs : List Record) → records_of (fields rs) ≡ rs
records_of-fields [] = refl
records_of-fields (r ∷ rs) =
    rw (is_bit-bit r.revoked, is_bit-bit r.revocation_pending, records_of-fields rs) refl

abbrev pub plain : Codec
plain = record {
  marshal = λ rs. ok (joined (fields rs));
  unmarshal = λ t. ok (records_of (separated t));
}

pub plain-IsCodec : IsCodec plain
plain-IsCodec rs bytes h =
    ap (λ t. ok (records_of t)) (ground (arith, separated-joined (fields rs)))
    ∙ ap ok (records_of-fields rs)

abbrev pub on_disk : FileStore Disk
on_disk = record { path = codes "state.json"; fs = disk; json = plain }

abbrev pub on_stuck_disk : FileStore Disk
on_stuck_disk = record { path = codes "state.json"; fs = stuck_disk; json = plain }
