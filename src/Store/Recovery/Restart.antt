-- ===== src/Store/Recovery/Restart.antt =====
-- A shutdown that saves and a start that recovers.
use jit_access_broker.Prelude.{
  ℕ, ◌<◌, ◌≡◌, refl, ◌∙◌, sym, ap, true, false, Option, none, some, List, [], if◌then◌else◌, ltb,
  In, In-map, map-In, select, map, not, arith, Text, inl, inr, Option-cases, str_eq, str_eq_iff,
}
use jit_access_broker.Prelude.Dict.{lookup, In-lookup, lookup-In}
use jit_access_broker.Models.{Instant, IssuedToken}
use jit_access_broker.Providers.{ok, Context, TokenIssuer}
use jit_access_broker.Persistence.{
  FileStore, Record, to_record, to_token, load_all, load_active, save_all,
}
use jit_access_broker.Persistence.Files.{IsFileSystem, IsCodec, load_all-save_all}
use jit_access_broker.Persistence.Scan.{In-select}
use jit_access_broker.Store.{Store, new, with_origin, find_live, get}
use jit_access_broker.Store.Invariant.{Inv}
use jit_access_broker.Store.Recovery.{
  persist_all, replay, set_persistence, recover_missed_expirations,
}
use jit_access_broker.Store.Recovery.Replay.{HasKeys, IsMapped}
use jit_access_broker.Store.Recovery.Missed.{get-replay, get-replay_absent}

-- A token that the old store answered, as the new one answers it: dropped when it has expired, and
-- with the warning flag reset.
abbrev pub surviving : Instant → Option IssuedToken → Option IssuedToken
surviving now none = none
surviving now (some t) =
    if ltb t.expires_at now then none else some (with_origin (record t { notified_expiry = false }))

get-some :
    {W : Type 0} (s : Store W) (id : Text) (t : IssuedToken)
    → get s id ≡ some t
    → (a : ℕ) × (lookup id s.tokens ≡ some a) × ((s.memory a).revoked ≡ false) × (s.memory a ≡ t)
unfolding get find_live
get-some s id t h = elim (Option-cases (lookup id s.tokens)) [
  | inl e ↦ absurd (ground arith)
  | inr (a, e) ↦ (a, e, ground arith, ground arith)
]

get-none :
    {W : Type 0} (s : Store W) (id : Text) (a : ℕ)
    → get s id ≡ none
    → lookup id s.tokens ≡ some a
    → (s.memory a).revoked ≡ true
unfolding get find_live
get-none s id a h e = ground arith

module _ {W : Type 0} (s : Store W) (v : Inv s) where
  -- What PersistAll saves, and the part of it that LoadActive answers.
  abbrev saved : List Record
  saved = map (λ e. to_record (s.memory e.1)) s.tokens

  saved_entry :
      (r : Record)
      → In r saved
      → (a : ℕ) × (lookup r.id s.tokens ≡ some a) × (to_record (s.memory a) ≡ r)
  unfolding to_record
  saved_entry r m =
      let ((k, a), e, q) = map-In (λ e. to_record (s.memory e.1)) r s.tokens m in
      let found = In-lookup k a s.tokens v.keyed e in
      (a, ap (λ i. lookup i s.tokens) (sym (ap (λ x. x.id) q) ∙ v.named k a found) ∙ found, q)

  saved-HasKeys : HasKeys saved
  saved-HasKeys r r' m m' e =
      let (a, found, q) = saved_entry r m in
      let (b, found', q') = saved_entry r' m' in
      let p : a ≡ b = ground (arith, ap (λ i. lookup i s.tokens) e) in
      sym q ∙ ap (λ c. to_record (s.memory c)) p ∙ q'

  module _ (s0 : Store W) (ctx : Context W) (now : Instant) (w : W) (id : Text) where
    -- What LoadActive answers.
    abbrev active : List Record
    active = select (λ r. not r.revoked) saved

    active-HasKeys : HasKeys active
    active-HasKeys r r' m m' =
        saved-HasKeys r r' ((In-select _ r saved).0 m).0 ((In-select _ r' saved).0 m').0

    absent : get s id ≡ none → (r : Record) → In r active → str_eq r.id id ≡ false
    unfolding to_record
    absent h r m =
        let (m', live) = (In-select (λ r. not r.revoked) r saved).0 m in
        let (a, found, q) = saved_entry r m' in
        ground (arith, str_eq_iff r.id id, get-none s id a h, ap (λ x. x.revoked) q)

    present :
        (a : ℕ)
        → IsMapped s0
        → lookup id s0.tokens ≡ none
        → lookup id s.tokens ≡ some a
        → (s.memory a).revoked ≡ false
        → get (replay s0 ctx now active w).0 id ≡ surviving now (some (s.memory a))
    unfolding to_record to_token
    present a mapped fresh found live =
        let r = to_record (s.memory a) in
        let same_id = v.named id a found in
        let m =
          In-map (λ e. to_record (s.memory e.1)) (id, a) s.tokens (lookup-In id a s.tokens found) in
        let m' = (In-select (λ r. not r.revoked) r saved).1 (m, ap not live) in
        ap (get (replay s0 ctx now active w).0) (sym same_id)
        ∙ get-replay s0 ctx now active w r mapped active-HasKeys m'
            (ap (λ i. lookup i s0.tokens) same_id ∙ fresh) live

    -- The replay of what was saved answers for the tokens that were live, and for no others.
    get-replay_saved :
        IsMapped s0
        → lookup id s0.tokens ≡ none
        → get s0 id ≡ none
        → get (replay s0 ctx now active w).0 id ≡ surviving now (get s id)
    get-replay_saved mapped fresh bare = elim (Option-cases (get s id)) [
      | inl e ↦
          get-replay_absent s0 ctx now active w id mapped (absent e)
          ∙ bare
          ∙ ap (surviving now) (sym e)
      | inr (t, e) ↦
          let (a, found, live, q) = get-some s id t e in
          present a mapped fresh found live
          ∙ ap (λ u. surviving now (some u)) q
          ∙ ap (surviving now) (sym e)
    ]

load_active-save_all :
    {W : Type 0} (p : FileStore W) (records : List Record) (w w' : W)
    → IsFileSystem p.fs
    → IsCodec p.json
    → save_all p records w ≡ (none, w')
    → load_active p w' ≡ ok (select (λ r. not r.revoked) records)
unfolding load_active
load_active-save_all p records w w' os json done =
    ground (arith, load_all-save_all p os records w w' json done)

-- What LoadActive answers depends on the file alone.
load_active-same :
    {W : Type 0} (p : FileStore W) (w v : W)
    → p.fs.read_file p.path v ≡ p.fs.read_file p.path w
    → load_active p v ≡ load_active p w
unfolding load_active load_all
load_active-same p w v same = ground arith

set_persistence-replay :
    {W : Type 0} (s : Store W) (p : FileStore W) (ctx : Context W) (now : Instant) (w : W)
    (records : List Record)
    → load_active p w ≡ ok records
    → let (failed, s', w') = set_persistence s (some p) ctx now w in
      (failed ≡ none) × (s' ≡ (replay (record s { persist = some p }) ctx now records w).0)
unfolding set_persistence recover_missed_expirations
set_persistence-replay s p ctx now w records h = ground arith

save_all-persist_all :
    {W : Type 0} (s : Store W) (p : FileStore W) (w w' : W)
    → s.persist ≡ some p
    → persist_all s w ≡ (none, w')
    → save_all p (map (λ e. to_record (s.memory e.1)) s.tokens) w ≡ (none, w')
unfolding persist_all
save_all-persist_all s p w w' at_p done = ground arith

module _ {W : Type 0} (s0 : Store W) (empty : s0.tokens ≡ []) (p : FileStore W) where
  blank :
      (id : Text)
      → let u = record s0 { persist = some p } in (lookup id u.tokens ≡ none) × (get u id ≡ none)
  unfolding lookup get find_live
  blank id = (ground arith, ground arith)

  blank-IsMapped : IsMapped (record s0 { persist = some p })
  blank-IsMapped id a h = absurd (ground (arith, blank id))

  -- What PersistAll of the one store leaves in its file, SetPersistence of an empty one reads back.
  pub get-set_persistence_empty :
      (s : Store W) (ctx : Context W) (now : Instant) (w w' u : W) (id : Text)
      → Inv s
      → IsFileSystem p.fs
      → IsCodec p.json
      → s.persist ≡ some p
      → persist_all s w ≡ (none, w')
      → p.fs.read_file p.path u ≡ p.fs.read_file p.path w'
      → let (failed, s', w'') = set_persistence s0 (some p) ctx now u in
        (failed ≡ none) × (get s' id ≡ surviving now (get s id))
  get-set_persistence_empty s ctx now w w' u id v os json at_p done same_file =
      let loaded =
        load_active-same p w' u same_file
        ∙ load_active-save_all p (saved s v) w w' os json
            (save_all-persist_all s p w w' at_p done) in
      let (fine, same) = set_persistence-replay s0 p ctx now u _ loaded in
      let s1 = record s0 { persist = some p } in
      (
        fine,
        ap (λ x. get x id) same
            ∙ get-replay_saved s v s1 ctx now u id blank-IsMapped (blank id).0 (blank id).1,
      )

-- A start on the file of a shutdown replays records of the old store's tokens, each id once.
pub reread :
    {W : Type 0} (s0 s : Store W) (p : FileStore W) (ctx : Context W) (now : Instant) (w w' u : W)
    → Inv s
    → IsFileSystem p.fs
    → IsCodec p.json
    → s.persist ≡ some p
    → persist_all s w ≡ (none, w')
    → p.fs.read_file p.path u ≡ p.fs.read_file p.path w'
    → (records : List Record) × HasKeys records
      × ((r : Record) → In r records → (a : ℕ) × (a < s.next) × (to_record (s.memory a) ≡ r))
      × ((set_persistence s0 (some p) ctx now u).1
          ≡ (replay (record s0 { persist = some p }) ctx now records u).0)
reread s0 s p ctx now w w' u v os json at_p done same_file =
    let all = saved s v in
    let live = select (λ r. not r.revoked) all in
    let loaded =
      load_active-same p w' u same_file
      ∙ load_active-save_all p all w w' os json (save_all-persist_all s p w w' at_p done) in
    (
      live,
      active-HasKeys s v s0 ctx now u [],
      λ r m.
          let (a, there, q) = saved_entry s v r ((In-select (λ x. not x.revoked) r all).0 m).0 in
          (a, v.mapped r.id a there, q),
      (set_persistence-replay s0 p ctx now u live loaded).1,
    )

-- A shutdown that saves and a start that recovers lose no token and revive none: where PersistAll
-- returned nil on a store that satisfies the invariant, SetPersistence on a new store with the same
-- file returns nil, and afterwards Get answers, for every id, what the old store answered, less the
-- tokens that have expired in between, and with the warning flag reset. The file system keeps what
-- is written and renamed, and the JSON codec reads back what it wrote.
pub get-set_persistence :
    {W : Type 0} (s : Store W) (p : FileStore W) (i : Option (TokenIssuer W)) (ctx : Context W)
    (now : Instant) (w w' : W) (id : Text)
    → Inv s
    → IsFileSystem p.fs
    → IsCodec p.json
    → s.persist ≡ some p
    → persist_all s w ≡ (none, w')
    → let (failed, s', w'') = set_persistence (new i) (some p) ctx now w' in
      (failed ≡ none) × (get s' id ≡ surviving now (get s id))
unfolding new
get-set_persistence s p i ctx now w w' id v os json at_p done =
    get-set_persistence_empty (new i) refl p s ctx now w w' w' id v os json at_p done refl
