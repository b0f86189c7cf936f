-- ===== src/Main/Life/Kept.antt =====
-- A start on the file of a shutdown, and every turn, keep the store fit.
use jit_access_broker.Prelude.{
  ℕ, ◌≡◌, ◌<◌, refl, ◌∙◌, sym, subst, Bool-cases, inl, inr, true, false, none, some, List, [], In,
  arith, is_empty, leb_ℤ,
}
use jit_access_broker.Prelude.Dict.{lookup}
use jit_access_broker.Models.{Instant, IssuedToken, max_session_duration}
use jit_access_broker.Config.{Config}
use jit_access_broker.Persistence.{Record, to_record, to_token}
use jit_access_broker.Persistence.Files.{IsFileSystem, IsCodec}
use jit_access_broker.Store.{
  Store, new, with_origin, set_session_limits, set_retry_revoker, set_audit_logger,
}
use jit_access_broker.Store.Invariant.{Inv, empty-Inv}
use jit_access_broker.Store.Lifetime.{Later-Ages}
use jit_access_broker.Store.Patience.{Later-Inv}
use jit_access_broker.Store.Recovery.{persist_all, set_persistence, replay}
use jit_access_broker.Store.Recovery.Replay.{HasKeys}
use jit_access_broker.Store.Recovery.Kept.{replay-Inv}
use jit_access_broker.Store.Recovery.Covers.{replay-Covers, replay-SameSettings}
use jit_access_broker.Store.Recovery.Restart.{reread}
use jit_access_broker.Api.{HttpRequest}
use jit_access_broker.System.Runs.{Turn, heard, Turn-Later}
use jit_access_broker.System.Origins.{IsAccounted, Turn-Books}
use jit_access_broker.System.Ceiling.{InTime, IsConfined, Turn-IsTimely}
use jit_access_broker.Main.{
  Outside, main_server, main_slack, main_store, recovered_store, wired_store, state_file,
}
use jit_access_broker.Main.Life.{Life, born, lives, restarts, requests}
use jit_access_broker.Main.Life.Fit.{Fit, set_notifier-Fit, empty-Fit, first-Fit}

module _ {W : Type 0} (out : Outside W) (cfg : Config) where
  -- What a record of a token gives back, by either loop of the recovery.
  InTime-replayed :
      (t : IssuedToken)
      → InTime t
      → InTime (with_origin (to_token (to_record t)))
        × InTime (record (to_token (to_record t)) { revoked = true })
  unfolding to_token to_record
  InTime-replayed t h = (ground arith, ground arith)

  IsAccounted-replayed :
      (log : List (HttpRequest × W)) (t : IssuedToken)
      → let srv = main_server out cfg in
        let slack = main_slack out cfg in
        IsAccounted out.lib srv slack log t
        → IsAccounted out.lib srv slack log (with_origin (to_token (to_record t)))
          × IsAccounted out.lib srv slack log (record (to_token (to_record t)) { revoked = true })
  unfolding to_token to_record
  IsAccounted-replayed log t (issued, m, i, u, r) =
      ((issued, m, ground arith, ground arith, ground arith), (issued, m, i, u, r))

  module _ (limit : leb_ℤ cfg.max_session_duration max_session_duration ≡ true)
      (os : IsFileSystem out.fs) (json : IsCodec out.codec) (log : List (HttpRequest × W)) where
    -- The wired store once it knows its file.
    abbrev filed : Store W
    filed = record (wired_store out cfg) { persist = some (state_file out cfg) }

    filed-empty :
        Inv filed
        × ((wired_store out cfg).next ≡ 0)
        × ((wired_store out cfg).max_session ≡ cfg.max_session_duration)
        × ((wired_store out cfg).tokens ≡ [])
        × ((wired_store out cfg).pq ≡ [])
        × ((wired_store out cfg).persist ≡ none)
    unfolding wired_store set_audit_logger set_retry_revoker set_session_limits new
    filed-empty = (empty-Inv _ refl refl, refl, refl, refl, refl, refl)

    -- The replay of records of accounted tokens, each id once, is fit.
    replay-Fit :
        (s : Store W) (now : Instant) (w : W) (records : List Record)
        → is_empty cfg.persistence.path ≡ false
        → Fit out cfg log s
        → HasKeys records
        → ((r : Record) → In r records → (a : ℕ) × (a < s.next) × (to_record (s.memory a) ≡ r))
        → Fit out cfg log (replay filed out.background now records w).0
    unfolding lookup
    replay-Fit s now w records named f keys back =
        let (v, n, m, t, q, p) = filed-empty in
        let (same_file, same_limit) = replay-SameSettings filed out.background now records w in
        let srv = main_server out cfg in
        let slack = main_slack out cfg in
        let none_below : (a : ℕ) → a < filed.next → ⊥ = λ a below. omega (arith, below, n) in
        let timely : (r : Record)
            → In r records
            → InTime (with_origin (to_token r)) × InTime (record (to_token r) { revoked = true }) =
          λ r i.
            let (a, below, e) = back r i in
            subst
              (λ x.
                InTime (with_origin (to_token x)) × InTime (record (to_token x) { revoked = true }))
              e (InTime-replayed (s.memory a) (f.timely.each a below)) in
        let accounted : (r : Record)
            → In r records
            → IsAccounted out.lib srv slack log (with_origin (to_token r))
              × IsAccounted out.lib srv slack log (record (to_token r) { revoked = true }) =
          λ r i.
            let (a, below, e) = back r i in
            subst
              (λ x.
                IsAccounted out.lib srv slack log (with_origin (to_token x))
                × IsAccounted out.lib srv slack log (record (to_token x) { revoked = true }))
              e (IsAccounted-replayed log (s.memory a) (f.books a below)) in
        record {
          inv = replay-Inv filed out.background now records w v (λ id. ground (arith, t)) keys;
          file = same_file ∙ ground arith;
          timely = record {
            limit = rw (same_limit, m) limit;
            each =
                replay-Covers InTime filed out.background now records w (λ r i. (timely r i).0)
                  (λ r i. (timely r i).1) (λ a below. absurd (none_below a below));
          };
          books =
              replay-Covers (IsAccounted out.lib srv slack log) filed out.background now records w
                (λ r i. (accounted r i).0) (λ r i. (accounted r i).1)
                (λ a below. absurd (none_below a below));
        }

    recovered-named :
        (now : Instant) (w : W)
        → is_empty cfg.persistence.path ≡ false
        → (recovered_store out cfg now w).0
          ≡ (set_persistence
              (wired_store out cfg)
              (some (state_file out cfg))
              out.background
              now
              w).1
    unfolding recovered_store
    recovered-named now w named = ground arith

    recovered-unnamed :
        (now : Instant) (w : W)
        → is_empty cfg.persistence.path ≡ true
        → (recovered_store out cfg now w).0 ≡ wired_store out cfg
    unfolding recovered_store
    recovered-unnamed now w unnamed = ground arith

    recovered-Fit :
        (s : Store W) (now : Instant) (w w' v : W)
        → Fit out cfg log s
        → persist_all s w ≡ (none, w')
        → out.fs.read_file cfg.persistence.path v ≡ out.fs.read_file cfg.persistence.path w'
        → Fit out cfg log (recovered_store out cfg now v).0
    recovered-Fit s now w w' v f done same_file =
        elim (Bool-cases (is_empty cfg.persistence.path)) [
          | inl unnamed ↦
              let (empty, n, m, t, q, p) = filed-empty in
              subst (Fit out cfg log) (sym (recovered-unnamed now v unnamed))
                (empty-Fit out cfg limit log (wired_store out cfg) t q n m (p ∙ ground arith))
          | inr named ↦
              let at_p = f.file ∙ ground arith in
              let (records, keys, back, same) =
                reread (wired_store out cfg) s (state_file out cfg) out.background now w w' v f.inv
                  os json at_p done same_file in
              subst (Fit out cfg log) (sym (recovered-named now v named ∙ same))
                (replay-Fit s now v records named f keys back)
        ]

    restarted-Fit :
        (s : Store W) (now : Instant) (w w' v : W)
        → Fit out cfg log s
        → persist_all s w ≡ (none, w')
        → out.fs.read_file cfg.persistence.path v ≡ out.fs.read_file cfg.persistence.path w'
        → Fit out cfg log (main_store out cfg now v).0
    unfolding main_store
    restarted-Fit s now w w' v f done same_file =
        set_notifier-Fit out cfg log (recovered_store out cfg now v).0 _
          (recovered-Fit s now w w' v f done same_file)

  -- A turn keeps the store fit, with its request among the requests.
  Turn-Fit :
      (log : List (HttpRequest × W)) {s s' : Store W}
      (t : Turn out.lib (main_server out cfg) (main_slack out cfg) s s')
      → IsConfined (main_server out cfg) (main_slack out cfg)
      → Fit out cfg log s
      → Fit out cfg (heard out.lib (main_server out cfg) (main_slack out cfg) t log) s'
  Turn-Fit log t c f =
      let later = Turn-Later out.lib (main_server out cfg) (main_slack out cfg) t in
      record {
        inv = Later-Inv later f.inv;
        file = (Later-Ages later).same_persist ∙ f.file;
        timely = Turn-IsTimely out.lib (main_server out cfg) (main_slack out cfg) c t f.timely;
        books = Turn-Books out.lib (main_server out cfg) (main_slack out cfg) log t f.books;
      }

  -- At every moment of a life the store is fit.
  pub Life-Fit :
      {s : Store W} (l : Life out cfg s)
      → leb_ℤ cfg.max_session_duration max_session_duration ≡ true
      → IsConfined (main_server out cfg) (main_slack out cfg)
      → IsFileSystem out.fs
      → IsCodec out.codec
      → Fit out cfg (requests out cfg l) s
  Life-Fit (born now w start) limit c os json = first-Fit out cfg limit [] now w start
  Life-Fit (lives l t) limit c os json =
      Turn-Fit (requests out cfg l) t c (Life-Fit l limit c os json)
  Life-Fit (restarts {s} now w w' v l done same_file) limit c os json =
      restarted-Fit limit os json (requests out cfg l) s now w w' v (Life-Fit l limit c os json)
        done same_file
