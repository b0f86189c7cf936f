-- ===== src/Main/Life/Fit.antt =====
-- What holds of the store at every moment of the broker's life, and at its first start.
use jit_access_broker.Prelude.{
  ◌≡◌, ◌⊎◌, refl, true, Option, none, some, List, [], if◌then◌else◌, arith, is_empty, leb_ℤ,
}
use jit_access_broker.Models.{Instant, max_session_duration}
use jit_access_broker.Providers.{ok}
use jit_access_broker.Config.{Config}
use jit_access_broker.Notifier.{Notifier}
use jit_access_broker.Persistence.{FileStore, load_active, missed_expirations}
use jit_access_broker.Store.{
  Store, new, set_session_limits, set_retry_revoker, set_audit_logger, set_notifier,
}
use jit_access_broker.Store.Invariant.{Inv, empty-Inv, Evolves-Inv}
use jit_access_broker.Store.Evolution.{Evolves-refl}
use jit_access_broker.Store.Recovery.{
  set_persistence, recover_missed_expirations, replay, readd, revoke_missed,
}
use jit_access_broker.Api.{HttpRequest}
use jit_access_broker.System.Origins.{Books}
use jit_access_broker.System.Ceiling.{IsTimely}
use jit_access_broker.Main.{
  Outside, main_server, main_slack, main_store, recovered_store, wired_store, state_file,
}

module _ {W : Type 0} (out : Outside W) (cfg : Config) where
  abbrev pub wired_file : Option (FileStore W)
  wired_file = if is_empty cfg.persistence.path then none else some (state_file out cfg)

  -- What holds of the store at every moment of a life.
  pub record Fit (log : List (HttpRequest × W)) (s : Store W) : Type 0 where
    pub inv : Inv s
    pub file : s.persist ≡ wired_file
    pub timely : IsTimely s
    pub books : Books out.lib (main_server out cfg) (main_slack out cfg) log s

  pub set_notifier-Fit :
      (log : List (HttpRequest × W)) (s : Store W) (n : Option (Notifier W))
      → Fit log s
      → Fit log (set_notifier s n)
  unfolding set_notifier
  set_notifier-Fit log s none f = f
  set_notifier-Fit log s (some n) f = record {
    inv =
        Evolves-Inv {s = s}
          (record {
            same_tokens = refl;
            same_pq = refl;
            same_next = refl;
            same_limit = refl;
            same_persist = refl;
            each = (Evolves-refl s).each;
          })
          f.inv;
    file = f.file;
    timely = record { limit = f.timely.limit; each = f.timely.each };
    books = f.books;
  }

  -- A store without objects, with the configured settings.
  module _ (limit : leb_ℤ cfg.max_session_duration max_session_duration ≡ true)
      (log : List (HttpRequest × W)) where
    pub empty-Fit :
        (s : Store W)
        → s.tokens ≡ []
        → s.pq ≡ []
        → s.next ≡ 0
        → s.max_session ≡ cfg.max_session_duration
        → s.persist ≡ wired_file
        → Fit log s
    empty-Fit s t q n m f = record {
      inv = empty-Inv s t q;
      file = f;
      timely = record { limit = rw m limit; each = λ a below. absurd (omega (arith, below, n)) };
      books = λ a below. absurd (omega (arith, below, n));
    }

    pub first-Fit :
        (now : Instant) (w : W)
        → (is_empty cfg.persistence.path ≡ true) ⊎ (load_active (state_file out cfg) w ≡ ok [])
        → Fit log (main_store out cfg now w).0
    unfolding main_store recovered_store wired_store set_audit_logger set_retry_revoker
        set_session_limits new set_persistence recover_missed_expirations replay readd revoke_missed
        missed_expirations
    first-Fit now w start = set_notifier-Fit log (recovered_store out cfg now w).0 _ (
        empty-Fit (recovered_store out cfg now w).0 (ground arith) (ground arith) (ground arith)
          (ground arith) (ground arith))
