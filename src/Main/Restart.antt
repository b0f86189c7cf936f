-- ===== src/Main/Restart.antt =====
-- A life of the broker between two starts of main.go: the state file's way through both.
use jit_access_broker.Prelude.{◌≡◌, ◌∙◌, refl, false, none, some, [], arith, Text, ℤ, is_empty}
use jit_access_broker.Models.{Instant}
use jit_access_broker.Providers.{Result, ok}
use jit_access_broker.Config.{Config, ConfigFile}
use jit_access_broker.Persistence.Files.{IsFileSystem, IsCodec}
use jit_access_broker.Store.{
  Store, new, get, find_live, set_session_limits, set_retry_revoker, set_audit_logger, set_notifier,
}
use jit_access_broker.Store.Recovery.{persist_all, set_persistence}
use jit_access_broker.Store.Recovery.Restart.{surviving, get-set_persistence_empty}
use jit_access_broker.Main.Life.{Life}
use jit_access_broker.Main.Life.Kept.{Life-Fit}
use jit_access_broker.Main.Wiring.{main_config-WithinLimits}
use jit_access_broker.Main.Guarantees.{main-IsConfined}
use jit_access_broker.Main.{
  Outside, main_config, main_store, recovered_store, wired_store, state_file,
}

module _ {W : Type 0} (out : Outside W) (cfg : Config)
    (named : is_empty cfg.persistence.path ≡ false) where
  get-main_store :
      (now : Instant) (w : W) (id : Text)
      → get (main_store out cfg now w).0 id
        ≡ get
            (set_persistence
              (wired_store out cfg)
              (some (state_file out cfg))
              out.background
              now
              w).1
            id
  unfolding main_store recovered_store set_notifier get find_live
  get-main_store now w id = ground arith

  wired_store-empty : (wired_store out cfg).tokens ≡ []
  unfolding wired_store set_audit_logger set_retry_revoker set_session_limits new
  wired_store-empty = refl

-- The sessions outlive the broker: at any moment of its life, over any number of earlier restarts,
-- a shutdown in which PersistAll returns nil and a start of the same configuration that finds the
-- file as PersistAll left it keep every session: Get answers for every id what it answered before
-- the shutdown, less the tokens that have expired in between, and with the warning flag reset. The
-- first start of that life was on a state file that held no active record. The configuration is
-- the default one or a file that Load accepts, with a state file; the file system keeps what is
-- written and renamed, the JSON codec reads back what it wrote, and no id is minted twice.
pub get-main_store_restarted :
    {W : Type 0} (out : Outside W) (show : ℤ → Text) (parse : Text → Result ℤ) (config_path : Text)
    (file : ConfigFile) (cfg : Config) (s : Store W) (again : Instant) (w w' v : W) (id : Text)
    → main_config show parse config_path file ≡ ok cfg
    → is_empty cfg.persistence.path ≡ false
    → IsFileSystem out.fs
    → IsCodec out.codec
    → Life out cfg s
    → persist_all s w ≡ (none, w')
    → out.fs.read_file cfg.persistence.path v ≡ out.fs.read_file cfg.persistence.path w'
    → get (main_store out cfg again v).0 id ≡ surviving again (get s id)
get-main_store_restarted out show parse config_path file cfg s again w w' v id configured path os
      json life saved same_file =
    let limits = main_config-WithinLimits show parse config_path file cfg configured in
    let f =
      Life-Fit out cfg life (ground (arith, limits.session_capped)) (main-IsConfined out cfg limits)
        os json in
    get-main_store out cfg path again v id
    ∙ (get-set_persistence_empty (wired_store out cfg) (wired_store-empty out cfg path)
        (state_file out cfg) s out.background again w w' v id f.inv os json (f.file ∙ ground arith)
        saved same_file).1
