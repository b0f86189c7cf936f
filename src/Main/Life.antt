-- ===== src/Main/Life.antt =====
-- The life of the broker over any number of starts of main.go: requests, ticks of the worker, and
-- shutdowns that save the state file, each followed by a start.
pub mod Fit
pub mod Kept
use jit_access_broker.Prelude.{◌≡◌, ◌⊎◌, true, none, List, [], ◌∷◌, is_empty}
use jit_access_broker.Models.{Instant}
use jit_access_broker.Providers.{ok}
use jit_access_broker.Config.{Config}
use jit_access_broker.Persistence.{load_active}
use jit_access_broker.Store.{Store}
use jit_access_broker.Store.Recovery.{persist_all}
use jit_access_broker.Api.{HttpRequest}
use jit_access_broker.System.Runs.{Turn, heard}
use jit_access_broker.Main.{Outside, main_server, main_slack, main_store, state_file}

module _ {W : Type 0} (out : Outside W) (cfg : Config) where
  -- The first start is without a state file, or on one that holds no active record. The others are on
  -- the file as PersistAll left it.
  pub data Life : Store W → Type 0 where
    born :
        (now : Instant) (w : W)
        → (is_empty cfg.persistence.path ≡ true) ⊎ (load_active (state_file out cfg) w ≡ ok [])
        → Life (main_store out cfg now w).0
    lives :
        {s s' : Store W}
        → Life s
        → Turn out.lib (main_server out cfg) (main_slack out cfg) s s'
        → Life s'
    restarts :
        {s : Store W} (now : Instant) (w w' v : W)
        → Life s
        → persist_all s w ≡ (none, w')
        → out.fs.read_file cfg.persistence.path v ≡ out.fs.read_file cfg.persistence.path w'
        → Life (main_store out cfg now v).0

  -- The requests of a life, each with the world that it was served in.
  abbrev pub requests : {s : Store W} → Life s → List (HttpRequest × W)
  requests (born now w e) = []
  requests (lives l t) = heard out.lib (main_server out cfg) (main_slack out cfg) t (requests l)
  requests (restarts now w w' v l e f) = requests l
