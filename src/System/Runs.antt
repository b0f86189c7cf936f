-- ===== src/System/Runs.antt =====
-- The broker over time: requests to any path and ticks of the worker, in any order.
use jit_access_broker.Prelude.{ℕ, zero, suc, List, [], ◌∷◌, length, arith, ◌≡◌, refl, Option, none}
use jit_access_broker.Prelude.Dict.{lookup}
use jit_access_broker.Models.{Instant, IssuedToken}
use jit_access_broker.Providers.{Context}
use jit_access_broker.Store.{Store, add}
use jit_access_broker.Store.Worker.{
  tick, fire_warnings, revoke_expired, expire_loop, expire_one, popped,
}
use jit_access_broker.Store.Evolution.{expire_one-Evolves}
use jit_access_broker.Store.History.{adds, revokes, warns, expires}
use jit_access_broker.Store.Lifetime.{steps, extends, Later, here, next}
use jit_access_broker.Api.{Server, HttpRequest}
use jit_access_broker.Api.Guards.{justified}
use jit_access_broker.Slack.{Handler}
use jit_access_broker.Router.{Libraries, serve}
use jit_access_broker.System.Changes.{
  Change, unchanged, granted, slack_granted, emergency, extended, ended, emergency_token,
  serve-Change,
}

module _ {W : Type 0} where
  next-expire_loop :
      (rounds : ℕ) (s : Store W) (ctx : Context W) (now : Instant) (w : W) (h : List ℕ)
      → s.pq ≡ h
      → (expire_loop rounds s ctx now w).0.next ≡ s.next
  unfolding expire_loop
  next-expire_loop zero s ctx now w h e = refl
  next-expire_loop (suc rounds) s ctx now w [] e = ground arith
  next-expire_loop (suc rounds) s ctx now w (top ∷ others) e =
      let id = (s.memory top).id in
      let (s', w') = expire_one (popped s) ctx id w in
      ground (
        arith,
        next-expire_loop rounds s' ctx now w' s'.pq refl,
        (expire_one-Evolves (popped s) ctx id w).same_next,
      )

  -- The worker makes no objects.
  pub next-revoke_expired :
      (s : Store W) (ctx : Context W) (now : Instant) (w : W)
      → (revoke_expired s ctx now w).0.next ≡ s.next
  unfolding revoke_expired
  next-revoke_expired s ctx now w = next-expire_loop (length s.pq) s ctx now w s.pq refl

module _ {W : Type 0} (lib : Libraries) (srv : Server W) (slack : Option (Handler W)) where
  -- A request to Router in any world, which mints no id that the map holds; or a tick of Run.
  pub data Turn (s : Store W) : Store W → Type 0 where
    serves :
        (ctx : Context W) (r : HttpRequest) (now later : Instant) (w : W)
        → ((t : IssuedToken)
            → (serve lib srv slack s ctx r now later w).1 ≡ add s t
            → lookup t.id s.tokens ≡ none)
        → Turn s (serve lib srv slack s ctx r now later w).1
    ticks : (ctx : Context W) (now : Instant) (w : W) → Turn s (tick s ctx now w).0

  -- The requests so far, each with the world that it was served in, after one more turn.
  abbrev pub heard : {s s' : Store W} → Turn s s' → List (HttpRequest × W) → List (HttpRequest × W)
  heard (serves ctx r now later w fresh) log = (r, w) ∷ log
  heard (ticks ctx now w) log = log

  Later-trans : {s t u : Store W} → Later s t → Later t u → Later s u
  Later-trans l here = l
  Later-trans l (next l' m) = next (Later-trans l l') m

  Change-Later :
      {s s' : Store W} {r : HttpRequest} {w : W}
      → Change lib srv slack s r w s'
      → ((t : IssuedToken) → s' ≡ add s t → lookup t.id s.tokens ≡ none)
      → Later s s'
  Change-Later unchanged fresh = here
  Change-Later (granted req issued d c v m) fresh =
      next here (steps (adds (justified issued req) (fresh (justified issued req) refl)))
  Change-Later (slack_granted h cmd req issued q p t a) fresh =
      next here (steps (adds (justified issued req) (fresh (justified issued req) refl)))
  Change-Later (emergency m req issued q d v i) fresh =
      next here
        (steps (adds (emergency_token issued req) (fresh (emergency_token issued req) refl)))
  Change-Later (extended req tok now later v d g c o) fresh =
      next here (extends req.token_id now later v)
  Change-Later (ended ctx id v) fresh = next here (steps (revokes ctx id v))

  -- A turn is a history of the store's operations, so that what holds of every history holds of it.
  pub Turn-Later : {s s' : Store W} → Turn s s' → Later s s'
  Turn-Later {s} (serves ctx r now later w fresh) =
      Change-Later (serve-Change lib srv slack s ctx r now later w) fresh
  Turn-Later {s} (ticks ctx now w) =
      let (s', w') = fire_warnings s now w in
      unfold tick in next (next here (steps (warns now w))) (steps (expires ctx now w'))
