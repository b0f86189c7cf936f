-- ===== src/Tests/Sessions.antt =====
-- The store's theorems at stores of one and of two tokens.
use jit_access_broker.Prelude.{ℕ, ◌≤◌, ◌≡◌, refl, none, some, pos, codes, arith, str_eq, []}
use Prim.Native.Nat.{max}
use jit_access_broker.Prelude.Dict.{lookup, insert}
use jit_access_broker.Store.{
  new, add, get, with_origin, expiry, find_live, mark_revoked, revoke_now,
}
use jit_access_broker.Store.Extension.{
  extension_of, ceiling, extend, extend_by_ttl, reissue, move_expiry, max_extensions_for_ceiling,
  store_value,
}
use jit_access_broker.Store.Worker.{revoke_expired, expire_loop}
use jit_access_broker.Store.Expiry.{unexpired}
use jit_access_broker.Store.Invariant.{Inv, new-Inv, add-Inv}
use jit_access_broker.Store.Refinement.{table, get-table}
use jit_access_broker.Store.Rounds.{IsDone, revoke_expired-IsDone}
use jit_access_broker.Store.History.{
  Reach, start, next, adds, revokes, expires, get-revoke_expired-Reach,
}
use jit_access_broker.Store.Patience.{get-revoke_expired-Later}
use jit_access_broker.Store.Lifetime.{steps, Later, here, next, extends, get-Later, expiry-Later}
use jit_access_broker.Store.Ceiling.{Granted, extend-Granted}
use jit_access_broker.Store.Revocation.{revoke_now_idem}
use jit_access_broker.Store.Worker.{run}
use jit_access_broker.Store.Ticks.{Passed, get-run-none_iff}
use jit_access_broker.Prelude.{◌↔◌, In, List, [], ◌∷◌, length}
use jit_access_broker.Models.{IssuedToken}
use jit_access_broker.Api.{HttpRequest, Safe, respond, tokens, safe, list_tokens}
use jit_access_broker.Api.Listing.{list_tokens_lem}
use jit_access_broker.Tests.World.{
  World, issuer, background, minutes, empty_store, first_token, second_token, two_tokens,
}

two_tokens-Reach : Reach (some issuer) two_tokens
unfolding new add lookup insert str_eq
two_tokens-Reach = next (next start (adds first_token refl)) (adds second_token refl)

get-revoke_expired-Reach_example :
    get (revoke_expired two_tokens background (minutes 12) tt).0 (codes "a")
    ≡ unexpired (minutes 12) (get two_tokens (codes "a"))
get-revoke_expired-Reach_example =
    get-revoke_expired-Reach (some issuer) two_tokens background (minutes 12) tt (codes "a")
      two_tokens-Reach

extend-Granted_example :
    Granted two_tokens
      (extend two_tokens (codes "a") (minutes 5) (minutes 5) tt).1
      0
      (extension_of 0 (minutes 71) (minutes 241) (pos 3))
unfolding new add lookup insert str_eq find_live extend extend_by_ttl move_expiry reissue
    max_extensions_for_ceiling store_value
extend-Granted_example =
    extend-Granted two_tokens (codes "a") 0 (minutes 5) (minutes 5) tt
      (extension_of 0 (minutes 71) (minutes 241) (pos 3)) refl refl refl

revoke_now_idem_example :
    let (failed, s', w') = revoke_now two_tokens background (codes "b") tt in
    (get s' (codes "b") ≡ none)
    × ((v : World) → revoke_now s' background (codes "b") v ≡ (none, s', v))
revoke_now_idem_example = revoke_now_idem two_tokens background (codes "b") tt

expiry-Later_example :
    let s' = (extend two_tokens (codes "a") (minutes 5) (minutes 5) tt).1 in
    (expiry s'.memory 0 ≤ max (expiry two_tokens.memory 0) (ceiling two_tokens 0))
    × ((s'.memory 0).user ≡ (two_tokens.memory 0).user)
    × ((s'.memory 0).resource ≡ (two_tokens.memory 0).resource)
unfolding new add
expiry-Later_example =
    expiry-Later two_tokens (extend two_tokens (codes "a") (minutes 5) (minutes 5) tt).1 0
      (omega arith) (Later.next here (extends (codes "a") (minutes 5) (minutes 5) tt))

get-Later_example :
    let s = (revoke_now two_tokens background (codes "a") tt).1 in
    get (extend s (codes "a") (minutes 5) (minutes 5) tt).1 (codes "a") ≡ none
unfolding new add lookup insert str_eq find_live mark_revoked revoke_now
get-Later_example =
    let s = (revoke_now two_tokens background (codes "a") tt).1 in
    get-Later s (extend s (codes "a") (minutes 5) (minutes 5) tt).1 (codes "a") 0 (omega arith) refl
      refl (Later.next here (extends (codes "a") (minutes 5) (minutes 5) tt))

add-Inv_two : Inv two_tokens
unfolding new add lookup insert str_eq
add-Inv_two =
    add-Inv (add empty_store first_token) second_token
      (add-Inv empty_store first_token (new-Inv (some issuer)) refl) refl

abbrev get_request : HttpRequest
get_request = record { method = codes "GET"; path = codes "/api/v1/access/tokens"; body = [] }

list_tokens_example :
    (out : List Safe) × (list_tokens two_tokens get_request ≡ respond 200 (tokens out (length out)))
    × ((x : Safe) → In x out ↔ ((t : IssuedToken) × (get two_tokens t.id ≡ some t) × (safe t ≡ x)))
unfolding str_eq
list_tokens_example = list_tokens_lem two_tokens add-Inv_two get_request refl

-- Token `a`, extended to minute 71, is live after a tick in minute 40.
get-revoke_expired-Later_example :
    let s = (extend two_tokens (codes "a") (minutes 5) (minutes 5) tt).1 in
    get (revoke_expired s background (minutes 40) tt).0 (codes "a") ≡ some (s.memory 0)
unfolding new add lookup insert str_eq get find_live extend extend_by_ttl move_expiry reissue
    max_extensions_for_ceiling store_value
get-revoke_expired-Later_example =
    get-revoke_expired-Later (some issuer)
      (extend two_tokens (codes "a") (minutes 5) (minutes 5) tt).1 background (minutes 40) tt
      (codes "a") _
      (Later.next
        (Later.next (Later.next here (steps (adds first_token refl)))
          (steps (adds second_token refl)))
        (extends (codes "a") (minutes 5) (minutes 5) tt))
      refl (omega arith)

-- RevokeNow of the one token, then a round of the worker in minute 12: the other is in the table.
revoked_swept-Reach :
    Reach
      (some issuer)
      (revoke_expired
        (revoke_now two_tokens background (codes "a") tt).1
        background
        (minutes 12)
        tt).0
revoked_swept-Reach =
    next (next two_tokens-Reach (revokes background (codes "a") tt))
      (expires background (minutes 12) tt)

get-table_example :
    get
      (revoke_expired
        (revoke_now two_tokens background (codes "a") tt).1
        background
        (minutes 12)
        tt).0
      (codes "b")
    ≡ table revoked_swept-Reach (codes "b")
get-table_example = get-table revoked_swept-Reach (codes "b")

revoke_expired-IsDone_example :
    IsDone (revoke_expired two_tokens background (minutes 12) tt).0 (minutes 12)
    × ((rounds : ℕ)
        → length two_tokens.pq ≤ rounds
        → expire_loop rounds two_tokens background (minutes 12) tt
          ≡ revoke_expired two_tokens background (minutes 12) tt)
revoke_expired-IsDone_example = revoke_expired-IsDone two_tokens background (minutes 12) tt

get-run-none_iff_example :
    (get (run two_tokens background (minutes 2 ∷ minutes 12 ∷ []) tt).0 (codes "a") ≡ none)
    ↔ Passed (minutes 11) (minutes 2 ∷ minutes 12 ∷ [])
unfolding get find_live new add lookup insert str_eq
get-run-none_iff_example =
    get-run-none_iff (some issuer) background two_tokens (minutes 2 ∷ minutes 12 ∷ []) tt
      (codes "a") (with_origin first_token) two_tokens-Reach refl
