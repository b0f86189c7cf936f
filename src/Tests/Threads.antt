-- ===== src/Tests/Threads.antt =====
-- Interleaved goroutines on concrete stores.
use jit_access_broker.Prelude.{ℕ, ◌≡◌, refl, true, some, [], ◌∷◌, codes, length, ◌+◌, if◌then◌else◌}
use jit_access_broker.Prelude.Dict.{lookup, insert}
use jit_access_broker.Prelude.{str_eq}
use jit_access_broker.Store.Heap.{push}
use jit_access_broker.Store.{new, add, find_live, mark_revoked}
use jit_access_broker.Store.Invariant.{Inv}
use jit_access_broker.Store.Extension.{store_value, max_extensions_for_ceiling, move_expiry}
use jit_access_broker.Store.Worker.{popped}
use jit_access_broker.Store.Sections.{begin_extend, claim, claim_due}
use jit_access_broker.Store.Interleaving.{
  front, Threads, idle, claimed, begun, Turn, adds, revokes, extends, calls, expires, still, turn,
  Interleaved,
}
use jit_access_broker.Store.Interleaving.Once.{count}
use jit_access_broker.Store.Interleaving.Exactly.{revoke_calls-Interleaved}
use jit_access_broker.Store.Interleaving.LateRenewal.{late_renewal}
use jit_access_broker.Tests.World.{World, issuer, minutes, empty_store, first_token}

-- One token; an Extend of it is at the provider when RevokeNow marks the token and has it revoked.
abbrev one_added : Threads World
one_added = record (idle empty_store []) { store = add empty_store first_token }

abbrev extending : Threads World
extending =
    begun one_added (codes "a") (begin_extend one_added.store (codes "a") (minutes 5) (minutes 5))

abbrev marked : Threads World
marked = claimed extending (claim extending.store (codes "a"))

abbrev revoked_meanwhile : Threads World
revoked_meanwhile = record marked { to_revoke = []; revoke_calls = 0 ∷ [] }

is_waiting :
    (marked.to_revoke ≡ 0 ∷ []) × (marked.to_renew ≡ codes "a" ∷ []) × (marked.revoke_calls ≡ [])
unfolding new add lookup insert str_eq find_live mark_revoked claim begin_extend
    max_extensions_for_ceiling move_expiry
is_waiting = (refl, refl, refl)

revoked_meanwhile-Interleaved : Interleaved (some issuer) revoked_meanwhile
unfolding new add lookup insert str_eq find_live mark_revoked claim begin_extend
    max_extensions_for_ceiling move_expiry
revoked_meanwhile-Interleaved =
    turn
      (turn
        (turn (turn still (adds first_token refl refl))
          (extends (codes "a") (minutes 5) (minutes 5)))
        (revokes (codes "a")))
      (calls 0 front)

late_renewal_example :
    let d = record revoked_meanwhile {
      store = store_value revoked_meanwhile.store (codes "a") (codes "new");
      to_renew = [];
    } in
    Turn revoked_meanwhile d
    × ((d.store.memory 0).token ≡ codes "new")
    × ((d.store.memory 0).revoked ≡ true)
    × (count 0 d.revoke_calls ≡ 1)
unfolding new add lookup insert str_eq find_live mark_revoked claim begin_extend
    max_extensions_for_ceiling move_expiry
late_renewal_example =
    late_renewal (some issuer) revoked_meanwhile
      (record revoked_meanwhile {
        store = store_value revoked_meanwhile.store (codes "a") (codes "new");
        to_renew = [];
      })
      0 (codes "a") (codes "new") [] revoked_meanwhile-Interleaved refl refl refl front still

-- RevokeNow has marked the token and is at the provider, while the worker pops its entry.
abbrev at_provider : Threads World
at_provider = claimed one_added (claim one_added.store (codes "a"))

abbrev swept_meanwhile : Threads World
swept_meanwhile = claimed at_provider (claim (popped at_provider.store) (codes "a"))

swept_meanwhile-Interleaved : Interleaved (some issuer) swept_meanwhile
unfolding new add lookup insert str_eq find_live mark_revoked claim claim_due push
swept_meanwhile-Interleaved =
    turn (turn (turn still (adds first_token refl refl)) (revokes (codes "a")))
      (expires (minutes 300) (claim (popped at_provider.store) (codes "a")) refl)

revoke_calls-Interleaved_example :
    Inv swept_meanwhile.store
    × ((a : ℕ)
        → count a swept_meanwhile.to_revoke + count a swept_meanwhile.revoke_calls
          ≡ (if (swept_meanwhile.store.memory a).revoked then 1 else 0))
    × (swept_meanwhile.store.revoked_count
        ≡ length swept_meanwhile.to_revoke + length swept_meanwhile.revoke_calls)
revoke_calls-Interleaved_example =
    revoke_calls-Interleaved (some issuer) swept_meanwhile swept_meanwhile-Interleaved
