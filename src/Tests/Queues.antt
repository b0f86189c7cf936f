-- ===== src/Tests/Queues.antt =====
-- What a stale heap and a refusal of Extend do.
use jit_access_broker.Prelude.{ℕ, ◌≡◌, ◌⊎◌, refl, none, some, pos, codes, arith, str_eq, [], ◌∷◌}
use jit_access_broker.Prelude.Dict.{lookup, insert}
use jit_access_broker.Providers.{TokenIssuer, err}
use jit_access_broker.Store.{Store, new, add, get, find_live}
use jit_access_broker.Store.Heap.{push}
use jit_access_broker.Store.Extension.{
  refusal, extension_of, extend, extend_by_ttl, move_expiry, max_extensions_for_ceiling, reissue,
  store_value,
}
use jit_access_broker.Store.Worker.{revoke_expired}
use jit_access_broker.Store.StaleHeap.{extend_hides_expired}
use jit_access_broker.Store.Refusals.{Closed, Unrenewed, extend_refused}
use jit_access_broker.Tests.World.{World, issuer, background, minutes, two_tokens}

-- Token `a` is extended to minute 71; in minute 40, nine minutes after its expiry, `b` is live.
extend_hides_expired_example :
    get
      (revoke_expired
        (extend two_tokens (codes "a") (minutes 5) (minutes 5) tt).1
        background
        (minutes 40)
        tt).0
      (codes "b")
    ≡ some (two_tokens.memory 1)
unfolding new add lookup insert str_eq find_live push extend extend_by_ttl move_expiry reissue
    max_extensions_for_ceiling store_value
extend_hides_expired_example =
    extend_hides_expired two_tokens (codes "a") (codes "b") 0 1 (1 ∷ []) (minutes 5) (minutes 5)
      (minutes 40) tt tt (extension_of 0 (minutes 71) (minutes 241) (pos 3)) background refl refl
      refl (λ e. absurd (omega arith)) refl refl (omega arith)

-- An issuer that mints nothing.
abbrev broken : TokenIssuer World
broken = record issuer { issue = λ user resource ttl w. (err (codes "down"), w) }

abbrev unlucky : Store World
unlucky = record two_tokens { issuer = some broken }

extend_refused_example :
    let s' = (extend unlucky (codes "a") (minutes 5) (minutes 5) tt).1 in
    ((find_live unlucky (codes "a") ≡ none) × (s' ≡ unlucky))
    ⊎ ((a : ℕ) × (find_live unlucky (codes "a") ≡ some a)
        × (Closed unlucky a (minutes 5) s' ⊎ Unrenewed unlucky a tt (refusal (codes "down")) s'))
unfolding new add lookup insert str_eq find_live extend extend_by_ttl reissue
    max_extensions_for_ceiling move_expiry
extend_refused_example =
    extend_refused unlucky (codes "a") (minutes 5) (minutes 5) tt (refusal (codes "down")) refl refl
