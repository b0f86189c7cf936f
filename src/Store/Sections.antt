-- ===== src/Store/Sections.antt =====
-- The critical sections of store/store.go: what RevokeNow, a round of revokeExpired and Extend do
-- between Lock and Unlock. What they do outside the lock is in Store, Worker and Extension.
use jit_access_broker.Prelude.{ℕ, Option, none, some, [], ◌∷◌, ltb, leb, if◌then◌else◌, Text}
use jit_access_broker.Models.{Instant, add_time}
use jit_access_broker.Store.{Store, find_live, mark_revoked}
use jit_access_broker.Store.Extension.{ceiling, move_expiry, max_extensions_for_ceiling}
use jit_access_broker.Store.Worker.{popped}

-- What Extend's first section leaves to do: nothing, since there is no live token or since it
-- panicked; the revocation of the token at an address, or its renewal at the provider.
pub data Begun : Type 0 where
  gone : Begun
  panicked : Begun
  closes : ℕ → Begun
  renews : ℕ → Begun

module _ {W : Type 0} where
  -- A live token under the id is marked as revoked, and its address handed on.
  unfoldable pub claim : Store W → Text → Option ℕ × Store W
  unfolding find_live mark_revoked
  claim s id = elim (find_live s id) [ none ↦ (none, s) | some a ↦ (some a, mark_revoked s a) ]

  -- A round of revokeExpired; `none` where the loop returns.
  unfoldable pub claim_due : Store W → Instant → Option (Option ℕ × Store W)
  unfolding claim
  claim_due s now = elim s.pq [
    | [] ↦ none
    | top ∷ others ↦
        if ltb now (s.memory top).expires_at
        then none
        else some (claim (popped s) (s.memory top).id)
  ]

  -- The first section of Extend, up to the Unlock of each branch.
  unfoldable pub begin_extend : Store W → Text → Instant → Instant → Begun × Store W
  unfolding find_live mark_revoked move_expiry max_extensions_for_ceiling
  begin_extend s id now later = elim (find_live s id) [
    | none ↦ (gone, s)
    | some a ↦
        let top = ceiling s a in
        let expires = add_time (s.memory a).expires_at s.ttl in
        if ltb expires top
        then elim (max_extensions_for_ceiling (move_expiry s a expires) a later) [
          | none ↦ (panicked, move_expiry s a expires)
          | some left ↦ (renews a, move_expiry s a expires)
        ]
        else if leb top now
        then (closes a, mark_revoked s a)
        else (renews a, move_expiry s a top)
  ]
