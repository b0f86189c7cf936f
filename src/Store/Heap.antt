-- ===== src/Store/Heap.antt =====
-- tokenHeap of store/store.go, and the parts of Go's container/heap that the store calls on it.
-- An entry is a pointer to a token, and `key` reads the token's ExpiresAt through the pointer, so
-- the order depends on the memory at the time of the call. Every index that the sift loops use is
-- in bounds.
pub mod Order
pub mod Sift
pub mod Laws
use jit_access_broker.Prelude.{
  ℕ, zero, suc, ◌+◌, ◌-◌, ◌*◌, ◌/◌, Bool, ◌||◌, ◌&&◌, not, List, [], ◌∷◌, ◌++◌, length, get_or, set,
  take, ltb, leb, ◌==◌, if◌then◌else◌,
}
use jit_access_broker.Models.{Instant}

abbrev pub at : List ℕ → ℕ → ℕ
at h i = get_or h i 0

abbrev pub parent : ℕ → ℕ
parent j = (j - 1) / 2

-- Swap
unfoldable pub swap : List ℕ → ℕ → ℕ → List ℕ
swap h i j = set (set h i (at h j)) j (at h i)

module _ (key : ℕ → Instant) where
  -- Less
  abbrev pub less : List ℕ → ℕ → ℕ → Bool
  less h i j = ltb (key (at h i)) (key (at h j))

  -- up of container/heap; `i == j` holds only at the root.
  unfoldable pub up_loop : ℕ → List ℕ → ℕ → List ℕ
  up_loop zero h j = h
  up_loop (suc fuel) h j =
      let i = parent j in
      let rest = up_loop fuel (swap h i j) i in if (i == j) || not (less h j i) then h else rest

  -- The lesser of the children at `j1` and `j1 + 1`, where the second is below `n`.
  abbrev pub lesser_child : List ℕ → ℕ → ℕ → ℕ
  lesser_child h j1 n = if ltb (j1 + 1) n && less h (j1 + 1) j1 then j1 + 1 else j1

  -- down of container/heap, on the first `n` entries.
  pub down_loop : ℕ → List ℕ → ℕ → ℕ → List ℕ
  down_loop zero h i n = h
  down_loop (suc fuel) h i n =
      let j = lesser_child h (2 * i + 1) n in
      let rest = down_loop fuel (swap h i j) j n in
      if leb n (2 * i + 1) then h else if not (less h j i) then h else rest

  -- heap.Push. The loop moves to the parent each time, so index + 1 rounds are enough.
  unfoldable pub push : List ℕ → ℕ → List ℕ
  unfolding up_loop
  push h x = up_loop (suc (length h)) (h ++ x ∷ []) (length h)

  -- heap.Pop on a heap that is not empty, less the popped entry, which the store does not use. The
  -- loop moves to a child each time, so as many rounds as entries are enough.
  pub pop : List ℕ → List ℕ
  unfolding down_loop
  pop h = let n = length h - 1 in take n (down_loop (suc n) (swap h 0 n) 0 n)
