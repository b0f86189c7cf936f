-- ===== src/Store/Heap/Sift.antt =====
-- The sift loops of container/heap and the heap order.
use mathlib.Core.List.Perm
use mathlib.Core.List.{Perm}
use mathlib.Core.Logic.{◌≢◌}
use jit_access_broker.Prelude.{
  ℕ, zero, suc, ◌+◌, ◌*◌, ◌-◌, ◌≤◌, ◌<◌, ◌≡◌, refl, List, length, arith, leb, Bool-cases, inl, inr,
  ◌⊎◌, ◌==◌, ◌||◌, not, ◌∙◌,
}
use jit_access_broker.Models.{Instant}
use jit_access_broker.Store.Heap.{at, parent, swap, less, up_loop, lesser_child, down_loop}
use jit_access_broker.Store.Heap.Order.{IsHeap, OrderedTo, length-swap, at-swap, swap-perm}

module _ (key : ℕ → Instant) where
  -- Only the edge into `j` may be out of order, and what hangs below `j` is past the parent of `j`.
  pub record Rising (h : List ℕ) (j : ℕ) : Type 0 where
    pub inside : j < length h
    pub others : (c : ℕ) → 0 < c → c < length h → c ≢ j → key (at h (parent c)) ≤ key (at h c)
    pub below :
        (c : ℕ) → 0 < j → 0 < c → c < length h → parent c ≡ j → key (at h (parent j)) ≤ key (at h c)

  swap-Rising :
      (h : List ℕ) (j : ℕ)
      → Rising h j
      → 0 < j
      → key (at h j) < key (at h (parent j))
      → Rising (swap h (parent j) j) (parent j)
  swap-Rising h j v p lt =
      let size = length-swap h (parent j) j in
      let reads = λ (c : ℕ). at-swap h (parent j) j c (omega arith) v.inside in
      record {
        inside = omega arith;
        others = λ c c0 cb ne. ground (arith, reads c, reads (parent c), v.others c, v.below c);
        below = λ c p0 c0 cb e.
            ground (arith, reads c, reads (parent (parent j)), v.others c, v.others (parent j));
      }

  pub up_loop-IsHeap :
      (fuel : ℕ) (h : List ℕ) (j : ℕ) → j < fuel → Rising h j → IsHeap key (up_loop key fuel h j)
  unfolding up_loop
  up_loop-IsHeap zero h j f v = absurd (omega arith)
  up_loop-IsHeap (suc fuel) h j f v =
      elim (Bool-cases ((parent j == j) || not (less key h j (parent j)))) [
        | inl stop ↦ rw stop (λ c c0 cb. ground (arith, v.others c))
        | inr go ↦ rw go (
            up_loop-IsHeap fuel (swap h (parent j) j) (parent j) (ground arith)
              (swap-Rising h j v (ground arith) (ground arith)))
      ]

  pub up_loop-perm : (fuel : ℕ) (h : List ℕ) (j : ℕ) → j < length h → Perm (up_loop key fuel h j) h
  unfolding up_loop
  up_loop-perm zero h j b = Perm.rfl
  up_loop-perm (suc fuel) h j b =
      elim (Bool-cases ((parent j == j) || not (less key h j (parent j)))) [
        | inl stop ↦ rw stop Perm.rfl
        | inr go ↦ rw go (
            Perm.trans
              (up_loop-perm fuel (swap h (parent j) j) (parent j)
                (omega (arith, length-swap h (parent j) j)))
              (swap-perm h (parent j) j (omega arith) b))
      ]

  -- Among the first `n` entries only the edges out of `i` may be out of order.
  pub record Sinking (h : List ℕ) (i n : ℕ) : Type 0 where
    pub others : (c : ℕ) → 0 < c → c < n → parent c ≢ i → key (at h (parent c)) ≤ key (at h c)
    pub above :
        (c : ℕ) → 0 < i → 0 < c → c < n → parent c ≡ i → key (at h (parent i)) ≤ key (at h c)

  lesser_child-least :
      (h : List ℕ) (i n c : ℕ)
      → 0 < c
      → c < n
      → parent c ≡ i
      → key (at h (lesser_child key h (2 * i + 1) n)) ≤ key (at h c)
  lesser_child-least h i n c c0 cb e =
      let side : (c ≡ 2 * i + 1) ⊎ (c ≡ 2 * i + 1 + 1) = omega arith in ground (arith, side)

  lesser_child-child :
      (h : List ℕ) (i n : ℕ)
      → 2 * i + 1 < n
      → (lesser_child key h (2 * i + 1) n < n)
        × (parent (lesser_child key h (2 * i + 1) n) ≡ i)
        × (0 < lesser_child key h (2 * i + 1) n)
        × (i < lesser_child key h (2 * i + 1) n)
  lesser_child-child h i n b = ground arith

  swap-Sinking :
      (h : List ℕ) (i j n : ℕ)
      → Sinking h i n
      → n ≤ length h
      → j < n
      → 0 < j
      → parent j ≡ i
      → ((c : ℕ) → 0 < c → c < n → parent c ≡ i → key (at h j) ≤ key (at h c))
      → key (at h j) < key (at h i)
      → Sinking (swap h i j) j n
  swap-Sinking h i j n v size jb j0 e least lt =
      let reads = λ (c : ℕ). at-swap h i j c (omega arith) (omega arith) in
      record {
        others =
            λ c c0 cb ne. ground (arith, reads c, reads (parent c), v.others c, v.above j, least c);
        above = λ c p0 c0 cb q. ground (arith, reads c, reads (parent j), v.others c);
      }

  pub down_loop-OrderedTo :
      (fuel : ℕ) (h : List ℕ) (i n : ℕ)
      → n - i < fuel
      → n ≤ length h
      → Sinking h i n
      → OrderedTo key n (down_loop key fuel h i n)
  unfolding down_loop
  down_loop-OrderedTo zero h i n f size v = absurd (omega arith)
  down_loop-OrderedTo (suc fuel) h i n f size v = elim (Bool-cases (leb n (2 * i + 1))) [
    | inl leaf ↦ rw leaf (λ c c0 cb. ground (arith, v.others c))
    | inr inner ↦
        let j = lesser_child key h (2 * i + 1) n in
        let (jb, je, j0, ij) = lesser_child-child h i n (ground arith) in
        rw inner (elim (Bool-cases (not (less key h j i))) [
          | inl settled ↦
              rw settled (λ c c0 cb. ground (arith, v.others c, lesser_child-least h i n c c0 cb))
          | inr go ↦ rw go (
              down_loop-OrderedTo fuel (swap h i j) j n (omega arith)
                (omega (arith, length-swap h i j))
                (swap-Sinking h i j n v size jb j0 je (lesser_child-least h i n) (ground arith)))
        ])
  ]

  -- Sinking rearranges the entries, and leaves those from `n` on where they are.
  pub down_loop-kept :
      (fuel : ℕ) (h : List ℕ) (i n : ℕ)
      → n ≤ length h
      → Perm (down_loop key fuel h i n) h
        × ((c : ℕ) → n ≤ c → at (down_loop key fuel h i n) c ≡ at h c)
  unfolding down_loop
  down_loop-kept zero h i n size = (Perm.rfl, λ c b. refl)
  down_loop-kept (suc fuel) h i n size = elim (Bool-cases (leb n (2 * i + 1))) [
    | inl leaf ↦ rw leaf (Perm.rfl, λ c b. refl)
    | inr inner ↦
        let j = lesser_child key h (2 * i + 1) n in
        let (jb, je, j0, ij) = lesser_child-child h i n (ground arith) in
        rw inner (elim (Bool-cases (not (less key h j i))) [
          | inl settled ↦ rw settled (Perm.rfl, λ c b. refl)
          | inr go ↦
              let rest = down_loop-kept fuel (swap h i j) j n (omega (arith, length-swap h i j)) in
              rw go (
                Perm.trans rest.0 (swap-perm h i j (omega arith) (omega arith)),
                λ c b. rest.1 c b ∙ ground (arith, at-swap h i j c (omega arith) (omega arith)),
              )
        ])
  ]
