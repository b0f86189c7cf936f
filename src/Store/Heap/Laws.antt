-- ===== src/Store/Heap/Laws.antt =====
-- heap.Push and heap.Pop of container/heap on tokenHeap: the order and the entries afterwards.
use mathlib.Core.List.Perm
use mathlib.Core.List.{Perm}
use jit_access_broker.Prelude.{
  ℕ, suc, ◌-◌, ◌<◌, ◌≡◌, sym, ap, List, [], ◌∷◌, ◌++◌, length, take, arith, length-append,
  get_or-append, get_or-take, length-take, ◌∙◌, subst,
}
use jit_access_broker.Models.{Instant}
use jit_access_broker.Store.Heap.{at, parent, swap, push, pop, down_loop}
use jit_access_broker.Store.Heap.Order.{
  IsHeap, OrderedTo, length-swap, at-swap, swap-perm, length-perm, concat-perm, take-concat,
}
use jit_access_broker.Store.Heap.Sift.{
  up_loop-IsHeap, up_loop-perm, down_loop-OrderedTo, down_loop-kept,
}

module _ (key : ℕ → Instant) where
  -- heap.Push keeps the heap order: where no entry is due before its parent, the same holds after an
  -- entry is pushed.
  pub push-IsHeap : (h : List ℕ) (x : ℕ) → IsHeap key h → IsHeap key (push key h x)
  unfolding push
  push-IsHeap h x o =
      let size = length-append h (x ∷ []) in
      let old = λ (c : ℕ) (b : c < length h). get_or-append h (x ∷ []) c 0 b in
      up_loop-IsHeap key (suc (length h)) (h ++ x ∷ []) (length h) (omega arith) (record {
        inside = omega arith;
        others =
            λ c c0 cb ne. ground (arith, o c, old c (omega arith), old (parent c) (omega arith));
        below = λ c j0 c0 cb e. absurd (omega arith);
      })

  pub push-perm : (h : List ℕ) (x : ℕ) → Perm (push key h x) (x ∷ h)
  unfolding push
  push-perm h x =
      Perm.trans
        (up_loop-perm key (suc (length h)) (h ++ x ∷ []) (length h)
          (omega (arith, length-append h (x ∷ []))))
        (concat-perm h x)

  module _ (h : List ℕ) (n : ℕ) (size : length h ≡ suc n) where
    abbrev sunk : List ℕ
    sunk = down_loop key (suc n) (swap h 0 n) 0 n

    length-sunk : length sunk ≡ suc n
    length-sunk =
        length-perm
          (down_loop-kept key (suc n) (swap h 0 n) 0 n (omega (arith, length-swap h 0 n))).0
        ∙ length-swap h 0 n
        ∙ size

    take-sunk-IsHeap : IsHeap key h → IsHeap key (take n sunk)
    take-sunk-IsHeap o c c0 cb =
        let swapped = λ (c : ℕ). at-swap h 0 n c (omega arith) (omega arith) in
        let short = length-take n sunk (omega (arith, length-sunk)) in
        let ordered : OrderedTo key n sunk =
          down_loop-OrderedTo key (suc n) (swap h 0 n) 0 n (omega arith)
            (omega (arith, length-swap h 0 n))
            (record {
              others = λ c c0 cb ne. ground (arith, swapped c, swapped (parent c), o c);
              above = λ c i0 c0 cb e. absurd (omega arith);
            }) in
        ground (
          arith,
          ordered c,
          get_or-take n sunk c 0 (omega arith),
          get_or-take n sunk (parent c) 0 (omega arith),
        )

    take-sunk-perm : Perm (at h 0 ∷ take n sunk) h
    take-sunk-perm =
        let kept = down_loop-kept key (suc n) (swap h 0 n) 0 n (omega (arith, length-swap h 0 n)) in
        let last : at sunk n ≡ at h 0 =
          kept.1 n (omega arith) ∙ ground (arith, at-swap h 0 n n (omega arith) (omega arith)) in
        let whole : take n sunk ++ at h 0 ∷ [] ≡ sunk =
          ap (λ x. take n sunk ++ x ∷ []) (sym last) ∙ take-concat n sunk length-sunk in
        Perm.trans (Perm.symm (concat-perm (take n sunk) (at h 0))) (
          subst (λ l. Perm l h) (sym whole)
            (Perm.trans kept.0 (swap-perm h 0 n (omega arith) (omega arith))))

  -- heap.Pop on a heap that is not empty keeps the heap order.
  pub pop-IsHeap : (h : List ℕ) → 0 < length h → IsHeap key h → IsHeap key (pop key h)
  unfolding pop
  pop-IsHeap h b o = take-sunk-IsHeap h (length h - 1) (omega arith) o

  -- heap.Pop on a heap that is not empty takes out the root and no other entry: the root and the
  -- entries that are left are the entries before, in some order.
  pub pop-perm : (h : List ℕ) → 0 < length h → Perm (at h 0 ∷ pop key h) h
  unfolding pop
  pop-perm h b = take-sunk-perm h (length h - 1) (omega arith)
