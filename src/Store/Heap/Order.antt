-- ===== src/Store/Heap/Order.antt =====
-- The heap order of tokenHeap, and how a swap of two entries acts on it.
use mathlib.Core.List.Perm
use mathlib.Core.List.{
  Perm, Permᴰ, Mem, mem-cons, not-mem-nil, mem-cons_self, mem-cons_of_mem, perm_middle, append-nil,
}
use mathlib.Core.Logic.{∥∥₁_elim}
use mathlib.Core.Logic.Or
use native.Mathlib.Nat.{ℕ_set}
use native.Mathlib.Bridge.{le_prop}
use jit_access_broker.Prelude.{
  ℕ, zero, suc, ◌≤◌, ◌<◌, ◌≡◌, refl, List, [], ◌∷◌, length, set, arith, take, ap, ◌∙◌, ◌++◌,
  length-set, get_or-set, ◌==◌, if◌then◌else◌,
}
use jit_access_broker.Models.{Instant}
use jit_access_broker.Store.Heap.{at, parent, swap}

-- No entry among the first `n` expires before its parent.
abbrev pub OrderedTo : (ℕ → Instant) → ℕ → List ℕ → Type 0
OrderedTo key n h = (c : ℕ) → 0 < c → c < n → key (at h (parent c)) ≤ key (at h c)

abbrev pub IsHeap : (ℕ → Instant) → List ℕ → Type 0
IsHeap key h = OrderedTo key (length h) h

pub length-swap : (h : List ℕ) (i j : ℕ) → length (swap h i j) ≡ length h
unfolding swap
length-swap h i j = simp length-set

pub at-swap :
    (h : List ℕ) (i j c : ℕ)
    → i < length h
    → j < length h
    → at (swap h i j) c ≡ (if j == c then at h i else if i == c then at h j else at h c)
unfolding swap
at-swap h i j c hi hj = rw (
  get_or-set (set h i (at h j)) j c (at h i) 0 (rw length-set hj),
  get_or-set h i c (at h j) 0 hi,
)

-- A write trades the entry that stood there for the new one.
set-perm : (h : List ℕ) (i v : ℕ) → i < length h → Perm (at h i ∷ set h i v) (v ∷ h)
set-perm [] i v b = absurd (omega arith)
set-perm (x ∷ h) zero v b = Perm.swap v x h
set-perm (x ∷ h) (suc i) v b =
    Perm.trans (Perm.swap x (at h i) (set h i v))
      (Perm.trans (Perm.cons x (set-perm h i v (omega arith))) (Perm.swap v x h))

pub swap-perm : (h : List ℕ) (i j : ℕ) → i < length h → j < length h → Perm (swap h i j) h
unfolding swap
swap-perm h i j hi hj =
    let h' = set h i (at h j) in
    let same : at h' j ≡ at h j = ground (arith, get_or-set h i j (at h j) 0) in
    Perm.cons_inv (
      Perm.trans (rw same at (set-perm h' j (at h i) (rw length-set hj)))
        (set-perm h i (at h j) hi))

least_within :
    (key : ℕ → Instant) (fuel : ℕ) (h : List ℕ) (i : ℕ)
    → IsHeap key h
    → i < fuel
    → i < length h
    → key (at h 0) ≤ key (at h i)
least_within key zero h i o f b = absurd (omega arith)
least_within key (suc fuel) h i o f b = ground (arith, o i, least_within key fuel h (parent i) o)

-- The root of a heap expires first.
pub root_least :
    (key : ℕ → Instant) (h : List ℕ) (i : ℕ)
    → IsHeap key h
    → i < length h
    → key (at h 0) ≤ key (at h i)
root_least key h i o b = least_within key (suc i) h i o (omega arith) b

Permᴰ-length : {g h : List ℕ} → Permᴰ g h → length g ≡ length h
Permᴰ-length Permᴰ.nil = refl
Permᴰ-length (Permᴰ.cons x p) = ap suc (Permᴰ-length p)
Permᴰ-length (Permᴰ.swap x y) = refl
Permᴰ-length (Permᴰ.trans p q) = Permᴰ-length p ∙ Permᴰ-length q

pub length-perm : {g h : List ℕ} → Perm g h → length g ≡ length h
length-perm p = ∥∥₁_elim p (ℕ_set _ _) Permᴰ-length

pub concat-perm : (h : List ℕ) (x : ℕ) → Perm (h ++ x ∷ []) (x ∷ h)
concat-perm h x = rw (append-nil h) at (perm_middle {a = x} h [])

pub take-concat : (n : ℕ) (h : List ℕ) → length h ≡ suc n → take n h ++ at h n ∷ [] ≡ h
take-concat zero (x ∷ []) b = refl
take-concat (suc n) (x ∷ h) b = ap (◌∷◌ x) (take-concat n h (omega arith))
take-concat n h b = absurd (omega arith)

pub at-mem : (h : List ℕ) (c : ℕ) → c < length h → Mem (at h c) h
at-mem [] c b = absurd (omega arith)
at-mem (x ∷ h) zero b = mem-cons_self
at-mem (x ∷ h) (suc c) b = mem-cons_of_mem x (at-mem h c (omega arith))

-- The order depends on the expiries of the entries alone.
pub IsHeap-congr :
    (key key' : ℕ → Instant) (h : List ℕ)
    → ((a : ℕ) → Mem a h → key' a ≡ key a)
    → IsHeap key h
    → IsHeap key' h
IsHeap-congr key key' h same o c c0 cb = ground (
  arith,
  o c,
  same (at h c) (at-mem h c cb),
  same (at h (parent c)) (at-mem h (parent c) (omega arith)),
)

all_entries :
    (key : ℕ → Instant) (low a : ℕ) (h : List ℕ)
    → ((c : ℕ) → c < length h → low ≤ key (at h c))
    → Mem a h
    → low ≤ key a
all_entries key low a [] each m = absurd (not-mem-nil m)
all_entries key low a (x ∷ h) each m =
    Or.elim le_prop (mem-cons.0 m) (λ e. rw e (each 0 (omega arith)))
      (all_entries key low a h (λ c b. each (suc c) (omega arith)))

-- No entry of a heap expires before its first.
pub root_least_of_mem :
    (key : ℕ → Instant) (h : List ℕ) (a : ℕ) → IsHeap key h → Mem a h → key (at h 0) ≤ key a
root_least_of_mem key h a o m = all_entries key (key (at h 0)) a h (λ c b. root_least key h c o b) m
