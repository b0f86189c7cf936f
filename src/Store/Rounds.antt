-- ===== src/Store/Rounds.antt =====
-- The loop of revokeExpired ends by itself: the rounds that the model gives it are enough.
use jit_access_broker.Prelude.{
  ℕ, zero, suc, ◌≤◌, ◌≡◌, refl, ap, List, [], ◌∷◌, length, arith, Bool-cases, inl, inr, true, ltb,
  ◌⊎◌, Text, subst,
}
use jit_access_broker.Models.{Instant}
use jit_access_broker.Providers.{Context}
use jit_access_broker.Store.{Store, expiry}
use jit_access_broker.Store.Worker.{expire_one, popped, expire_loop, revoke_expired}
use jit_access_broker.Store.Heap.Order.{length-perm}
use jit_access_broker.Store.Heap.Laws.{pop-perm}
use jit_access_broker.Store.Evolution.{expire_one-Evolves}

module _ {W : Type 0} where
  -- Go's loop has nothing left to do: the heap is empty or its top is not due.
  abbrev pub IsDone : Store W → Instant → Type 0
  IsDone s now =
      (s.pq ≡ [])
      ⊎ ((top : ℕ) × (others : List ℕ) × (s.pq ≡ top ∷ others)
          × (ltb now (expiry s.memory top) ≡ true))

  -- A round takes one entry off the heap.
  shorter :
      (s : Store W) (ctx : Context W) (w : W) (id : Text) (top : ℕ) (others : List ℕ)
      → s.pq ≡ top ∷ others
      → length (expire_one (popped s) ctx id w).0.pq ≡ length others
  shorter s ctx w id top others e =
      let gone = length-perm (pop-perm (expiry s.memory) s.pq (rw e (omega arith))) in
      let kept = (expire_one-Evolves (popped s) ctx id w).same_pq in
      omega (arith, gone, ap length kept, ap length e)

  expire_loop-IsDone :
      (rounds : ℕ) (s : Store W) (ctx : Context W) (now : Instant) (w : W) (h : List ℕ)
      → s.pq ≡ h
      → length h ≤ rounds
      → IsDone (expire_loop rounds s ctx now w).0 now
  unfolding expire_loop
  expire_loop-IsDone zero s ctx now w [] e enough = inl e
  expire_loop-IsDone zero s ctx now w (top ∷ others) e enough = absurd (omega arith)
  expire_loop-IsDone (suc rounds) s ctx now w [] e enough = inl (ground arith)
  expire_loop-IsDone (suc rounds) s ctx now w (top ∷ others) e enough =
      elim (Bool-cases (ltb now (expiry s.memory top))) [
        | inl later ↦ inr (top, others, ground arith, ground arith)
        | inr over ↦
            let (s', w') = expire_one (popped s) ctx (s.memory top).id w in
            let fewer = shorter s ctx w (s.memory top).id top others e in
            let done = expire_loop-IsDone rounds s' ctx now w' s'.pq refl (omega arith) in
            subst (λ t. IsDone t now) {x = (expire_loop rounds s' ctx now w').0}
              {y = (expire_loop (suc rounds) s ctx now w).0} (ground arith) done
      ]

  expire_loop_stable :
      (rounds k : ℕ) (s : Store W) (ctx : Context W) (now : Instant) (w : W) (h : List ℕ)
      → s.pq ≡ h
      → length h ≤ rounds
      → length h ≤ k
      → expire_loop k s ctx now w ≡ expire_loop rounds s ctx now w
  unfolding expire_loop
  expire_loop_stable zero zero s ctx now w h e b c = refl
  expire_loop_stable zero (suc k) s ctx now w [] e b c = ground arith
  expire_loop_stable (suc rounds) zero s ctx now w [] e b c = ground arith
  expire_loop_stable (suc rounds) (suc k) s ctx now w [] e b c = ground arith
  expire_loop_stable zero k s ctx now w (top ∷ others) e b c = absurd (omega arith)
  expire_loop_stable rounds zero s ctx now w (top ∷ others) e b c = absurd (omega arith)
  expire_loop_stable (suc rounds) (suc k) s ctx now w (top ∷ others) e b c =
      let (s', w') = expire_one (popped s) ctx (s.memory top).id w in
      let fewer = shorter s ctx w (s.memory top).id top others e in
      let rest = expire_loop_stable rounds k s' ctx now w' s'.pq refl (omega arith) (omega arith) in
      ground arith

  -- The loop of revokeExpired ends: after as many rounds as the heap has entries, it has reached its
  -- own end, an empty heap or a top that is not due, and no larger number of rounds answers anything
  -- else.
  pub revoke_expired-IsDone :
      (s : Store W) (ctx : Context W) (now : Instant) (w : W)
      → IsDone (revoke_expired s ctx now w).0 now
        × ((rounds : ℕ)
            → length s.pq ≤ rounds
            → expire_loop rounds s ctx now w ≡ revoke_expired s ctx now w)
  unfolding revoke_expired
  revoke_expired-IsDone s ctx now w = (
    expire_loop-IsDone (length s.pq) s ctx now w s.pq refl (omega arith),
    λ rounds enough.
        expire_loop_stable (length s.pq) rounds s ctx now w s.pq refl (omega arith) enough,
  )
