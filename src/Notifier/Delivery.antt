-- ===== src/Notifier/Delivery.antt =====
-- One broken sink does not keep a warning from the others.
use jit_access_broker.Prelude.{
  ◌≡◌, refl, ℤ, Text, Option, none, some, List, [], ◌∷◌, ◌++◌, arith, inl, inr, Option-cases, ◌↔◌,
}
use mathlib.Core.List.{append_assoc, append-nil}
use jit_access_broker.Models.{IssuedToken}
use jit_access_broker.Notifier.{Notifier, joined, notify_each, multi_notifier}

abbrev message : Option Text → List Text
message none = []
message (some e) = e ∷ []

joined-none : (print : List Text → Text) (l : List Text) → (joined print l ≡ none) ↔ (l ≡ [])
joined-none print [] = ground arith
joined-none print (e ∷ l) = ground arith

module _ {W : Type 0} (t : IssuedToken) (left : ℤ) where
  -- The world after every child that is not nil was called, in order.
  abbrev pub told : List (Option (Notifier W)) → W → W
  told [] w = w
  told (none ∷ rest) w = told rest w
  told (some c ∷ rest) w = told rest (c.notify_expiring t left w).1

  -- The errors of those calls, in order.
  abbrev pub complaints : List (Option (Notifier W)) → W → List Text
  complaints [] w = []
  complaints (none ∷ rest) w = complaints rest w
  complaints (some c ∷ rest) w =
      let (e, w') = c.notify_expiring t left w in message e ++ complaints rest w'

  notify_each_lem :
      (children : List (Option (Notifier W))) (errs : List Text) (w : W)
      → notify_each children t left errs w ≡ (errs ++ complaints children w, told children w)
  unfolding notify_each
  notify_each_lem [] errs w = rw (append-nil) refl
  notify_each_lem (none ∷ rest) errs w = notify_each_lem rest errs w
  notify_each_lem (some c ∷ rest) errs w =
      let (e, w') = c.notify_expiring t left w in
      elim (Option-cases e) [
        | inl q ↦ ground (arith, notify_each_lem rest errs w')
        | inr (m, q) ↦ ground (
          arith,
          notify_each_lem rest (errs ++ m ∷ []) w',
          append_assoc errs (m ∷ []) (complaints rest w'),
        )
      ]

  -- MultiNotifier calls every child that is not nil, in order and whatever the ones before answered,
  -- and returns an error made of all their errors, in order: nil just when none of them failed.
  pub multi_notifier_lem :
      (print : List Text → Text) (children : List (Option (Notifier W))) (w : W)
      → ((multi_notifier print children).notify_expiring t left w
          ≡ (joined print (complaints children w), told children w))
        × (((multi_notifier print children).notify_expiring t left w).0 ≡ none
            ↔ complaints children w ≡ [])
  unfolding multi_notifier
  multi_notifier_lem print children w =
      let same = notify_each_lem children [] w in
      let silent = joined-none print (complaints children w) in
      (
        ground (arith, same),
        (λ h. silent.0 (ground (arith, same)), λ h. ground (arith, same, silent.1 h)),
      )
