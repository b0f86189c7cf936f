-- ===== src/Notifier.antt =====
-- notifier/notifier.go: the interface, the fan-out and NoopNotifier. The sinks are in Notifier.Sinks.
pub mod Sinks
pub mod Delivery
use jit_access_broker.Prelude.{ℤ, Text, Option, none, some, List, [], ◌∷◌, ◌++◌}
use jit_access_broker.Models.{IssuedToken}

-- Notifier.NotifyExpiring: the message of its error, if it fails.
pub record Notifier (W : Type 0) : Type 0 where
  pub notify_expiring : IssuedToken → ℤ → W → Option Text × W

abbrev pub joined : (List Text → Text) → List Text → Option Text
joined print [] = none
joined print (e ∷ errs) = some (print (e ∷ errs))

module _ {W : Type 0} where
  -- The loop of MultiNotifier.NotifyExpiring: a nil child is skipped, and an error is collected.
  unfoldable pub notify_each :
      List (Option (Notifier W)) → IssuedToken → ℤ → List Text → W → List Text × W
  notify_each [] t left errs w = (errs, w)
  notify_each (none ∷ rest) t left errs w = notify_each rest t left errs w
  notify_each (some c ∷ rest) t left errs w =
      let (e, w') = c.notify_expiring t left w in
      notify_each rest t left (elim e [ none ↦ errs | some m ↦ errs ++ m ∷ [] ]) w'

  -- MultiNotifier. `print` is the formatting of the collected errors by `%v`.
  unfoldable pub multi_notifier : (List Text → Text) → List (Option (Notifier W)) → Notifier W
  unfolding notify_each
  multi_notifier print children = record {
    notify_expiring =
        λ t left w. let (errs, w') = notify_each children t left [] w in (joined print errs, w');
  }

  -- NoopNotifier
  abbrev pub noop_notifier : Notifier W
  noop_notifier = record { notify_expiring = λ t left w. (none, w) }
