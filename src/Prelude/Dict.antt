-- ===== src/Prelude/Dict.antt =====
-- Go's `map[string]V` as an association list. A `range` over a map visits the entries in no
-- promised order; the model visits them in the list's.
use mathlib.Core.Path.{◌≡◌, refl, ap, ap₂}
use mathlib.Core.Logic.{inl, inr}
use mathlib.Core.Option.{Option, none, some}
use mathlib.Core.List.{List, [], ◌∷◌}
use native.Mathlib.Omega.{arith}
use jit_access_broker.Prelude.Tests.{if◌then◌else◌, Bool-cases}
use jit_access_broker.Prelude.Lists.{In}
use jit_access_broker.Prelude.Strings.{Text, str_eq, str_eq_iff}

module _ {ℓ} {V : Type ℓ} where
  -- v, ok := m[k]
  unfoldable pub lookup : Text → List (Text × V) → Option V
  lookup k [] = none
  lookup k ((j, v) ∷ m) = if str_eq j k then some v else lookup k m

  -- m[k] = v
  unfoldable pub insert : Text → V → List (Text × V) → List (Text × V)
  insert k v [] = (k, v) ∷ []
  insert k v ((j, w) ∷ m) = if str_eq j k then (k, v) ∷ m else (j, w) ∷ insert k v m

  pub lookup-insert :
      (k j : Text) (v : V) (m : List (Text × V))
      → lookup j (insert k v m) ≡ (if str_eq k j then some v else lookup j m)
  unfolding lookup insert
  lookup-insert k j v [] = refl
  lookup-insert k j v ((i, w) ∷ m) =
      ground (arith, str_eq_iff k j, str_eq_iff i k, str_eq_iff i j, lookup-insert k j v m)

module _ {V : Type 0} where
  -- A key has one entry.
  abbrev pub IsDict : List (Text × V) → Type 0
  IsDict [] = Unit {0}
  IsDict ((k, v) ∷ m) = (lookup k m ≡ none) × IsDict m

  pub lookup-In : (k : Text) (v : V) (m : List (Text × V)) → lookup k m ≡ some v → In (k, v) m
  unfolding lookup
  lookup-In k v [] h = absurd (ground arith)
  lookup-In k v ((j, w) ∷ m) h = elim (Bool-cases (str_eq j k)) [
    | inl q ↦ inl (ap₂ (λ x y. (x, y)) ((str_eq_iff j k).0 q) (ground arith))
    | inr q ↦ inr (lookup-In k v m (ground arith))
  ]

  pub In-lookup :
      (k : Text) (v : V) (m : List (Text × V)) → IsDict m → In (k, v) m → lookup k m ≡ some v
  unfolding lookup
  In-lookup k v [] d h = absurd h
  In-lookup k v ((j, w) ∷ m) (d0, d) (inl e) =
      ground (arith, ap (λ x. x.0) e, ap (λ x. x.1) e, str_eq_iff j k)
  In-lookup k v ((j, w) ∷ m) (d0, d) (inr h) = ground (arith, str_eq_iff j k, In-lookup k v m d h)

  pub insert-IsDict : (k : Text) (v : V) (m : List (Text × V)) → IsDict m → IsDict (insert k v m)
  unfolding lookup insert
  insert-IsDict k v [] d = (refl, d)
  insert-IsDict k v ((j, w) ∷ m) (d0, d) = elim (Bool-cases (str_eq j k)) [
    | inl q ↦ rw q (ground (arith, str_eq_iff j k), d)
    | inr q ↦ rw q (
      ground (arith, lookup-insert k j v m, str_eq_iff j k, str_eq_iff k j),
      insert-IsDict k v m d,
    )
  ]
