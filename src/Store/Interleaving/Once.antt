-- ===== src/Store/Interleaving/Once.antt =====
-- The calls of Revoke, made and to come, against the marks in the store, section by section.
use jit_access_broker.Prelude.{
  ℕ, suc, ◌+◌, ◌<◌, ◌==◌, ◌≡◌, refl, sym, ◌∙◌, ap, subst, Bool, true, false, none, some, List, [],
  ◌∷◌, length, arith, Option-cases, inl, inr, ◌⊎◌, Text, if◌then◌else◌,
}
use jit_access_broker.Prelude.Dict.{lookup}
use jit_access_broker.Models.{Instant, IssuedToken}
use jit_access_broker.Store.{Store, find_live, mark_revoked, add}
use jit_access_broker.Store.Extension.{move_expiry, store_value}
use jit_access_broker.Store.Worker.{fire_warnings}
use jit_access_broker.Store.Evolution.{
  Evolves, Evolves-refl, mark_revoked-Evolves, mark_due-WarnsAt,
}
use jit_access_broker.Store.Sections.{claim}
use jit_access_broker.Store.Interleaving.{Taken, front, behind}

abbrev pub bit : Bool → ℕ
bit b = if b then 1 else 0

abbrev pub count : ℕ → List ℕ → ℕ
count a [] = 0
count a (b ∷ l) = bit (a == b) + count a l

count-Taken : {a : ℕ} {l m : List ℕ} → Taken a l m → (b : ℕ) → count b l ≡ bit (b == a) + count b m
count-Taken front b = refl
count-Taken (behind t) b = omega (arith, count-Taken t b)

length-Taken : {a : ℕ} {l m : List ℕ} → Taken a l m → length l ≡ suc (length m)
length-Taken front = refl
length-Taken (behind t) = ap suc (length-Taken t)

module _ {W : Type 0} where
  -- Each token that is revoked has had its call, or has it coming, exactly once; the others have none.
  pub record Once (s : Store W) (coming made : List ℕ) : Type 0 where
    pub known : (a : ℕ) → (s.memory a).revoked ≡ true → a < s.next
    pub once : (a : ℕ) → count a coming + count a made ≡ bit (s.memory a).revoked
    pub counted : s.revoked_count ≡ length coming + length made

  pub Once-same :
      (s s' : Store W) {coming made : List ℕ}
      → s'.next ≡ s.next
      → s'.revoked_count ≡ s.revoked_count
      → ((a : ℕ) → (s'.memory a).revoked ≡ (s.memory a).revoked)
      → Once s coming made
      → Once s' coming made
  Once-same s s' n k same o = record {
    known = λ a r. omega (arith, n, o.known a (sym (same a) ∙ r));
    once = λ a. o.once a ∙ ap bit (sym (same a));
    counted = k ∙ o.counted;
  }

  pub Once-mark :
      (s : Store W) (a : ℕ) {coming made : List ℕ}
      → (s.memory a).revoked ≡ false
      → a < s.next
      → Once s coming made
      → Once (mark_revoked s a) (a ∷ coming) made
  unfolding mark_revoked
  Once-mark s a live here o = record {
    known = λ b r. ground (arith, o.known b);
    once = λ b. ground (arith, o.once b);
    counted = omega (arith, o.counted);
  }

  pub Once-Taken :
      (s : Store W) (a : ℕ) {coming rest made : List ℕ}
      → Taken a coming rest
      → Once s coming made
      → Once s rest (a ∷ made)
  Once-Taken s a t o = record {
    known = o.known;
    once = λ b. omega (arith, o.once b, count-Taken t b);
    counted = omega (arith, o.counted, length-Taken t);
  }

  pub Once-add :
      (s : Store W) (t : IssuedToken) {coming made : List ℕ}
      → t.revoked ≡ false
      → Once s coming made
      → Once (add s t) coming made
  unfolding add
  Once-add s t live o = record {
    known = λ b r. ground (arith, o.known b);
    once = λ b. ground (arith, o.once b, o.known b);
    counted = o.counted;
  }

  pub claim-cases :
      (s : Store W) (id : Text)
      → (claim s id ≡ (none, s))
        ⊎ ((a : ℕ) × (find_live s id ≡ some a) × (claim s id ≡ (some a, mark_revoked s a)))
  unfolding claim
  claim-cases s id = elim (Option-cases (find_live s id)) [
    | inl e ↦ inl (ground arith)
    | inr (a, e) ↦ inr (a, e, ground arith)
  ]

  pub claim-Evolves : (s : Store W) (id : Text) → Evolves s (claim s id).1
  claim-Evolves s id = elim (claim-cases s id) [
    | inl e ↦ subst (λ r. Evolves s r.1) (sym e) (Evolves-refl s)
    | inr (a, found, e) ↦ subst (λ r. Evolves s r.1) (sym e) (mark_revoked-Evolves s a)
  ]

  pub move_expiry-Once :
      (s : Store W) (a : ℕ) (e : Instant) {coming made : List ℕ}
      → Once s coming made
      → Once (move_expiry s a e) coming made
  unfolding move_expiry
  move_expiry-Once s a e o = Once-same s _ refl refl (λ b. ground arith) o

  pub store_value-Once :
      (s : Store W) (id value : Text) {coming made : List ℕ}
      → Once s coming made
      → Once (store_value s id value) coming made
  unfolding store_value
  store_value-Once s id value o = elim (Option-cases (lookup id s.tokens)) [
    | inl e ↦ Once-same s _ (ground arith) (ground arith) (λ b. ground arith) o
    | inr (a, e) ↦ Once-same s _ (ground arith) (ground arith) (λ b. ground arith) o
  ]

  pub fire_warnings-Once :
      (s : Store W) (now : Instant) (w : W) {coming made : List ℕ}
      → Once s coming made
      → Once (fire_warnings s now w).0 coming made
  unfolding fire_warnings
  fire_warnings-Once s now w o =
      Once-same s _ refl refl
        (λ b. ground (arith, mark_due-WarnsAt s.warning_before now s.tokens s.memory b)) o
