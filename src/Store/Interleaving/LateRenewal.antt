-- ===== src/Store/Interleaving/LateRenewal.antt =====
-- Extend and RevokeNow on one token: a renewal that comes back after the revocation.
use jit_access_broker.Prelude.{
  ℕ, ◌≤◌, ◌≡◌, true, Option, some, List, arith, Text, Bool-cases, inl, inr,
}
use jit_access_broker.Prelude.Dict.{lookup}
use jit_access_broker.Providers.{TokenIssuer}
use jit_access_broker.Store.Extension.{store_value}
use jit_access_broker.Store.Interleaving.{
  Taken, Threads, Turn, adds, revokes, expires, warns, extends, renewed, unrenewed, calls, Turns,
  still, turn, Turns-trans, Interleaved,
}
use jit_access_broker.Store.Interleaving.Once.{count}
use jit_access_broker.Store.Interleaving.Exactly.{revoke_calls-Interleaved}

module _ {W : Type 0} where
  -- The calls that have been made are there for good.
  Turn-grows :
      {c d : Threads W} → Turn c d → (a : ℕ) → count a c.revoke_calls ≤ count a d.revoke_calls
  Turn-grows (adds t fresh live) a = omega arith
  Turn-grows {c} (revokes id) a = ground arith
  Turn-grows (expires now r e) a = ground arith
  Turn-grows (warns now w) a = omega arith
  Turn-grows {c} (extends id now later) a = ground arith
  Turn-grows (renewed id value t) a = omega arith
  Turn-grows (unrenewed id t) a = omega arith
  Turn-grows (calls b t) a = omega arith

  Turns-grow :
      {c d : Threads W} → Turns c d → (a : ℕ) → count a c.revoke_calls ≤ count a d.revoke_calls
  Turns-grow still a = omega arith
  Turns-grow (turn l t) a = omega (arith, Turns-grow l a, Turn-grows t a)

-- A renewal that returns from the provider after the token's revocation leaves a credential that the
-- broker never revokes: if a token is marked as revoked and its call of Revoke has been made while an
-- Extend of it is still at the provider, then that Extend may write the new credential to the revoked
-- token, and whatever follows, no other call of Revoke is made on it.
pub late_renewal :
    {W : Type 0} (i : Option (TokenIssuer W)) (c e : Threads W) (a : ℕ) (id value : Text)
    (rest : List Text)
    → Interleaved i c
    → lookup id c.store.tokens ≡ some a
    → (c.store.memory a).revoked ≡ true
    → count a c.revoke_calls ≡ 1
    → Taken id c.to_renew rest
    → let d = record c { store = store_value c.store id value; to_renew = rest } in
      Turns d e
      → Turn c d
        × ((d.store.memory a).token ≡ value)
        × ((d.store.memory a).revoked ≡ true)
        × (count a e.revoke_calls ≡ 1)
unfolding store_value
late_renewal i c e a id value rest run there revoked called taken later =
    let t = renewed id value taken in
    let exact = (revoke_calls-Interleaved i e (Turns-trans (turn run t) later)).1 a in
    (
      t,
      ground arith,
      ground arith,
      elim (Bool-cases (e.store.memory a).revoked) [
        | inl r ↦ ground (arith, exact, Turns-grow later a)
        | inr r ↦ ground (arith, exact, Turns-grow later a)
      ],
    )
