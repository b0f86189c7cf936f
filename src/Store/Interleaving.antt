-- ===== src/Store/Interleaving.antt =====
-- store/store.go under concurrency: goroutines that run its methods, interleaved at its mutex.
-- A turn is one critical section, or one call of a provider, which is made outside the lock.
pub mod Once
pub mod Exactly
pub mod Serial
pub mod LateRenewal
use jit_access_broker.Prelude.{ℕ, ◌≡◌, false, Option, none, some, List, [], ◌∷◌, Text}
use jit_access_broker.Prelude.Dict.{lookup}
use jit_access_broker.Models.{Instant, IssuedToken}
use jit_access_broker.Providers.{TokenIssuer}
use jit_access_broker.Store.{Store, new, add}
use jit_access_broker.Store.Extension.{store_value}
use jit_access_broker.Store.Worker.{fire_warnings}
use jit_access_broker.Store.Sections.{
  Begun, gone, panicked, closes, renews, claim, claim_due, begin_extend,
}

-- One occurrence of the element leaves the first list, and the second is what remains.
pub data Taken {A : Type 0} (a : A) : List A → List A → Type 0 where
  front : {l : List A} → Taken a (a ∷ l) l
  behind : {b : A} {l m : List A} → Taken a l m → Taken a (b ∷ l) (b ∷ m)

-- The store and the goroutines that are between two sections: those that have marked a token and
-- are about to have it revoked, with the calls of Revoke made so far, and those that have moved an
-- expiry and are about to renew the token, by its id.
pub record Threads (W : Type 0) : Type 0 where
  pub store : Store W
  pub to_revoke : List ℕ
  pub revoke_calls : List ℕ
  pub to_renew : List Text

module _ {W : Type 0} where
  abbrev pub idle : Store W → List ℕ → Threads W
  idle s calls = record { store = s; to_revoke = []; revoke_calls = calls; to_renew = [] }

  abbrev pub claimed : Threads W → Option ℕ × Store W → Threads W
  claimed c (none, s) = record c { store = s }
  claimed c (some a, s) = record c { store = s; to_revoke = a ∷ c.to_revoke }

  abbrev pub begun : Threads W → Text → Begun × Store W → Threads W
  begun c id (gone, s) = record c { store = s }
  begun c id (panicked, s) = record c { store = s }
  begun c id (closes a, s) = record c { store = s; to_revoke = a ∷ c.to_revoke }
  begun c id (renews a, s) = record c { store = s; to_renew = id ∷ c.to_renew }

  -- After the panic of Extend the code leaves the lock taken for good; here the others may go on.
  pub data Turn (c : Threads W) : Threads W → Type 0 where
    adds :
        (t : IssuedToken)
        → lookup t.id c.store.tokens ≡ none
        → t.revoked ≡ false
        → Turn c (record c { store = add c.store t })
    revokes : (id : Text) → Turn c (claimed c (claim c.store id))
    expires :
        (now : Instant) (round : Option ℕ × Store W)
        → claim_due c.store now ≡ some round
        → Turn c (claimed c round)
    warns : (now : Instant) (w : W) → Turn c (record c { store = (fire_warnings c.store now w).0 })
    extends :
        (id : Text) (now later : Instant) → Turn c (begun c id (begin_extend c.store id now later))
    -- The provider has answered Issue with a value; or with an error, or there is no issuer.
    renewed :
        (id value : Text) {rest : List Text}
        → Taken id c.to_renew rest
        → Turn c (record c { store = store_value c.store id value; to_renew = rest })
    unrenewed :
        (id : Text) {rest : List Text}
        → Taken id c.to_renew rest
        → Turn c (record c { to_renew = rest })
    -- The call of Revoke on a token that the goroutine has marked.
    calls :
        (a : ℕ) {rest : List ℕ}
        → Taken a c.to_revoke rest
        → Turn c (record c { to_revoke = rest; revoke_calls = a ∷ c.revoke_calls })

  pub data Turns (c : Threads W) : Threads W → Type 0 where
    still : Turns c c
    turn : {d e : Threads W} → Turns c d → Turn d e → Turns c e

  pub Turns-trans : {c d e : Threads W} → Turns c d → Turns d e → Turns c e
  Turns-trans l still = l
  Turns-trans l (turn m t) = turn (Turns-trans l m) t

  -- Every interleaving, from an empty store.
  abbrev pub Interleaved : Option (TokenIssuer W) → Threads W → Type 0
  Interleaved i c = Turns (idle (new i) []) c
