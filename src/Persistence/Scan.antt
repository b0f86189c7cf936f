-- ===== src/Persistence/Scan.antt =====
-- The records as copies of tokens, and recovery's split of the records that it loads.
use jit_access_broker.Prelude.{
  ◌<◌, ◌≡◌, refl, Bool, true, false, not, ◌&&◌, List, [], ◌∷◌, select, arith, ltb, In, ◌↔◌,
}
use jit_access_broker.Models.{Instant, IssuedToken}
use jit_access_broker.Persistence.{Record, to_record, to_token, missed_expirations}

-- A token comes back from its record with every field but NotifiedExpiry, which is reset.
pub to_token-to_record :
    (t : IssuedToken) → to_token (to_record t) ≡ record t { notified_expiry = false }
unfolding to_token to_record
to_token-to_record t = refl

pub In-select :
    {A : Type 0} (keep : A → Bool) (a : A) (l : List A)
    → In a (select keep l) ↔ (In a l × (keep a ≡ true))
In-select keep a [] = (λ h. absurd h, λ h. h.0)
In-select keep a (x ∷ l) = let (down, up) = In-select keep a l in ground arith

-- MissedExpirations answers exactly those of the records that are not revoked and whose expiry is
-- before the given instant.
pub missed_iff :
    (records : List Record) (now : Instant) (r : Record)
    → In r (missed_expirations records now)
      ↔ (In r records × (r.revoked ≡ false) × (r.expires_at < now))
unfolding missed_expirations
missed_iff records now r =
    let (down, up) = In-select (λ r. not r.revoked && ltb r.expires_at now) r records in
    ground arith
