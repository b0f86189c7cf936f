-- ===== src/System/Ceiling.antt =====
-- How long a session of the running broker can last.
use jit_access_broker.Prelude.{
  ℕ, ◌≤◌, ◌<◌, ◌≡◌, subst, true, Option, some, arith, inl, inr, Bool-cases, Text, ◌==◌, ℤ, pos,
  leb_ℤ,
}
use jit_access_broker.Models.{Instant, IssuedToken, add_time, max_ttl, max_session_duration}
use jit_access_broker.Providers.{ok, TokenIssuer}
use jit_access_broker.Breakglass.{Manager, granted_ttl}
use jit_access_broker.Breakglass.Decision.{granted_ttl_bounds}
use jit_access_broker.Store.{Store, add, with_origin}
use jit_access_broker.Store.Evolution.{extend-Evolves, revoke_now-Evolves, fire_warnings-Evolves}
use jit_access_broker.Store.Worker.{tick, fire_warnings}
use jit_access_broker.Store.Lifetime.{steps, extends, Ages, Move-Ages}
use jit_access_broker.Store.History.{revokes, warns, expires}
use jit_access_broker.Api.{Server, HttpRequest}
use jit_access_broker.Slack.{Handler}
use jit_access_broker.Router.{Libraries}
use jit_access_broker.System.Changes.{
  Change, unchanged, granted, slack_granted, emergency, extended, ended, serve-Change,
}
use jit_access_broker.System.Runs.{Turn, serves, ticks, next-revoke_expired}

-- A new token expires the TTL after its issue, and has no session yet.
abbrev pub IsPunctual : {W : Type 0} → TokenIssuer W → Type 0
IsPunctual {W} i =
    (user resource : Text) (ttl : ℤ) (w : W) (tok : IssuedToken)
    → (i.issue user resource ttl w).0 ≡ ok tok
    → (tok.expires_at ≡ add_time tok.issued_at ttl) × (tok.original_issued_at ≡ 0)

-- The broker's TTLs are within MaxTTL, and its issuers are punctual.
pub record IsConfined {W : Type 0} (srv : Server W) (slack : Option (Handler W)) : Type 0 where
  pub ttl : leb_ℤ srv.ttl max_ttl ≡ true
  pub issuer : IsPunctual srv.issuer
  pub slack_ttl : (h : Handler W) → slack ≡ some h → leb_ℤ h.ttl max_ttl ≡ true
  pub slack_issuer : (h : Handler W) → slack ≡ some h → IsPunctual h.issuer
  pub manager_issuer : (m : Manager W) → srv.bg_manager ≡ some m → IsPunctual m.issuer

-- The token expires at most four hours after its session began.
abbrev pub InTime : IssuedToken → Type 0
InTime t = t.expires_at ≤ add_time t.original_issued_at max_session_duration

new_token-InTime :
    (t : IssuedToken) (ttl : ℤ)
    → leb_ℤ ttl max_ttl ≡ true
    → t.expires_at ≡ add_time t.issued_at ttl
    → t.original_issued_at ≡ 0
    → InTime (with_origin t)
new_token-InTime t (pos n) small e o = ground arith
new_token-InTime t (ℤ.negsuc n) small e o = ground arith

pub add_time_le :
    (o : Instant) (d : ℤ)
    → leb_ℤ d max_session_duration ≡ true
    → add_time o d ≤ add_time o max_session_duration
add_time_le o (pos n) h = ground arith
add_time_le o (ℤ.negsuc n) h = omega arith

module _ {W : Type 0} where
  -- The store's session ceiling is at most four hours, and all its tokens are in time.
  pub record IsTimely (s : Store W) : Type 0 where
    pub limit : leb_ℤ s.max_session max_session_duration ≡ true
    pub each : (a : ℕ) → a < s.next → InTime (s.memory a)

  add-IsTimely :
      (s : Store W) (t : IssuedToken) → InTime (with_origin t) → IsTimely s → IsTimely (add s t)
  unfolding add
  add-IsTimely s t new h = record {
    limit = h.limit;
    each = λ a below. elim (Bool-cases (s.next == a)) [
      | inl e ↦ subst InTime {x = with_origin t} {y = (add s t).memory a} (ground arith) new
      | inr e ↦
          subst InTime {x = s.memory a} {y = (add s t).memory a} (ground arith)
            (h.each a (ground arith))
    ];
  }

  Ages-IsTimely : {s s' : Store W} → Ages s s' → s'.next ≡ s.next → IsTimely s → IsTimely s'
  Ages-IsTimely {s} {s'} g n h = record {
    limit = rw g.same_limit h.limit;
    each = λ a below.
        let below' = subst (λ m. a < m) n below in
        let o = (s.memory a).original_issued_at in
        rw (g.each a below').same_origin
          (omega (arith, g.bound a below', h.each a below', add_time_le o s.max_session h.limit));
  }

module _ {W : Type 0} (lib : Libraries) (srv : Server W) (slack : Option (Handler W))
    (c : IsConfined srv slack) where
  Change-IsTimely :
      {s s' : Store W} {r : HttpRequest} {w : W}
      → Change lib srv slack s r w s'
      → IsTimely s
      → IsTimely s'
  Change-IsTimely unchanged h = h
  Change-IsTimely {s} (granted req issued d complete v m) h =
      let (e, o) = c.issuer req.user_identity req.resource srv.ttl _ issued m in
      add-IsTimely s _ (new_token-InTime _ srv.ttl c.ttl e o) h
  Change-IsTimely {s} (slack_granted handler cmd req issued q p t a) h =
      let (text, user, complete, vouched, m) = a in
      let (e, o) = c.slack_issuer handler q req.user_identity req.resource handler.ttl _ issued m in
      add-IsTimely s _ (new_token-InTime _ handler.ttl (c.slack_ttl handler q) e o) h
  Change-IsTimely {s} (emergency m req issued q decoded v i) h =
      let (e, o) =
        c.manager_issuer m q req.user req.resource (granted_ttl req.ttl_minutes) _ issued i in
      let (d, eq, positive, small, exact) = granted_ttl_bounds req.ttl_minutes in
      add-IsTimely s _ (new_token-InTime _ (granted_ttl req.ttl_minutes) (rw eq (ground arith)) e o)
        h
  Change-IsTimely {s} (extended req tok now later v d g complete o) h =
      Ages-IsTimely (Move-Ages (extends req.token_id now later v))
        (extend-Evolves s req.token_id now later v).same_next h
  Change-IsTimely {s} (ended ctx id v) h =
      Ages-IsTimely (Move-Ages (steps (revokes ctx id v))) (revoke_now-Evolves s ctx id v).same_next
        h

  pub Turn-IsTimely : {s s' : Store W} → Turn lib srv slack s s' → IsTimely s → IsTimely s'
  Turn-IsTimely {s} (serves ctx r now later w fresh) h =
      Change-IsTimely (serve-Change lib srv slack s ctx r now later w) h
  Turn-IsTimely {s} (ticks ctx now w) h =
      let (s', w') = fire_warnings s now w in
      let warned =
        Ages-IsTimely (Move-Ages (steps (warns now w))) (fire_warnings-Evolves s now w).same_next
          h in
      unfold tick in
      Ages-IsTimely (Move-Ages (steps (expires ctx now w'))) (next-revoke_expired s' ctx now w')
        warned
