-- ===== src/System/Origins.antt =====
-- Where the tokens of the running broker come from.
use jit_access_broker.Prelude.{
  In, List, [], ◌∷◌, ◌⊎◌, ℕ, ◌<◌, ◌≡◌, refl, subst, ◌∙◌, true, Option, some, arith, inl, inr,
  Bool-cases, ◌==◌,
}
use jit_access_broker.Models.{Instant, IssuedToken, AccessRequest}
use jit_access_broker.Providers.{ok, Context}
use jit_access_broker.Auth.{validate}
use jit_access_broker.Auth.Gate.{IsComplete, IsVouched}
use jit_access_broker.Breakglass.{BreakGlassRequest, Manager, verify, granted_ttl}
use jit_access_broker.Store.{Store, add, with_origin}
use jit_access_broker.Store.Worker.{tick, fire_warnings, revoke_expired}
use jit_access_broker.Store.Evolution.{
  Persists, Evolves, extend-Evolves, revoke_now-Evolves, fire_warnings-Evolves,
}
use jit_access_broker.Store.History.{expires}
use jit_access_broker.Store.Lifetime.{steps, Move-Ages}
use jit_access_broker.Api.{Server, HttpRequest}
use jit_access_broker.Api.Guards.{justified}
use jit_access_broker.Slack.{Handler, SlashCommand, parse_slack_command}
use jit_access_broker.Slack.Guards.{IsApproved}
use jit_access_broker.Router.{Libraries}
use jit_access_broker.System.Runs.{Turn, serves, ticks, heard, next-revoke_expired}
use jit_access_broker.System.Changes.{
  Change, unchanged, granted, slack_granted, emergency, extended, ended, emergency_token,
  serve-Change,
}

module _ {W : Type 0} (lib : Libraries) (srv : Server W) (slack : Option (Handler W)) where
  -- Where a token comes from, given the requests so far: the issuer minted it for the user and the
  -- resource of one of them, for which a provider vouched, by HTTP or by Slack, in the world that the
  -- request was served in, or which carries the signatures of a quorum.
  pub data Minted (log : List (HttpRequest × W)) : IssuedToken → Type 0 where
    by_provider :
        (r : HttpRequest) (w : W) (req : AccessRequest) (issued : IssuedToken)
        → In (r, w) log
        → lib.json.decode_access r.body ≡ ok req
        → IsComplete lib.quote srv.engine req w
        → IsVouched lib.quote srv.engine req w
        → (srv.issuer.issue req.user_identity req.resource srv.ttl
            (validate lib.quote srv.engine req w).2).0
          ≡ ok issued
        → Minted log issued
    by_slack :
        (r : HttpRequest) (w : W) (h : Handler W) (s : Store W) (cmd : SlashCommand)
        (req : AccessRequest) (issued : IssuedToken)
        → In (r, w) log
        → slack ≡ some h
        → parse_slack_command (record { method = r.method; form = lib.parse_form r }) ≡ ok cmd
        → (h.signing_secret ≡ []) ⊎ (cmd.token ≡ h.signing_secret)
        → IsApproved h lib.rfc3339 lib.quote lib.path_escape s w cmd req issued
        → Minted log issued
    by_quorum :
        (r : HttpRequest) (w : W) (m : Manager W) (req : BreakGlassRequest) (issued : IssuedToken)
        → In (r, w) log
        → srv.bg_manager ≡ some m
        → lib.json.decode_break_glass r.body ≡ ok req
        → (verify lib.ed25519 m req).0 ≡ true
        → (m.issuer.issue req.user req.resource (granted_ttl req.ttl_minutes) w).0 ≡ ok issued
        → Minted log issued

  -- What has been said stays said.
  Minted-grows :
      (log : List (HttpRequest × W)) (x : HttpRequest × W) (t : IssuedToken)
      → Minted log t
      → Minted (x ∷ log) t
  Minted-grows log x t (by_provider r w req _ i d c v m) = by_provider r w req t (inr i) d c v m
  Minted-grows log x t (by_slack r w h s cmd req _ i q p k a) =
      by_slack r w h s cmd req t (inr i) q p k a
  Minted-grows log x t (by_quorum r w m req _ i q d v j) = by_quorum r w m req t (inr i) q d v j

  -- The token has the owner, the resource and the id of one that was minted so.
  abbrev pub IsAccounted : List (HttpRequest × W) → IssuedToken → Type 0
  IsAccounted log t =
      (issued : IssuedToken) × Minted log issued
      × (t.id ≡ issued.id)
      × (t.user ≡ issued.user)
      × (t.resource ≡ issued.resource)

  Persists-IsAccounted :
      (log : List (HttpRequest × W)) (t t' : IssuedToken)
      → Persists t t'
      → IsAccounted log t
      → IsAccounted log t'
  Persists-IsAccounted log t t' p (issued, m, i, u, r) =
      (issued, m, p.same_id ∙ i, p.same_user ∙ u, p.same_resource ∙ r)

  -- All objects of the store are accounted for.
  abbrev pub Books : List (HttpRequest × W) → Store W → Type 0
  Books log s = (a : ℕ) → a < s.next → IsAccounted log (s.memory a)

  Books-grow :
      (log : List (HttpRequest × W)) (x : HttpRequest × W) (s : Store W)
      → Books log s
      → Books (x ∷ log) s
  Books-grow log x s books a below =
      let (issued, m, i, u, r) = books a below in (issued, Minted-grows log x issued m, i, u, r)

  add-Books :
      (log : List (HttpRequest × W)) (s : Store W) (t issued : IssuedToken)
      → Minted log issued
      → t.id ≡ issued.id
      → t.user ≡ issued.user
      → t.resource ≡ issued.resource
      → Books log s
      → Books log (add s t)
  unfolding add
  add-Books log s t issued m i u r books a below = elim (Bool-cases (s.next == a)) [
    | inl e ↦
        subst (IsAccounted log) {x = with_origin t} {y = (add s t).memory a} (ground arith)
          (issued, m, ground arith, ground arith, ground arith)
    | inr e ↦
        subst (IsAccounted log) {x = s.memory a} {y = (add s t).memory a} (ground arith)
          (books a (ground arith))
  ]

  Evolves-Books :
      (log : List (HttpRequest × W)) {s s' : Store W} → Evolves s s' → Books log s → Books log s'
  Evolves-Books log {s} {s'} e books a below =
      Persists-IsAccounted log (s.memory a) (s'.memory a) (e.each a)
        (books a (subst (λ n. a < n) e.same_next below))

  Change-Books :
      (log : List (HttpRequest × W)) {s s' : Store W} {r : HttpRequest} {w : W}
      → In (r, w) log
      → Change lib srv slack s r w s'
      → Books log s
      → Books log s'
  Change-Books log i unchanged books = books
  Change-Books log {s} {r = r} {w = w} i (granted req issued d c v m) books =
      add-Books log s (justified issued req) issued (by_provider r w req issued i d c v m) refl refl
        refl books
  Change-Books log {s} {r = r} {w = w} i (slack_granted h cmd req issued q p k a) books =
      add-Books log s (justified issued req) issued (by_slack r w h s cmd req issued i q p k a) refl
        refl refl books
  Change-Books log {s} {r = r} {w = w} i (emergency m req issued q d v j) books =
      add-Books log s (emergency_token issued req) issued (by_quorum r w m req issued i q d v j)
        refl refl refl books
  Change-Books log {s} i (extended req tok now later v d g c o) books =
      Evolves-Books log (extend-Evolves s req.token_id now later v) books
  Change-Books log {s} i (ended ctx id v) books =
      Evolves-Books log (revoke_now-Evolves s ctx id v) books

  revoke_expired-Books :
      (log : List (HttpRequest × W)) (s : Store W) (ctx : Context W) (now : Instant) (w : W)
      → Books log s
      → Books log (revoke_expired s ctx now w).0
  revoke_expired-Books log s ctx now w books a below =
      let below' = subst (λ n. a < n) (next-revoke_expired s ctx now w) below in
      Persists-IsAccounted log (s.memory a) _
        ((Move-Ages (steps (expires ctx now w))).each a below') (books a below')

  -- A turn leaves no object unaccounted for, the request that it served among the requests.
  pub Turn-Books :
      (log : List (HttpRequest × W)) {s s' : Store W} (t : Turn lib srv slack s s')
      → Books log s
      → Books (heard lib srv slack t log) s'
  Turn-Books log {s} (serves ctx r now later w fresh) books =
      Change-Books ((r, w) ∷ log) (inl refl) (serve-Change lib srv slack s ctx r now later w)
        (Books-grow log (r, w) s books)
  Turn-Books log {s} (ticks ctx now w) books =
      let (s', w') = fire_warnings s now w in
      unfold tick in
      revoke_expired-Books log s' ctx now w'
        (Evolves-Books log (fire_warnings-Evolves s now w) books)
