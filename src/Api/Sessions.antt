-- ===== src/Api/Sessions.antt =====
-- What extendAccess and revokeToken do to a session.
use jit_access_broker.Prelude.{
  ℕ, ◌≡◌, refl, sym, subst, ◌∙◌, ap, true, false, Option, none, some, [], ◌∷◌, ◌++◌, arith, inl,
  inr, ◌⊎◌, Option-cases, Bool-cases, Text, codes, is_empty, starts_with, length,
}
use jit_access_broker.Models.{Instant, IssuedToken, AccessRequest, ExtensionRequest}
use jit_access_broker.Providers.{Result-cases, ok, Context}
use jit_access_broker.Auth.{ValidationResult, validate}
use jit_access_broker.Auth.Gate.{IsComplete, IsVouched, validate_iff}
use jit_access_broker.Store.{Store, get, revoke_now, find_live}
use jit_access_broker.Store.Extension.{ExtendResult, extend}
use jit_access_broker.Store.Ceiling.{Granted, extend-Granted}
use jit_access_broker.Store.Revocation.{revoke_now_idem}
use jit_access_broker.Api.{
  Server, HttpRequest, Decoder, Response, is_method, trim_prefix, revoke_path, revoke_token, skip,
  respond, refuse, revoked,
}
use jit_access_broker.Api.Access.{answer_extension, shut_out, extend_validated, extend_access}

-- The request that extendAccess has validated: the token's own resource, the new justification.
abbrev pub revalidated : ExtensionRequest → IssuedToken → AccessRequest
revalidated req tok = record {
  user_identity = req.user_identity;
  resource = tok.resource;
  justification_type = req.justification_type;
  justification_ref = req.justification_ref;
}

module _ {W : Type 0} (srv : Server W) where
  answer_extension-200 :
      (id : Text) (result : Option ExtendResult) (s : Store W) (w : W) (a : Response)
      → (answer_extension srv id (result, s, w)).0 ≡ some a
      → a.status ≡ 200
      → (x : ExtendResult) × (result ≡ some x)
        × (x.extended ≡ true)
        × ((answer_extension srv id (result, s, w)).1 ≡ s)
  unfolding answer_extension
  answer_extension-200 id none s w a h q = ground arith
  answer_extension-200 id (some x) s w a h q = elim (Bool-cases x.extended) [
    | inr stop ↦ ground arith
    | inl go_on ↦ (x, refl, go_on, ground arith)
  ]

  shut_out-403 :
      (s : Store W) (ctx : Context W) (id reason : Text) (w : W)
      → let (answer, s', w') = shut_out srv s ctx id reason w in
        ((a : Response) × (answer ≡ some a) × (a.status ≡ 403)) × (get s' id ≡ none)
  unfolding shut_out
  shut_out-403 s ctx id reason w = ((_, refl, refl), (revoke_now_idem s ctx id w).0)

  pub get-find_live :
      (s : Store W) (id : Text) (t : IssuedToken)
      → get s id ≡ some t
      → (a : ℕ) × (find_live s id ≡ some a) × (s.memory a ≡ t)
  unfolding get
  get-find_live s id t h = elim (Option-cases (find_live s id)) [
    | inl e ↦ absurd (ground arith)
    | inr (a, e) ↦ (a, e, ground arith)
  ]

  extend_validated-200 :
      (s : Store W) (ctx : Context W) (id : Text) (now later : Instant) (w : W) (t : IssuedToken)
      (res : ValidationResult) (e : Option Text) (a : Response)
      → get s id ≡ some t
      → (extend_validated srv s ctx id now later (res, e, w)).0 ≡ some a
      → a.status ≡ 200
      → (res.is_ok ≡ true)
        × (b : ℕ) × (find_live s id ≡ some b)
        × (s.memory b ≡ t)
        × (x : ExtendResult) × Granted s (extend_validated srv s ctx id now later (res, e, w)).1 b x
  unfolding extend_validated shut_out
  extend_validated-200 s ctx id now later w t res (some e) a found h q = ground arith
  extend_validated-200 s ctx id now later w t res none a found h q = elim (Bool-cases res.is_ok) [
    | inr stop ↦ ground arith
    | inl go_on ↦
        let (b, live, same) = get-find_live s id t found in
        let (result, s', w') = extend s id now later w in
        let (x, e, did, kept) = answer_extension-200 id result s' w' a (ground arith) q in
        (
          go_on,
          b,
          live,
          same,
          x,
          subst (λ u. Granted s u b x) (ground arith)
              (extend-Granted s id b now later w x live e did),
        )
  ]

  module _ (json : Decoder) (quote : Text → Text) (s : Store W) (ctx : Context W)
      (r : HttpRequest) where
    -- A session is extended only on a fresh word of a provider and only below the ceiling: when
    -- extendAccess answers 200, the request names a token that Get finds, the provider of the
    -- request's justification type vouched for it now, on the token's own resource, and the store
    -- changed as a granted extension changes it.
    pub extend_access_renews :
        (now later : Instant) (w : W) (a : Response)
        → (extend_access srv json quote s ctx r now later w).0 ≡ some a
        → a.status ≡ 200
        → (req : ExtensionRequest) × (json.decode_extension r.body ≡ ok req)
          × (b : ℕ) × (find_live s req.token_id ≡ some b)
          × IsComplete quote srv.engine (revalidated req (s.memory b)) w
          × IsVouched quote srv.engine (revalidated req (s.memory b)) w
          × (x : ExtendResult) × Granted s (extend_access srv json quote s ctx r now later w).1 b x
    unfolding extend_access
    extend_access_renews now later w a h q = elim (Bool-cases (is_method r (codes "POST"))) [
      | inr q0 ↦ ground arith
      | inl q0 ↦ elim (Result-cases (json.decode_extension r.body)) [
        | inr (e, q1) ↦ ground arith
        | inl (req, q1) ↦ elim (Bool-cases (is_empty req.token_id)) [
          | inl q2 ↦ ground arith
          | inr q2 ↦ elim (Option-cases (get s req.token_id)) [
            | inl q3 ↦ ground arith
            | inr (tok, q3) ↦
                let (res, e, v) = validate quote srv.engine (revalidated req tok) w in
                let (allowed, b, live, same, x, g) =
                  extend_validated-200 s ctx req.token_id now later v tok res e a q3 (ground arith)
                    q in
                let (complete, vouched, fine) =
                  (validate_iff quote srv.engine (revalidated req tok) w).0 allowed in
                (
                  req,
                  q1,
                  b,
                  live,
                  subst (λ t. IsComplete quote srv.engine (revalidated req t) w) (sym same)
                      complete,
                  subst (λ t. IsVouched quote srv.engine (revalidated req t) w) (sym same) vouched,
                  x,
                  subst (λ u. Granted s u b x) (ground arith) g,
                )
          ]
        ]
      ]
    ]

    -- A session whose context is no longer valid ends at once: when the body of a POST names a token
    -- that Get finds, and Validate answers without an error that the request on the token's resource
    -- is not OK, then extendAccess answers 403, and afterwards Get finds no token under the id.
    pub extend_access_shut_out :
        (now later : Instant) (w w' : W) (req : ExtensionRequest) (tok : IssuedToken)
        (res : ValidationResult)
        → is_method r (codes "POST") ≡ true
        → json.decode_extension r.body ≡ ok req
        → is_empty req.token_id ≡ false
        → get s req.token_id ≡ some tok
        → validate quote srv.engine (revalidated req tok) w ≡ (res, none, w')
        → res.is_ok ≡ false
        → let (answer, s', w'') = extend_access srv json quote s ctx r now later w in
          ((a : Response) × (answer ≡ some a) × (a.status ≡ 403)) × (get s' req.token_id ≡ none)
    unfolding extend_access extend_validated
    extend_access_shut_out now later w w' req tok res post decoded filled found judged bad =
        subst
          (λ o.
            ((a : Response) × (o.0 ≡ some a) × (a.status ≡ 403)) × (get o.1 req.token_id ≡ none))
          {x = shut_out srv s ctx req.token_id res.reason w'}
          {y = extend_access srv json quote s ctx r now later w} (ground arith)
          (shut_out-403 s ctx req.token_id res.reason w')

skip_append : (p t : Text) → skip (length p) (p ++ t) ≡ t
skip_append [] t = refl
skip_append (c ∷ p) t = skip_append p t

pub starts_with-append : (p t : Text) → starts_with (p ++ t) p ≡ true
unfolding starts_with
starts_with-append [] [] = refl
starts_with-append [] (c ∷ t) = refl
starts_with-append (c ∷ p) t = ground (arith, starts_with-append p t)

trim_prefix-append : (p t : Text) → trim_prefix (p ++ t) p ≡ t
unfolding trim_prefix
trim_prefix-append p t = ground (arith, starts_with-append p t, skip_append p t)

-- The revoke endpoint ends the session that its path names: for a POST to the revoke path followed by
-- a non-empty id under which Get finds a token, the answer is 200 with the id when the revoker
-- returned nil and 500 with its error otherwise, and in both cases Get finds no token under the id
-- afterwards.
pub revoke_token_lem :
    {W : Type 0} (s : Store W) (ctx : Context W) (r : HttpRequest) (w : W) (id : Text)
    (tok : IssuedToken)
    → is_method r (codes "POST") ≡ true
    → r.path ≡ revoke_path ++ id
    → is_empty id ≡ false
    → get s id ≡ some tok
    → let (answer, s', w') = revoke_token s ctx r w in
      (get s' id ≡ none)
      × (((answer ≡ respond 200 (revoked id)) × ((revoke_now s ctx id w).0 ≡ none))
          ⊎ ((e : Text) × (answer ≡ refuse 500 (codes "revoke_failed") e 0)
              × ((revoke_now s ctx id w).0 ≡ some e)))
unfolding revoke_token
revoke_token_lem s ctx r w id tok post at_path filled found =
    let same : trim_prefix r.path revoke_path ≡ id =
      ap (λ p. trim_prefix p revoke_path) at_path ∙ trim_prefix-append revoke_path id in
    let gone = (revoke_now_idem s ctx id w).0 in
    elim (Option-cases (revoke_now s ctx id w).0) [
      | inl e ↦ (ground (arith, same, gone), inl (ground (arith, same), e))
      | inr (m, e) ↦ (ground (arith, same, gone), inr (m, ground (arith, same), e))
    ]
