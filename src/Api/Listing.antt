-- ===== src/Api/Listing.antt =====
-- What listTokens shows.
use jit_access_broker.Prelude.{
  ℕ, ◌≡◌, ◌↔◌, refl, sym, ap, subst, map, if◌then◌else◌, ◌∙◌, Bool, true, false, some, List, [],
  ◌∷◌, arith, inl, inr, ◌⊎◌, In, In-map, map-In, length, Text, codes, Option-cases,
}
use jit_access_broker.Prelude.Dict.{lookup, In-lookup, lookup-In}
use jit_access_broker.Models.{IssuedToken}
use jit_access_broker.Store.{Store, Memory, live_tokens, list, get, find_live}
use jit_access_broker.Store.Invariant.{Inv}
use jit_access_broker.Api.{HttpRequest, Safe, respond, tokens, is_method, safe, list_tokens}

-- Membership in a list that starts with `x` where the test fails.
In-unless :
    {A : Type 0} (b : Bool) (x t : A) (rest : List A)
    → In t (if b then rest else x ∷ rest) ↔ (((b ≡ false) × (x ≡ t)) ⊎ In t rest)
In-unless true x t rest =
    (λ h. inr h, λ h. elim h [ inl (q, e) ↦ absurd (ground arith) | inr m ↦ m ])
In-unless false x t rest = (
  λ h. elim h [ inl e ↦ inl (refl, e) | inr m ↦ inr m ],
  λ h. elim h [ inl (q, e) ↦ inl e | inr m ↦ inr m ],
)

live_tokens-In :
    (m : Memory) (l : List (Text × ℕ)) (t : IssuedToken)
    → In t (live_tokens m l)
    → (id : Text) × (a : ℕ) × In (id, a) l × ((m a).revoked ≡ false) × (m a ≡ t)
unfolding live_tokens
live_tokens-In m [] t h = absurd h
live_tokens-In m ((k, b) ∷ l) t h = elim ((In-unless (m b).revoked (m b) t (live_tokens m l)).0 h) [
  | inl (live, e) ↦ (k, b, inl refl, live, e)
  | inr n ↦ let (id, a, there, live, e) = live_tokens-In m l t n in (id, a, inr there, live, e)
]

In-live_tokens :
    (m : Memory) (l : List (Text × ℕ)) (id : Text) (a : ℕ)
    → In (id, a) l
    → (m a).revoked ≡ false
    → In (m a) (live_tokens m l)
unfolding live_tokens
In-live_tokens m [] id a h live = absurd h
In-live_tokens m ((k, b) ∷ l) id a (inl e) live =
    let same : b ≡ a = ap (λ x. x.1) e in
    (In-unless (m b).revoked (m b) (m a) (live_tokens m l)).1
      (inl (ap (λ c. (m c).revoked) same ∙ live, ap m same))
In-live_tokens m ((k, b) ∷ l) id a (inr h) live =
    (In-unless (m b).revoked (m b) (m a) (live_tokens m l)).1 (inr (In-live_tokens m l id a h live))

module _ {W : Type 0} (s : Store W) (v : Inv s) where
  list-get : (t : IssuedToken) → In t (list s) → get s t.id ≡ some t
  unfolding list get find_live
  list-get t h =
      let (id, a, there, live, e) = live_tokens-In s.memory s.tokens t h in
      let found = In-lookup id a s.tokens v.keyed there in
      let same : t.id ≡ id = sym (ap (λ u. u.id) e) ∙ v.named id a found in
      ground (arith, ap (λ i. lookup i s.tokens) same)

  get-list : (id : Text) (t : IssuedToken) → get s id ≡ some t → In t (list s)
  unfolding list get find_live
  get-list id t h = elim (Option-cases (lookup id s.tokens)) [
    | inl e ↦ absurd (ground arith)
    | inr (a, e) ↦
        let same : s.memory a ≡ t = ground arith in
        subst (λ u. In u (live_tokens s.memory s.tokens)) same
          (In-live_tokens s.memory s.tokens id a (lookup-In id a s.tokens e) (ground arith))
  ]

  -- The listing shows the live sessions and no credentials: on a store that satisfies the invariant,
  -- listTokens answers a GET with 200, the count of its entries, and entries that are exactly the
  -- public parts of the tokens that Get answers under their own ids.
  pub list_tokens_lem :
      (r : HttpRequest)
      → is_method r (codes "GET") ≡ true
      → (out : List Safe) × (list_tokens s r ≡ respond 200 (tokens out (length out)))
        × ((x : Safe) → In x out ↔ ((t : IssuedToken) × (get s t.id ≡ some t) × (safe t ≡ x)))
  unfolding list_tokens
  list_tokens_lem r h = (
    map safe (list s),
    ground arith,
    λ x. (
      λ m. let (t, n, e) = map-In safe x (list s) m in (t, list-get t n, e),
      λ (t, g, e).
          subst (λ y. In y (map safe (list s))) e (In-map safe t (list s) (get-list t.id t g)),
    ),
  )
