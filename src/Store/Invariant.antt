-- ===== src/Store/Invariant.antt =====
-- The map and the heap agree: what links a token, its id and its place in the expiry heap.
use mathlib.Core.List.{Mem, mem-cons, not-mem-nil}
use mathlib.Core.List.Perm
use mathlib.Core.Logic.Or
use mathlib.Core.Logic.{◌∨₁◌}
use native.Mathlib.Bridge.{le_prop}
use jit_access_broker.Prelude.{
  ℕ, ◌<◌, ◌≡◌, ◌∙◌, ap, false, Option, none, some, [], arith, Bool-cases, inl, inr, Text, str_eq,
  str_eq_iff, if◌then◌else◌,
}
use jit_access_broker.Prelude.Dict.{lookup, lookup-insert, IsDict, insert-IsDict}
use jit_access_broker.Models.{IssuedToken}
use jit_access_broker.Providers.{TokenIssuer}
use jit_access_broker.Store.{Store, write, expiry, with_origin, new, add}
use jit_access_broker.Store.Heap.Laws.{push-perm}
use jit_access_broker.Store.Evolution.{Evolves}

pub with_origin_id : (t : IssuedToken) → (with_origin t).id ≡ t.id
with_origin_id t = ground arith

address_set : IsSet (Option ℕ)
address_set = hlevel

module _ {W : Type 0} where
  pub record Inv (s : Store W) : Type 0 where
    -- The map has one entry for each key.
    pub keyed : IsDict s.tokens
    -- The map and the heap hold objects that exist.
    pub mapped : (id : Text) (a : ℕ) → lookup id s.tokens ≡ some a → a < s.next
    pub queued : (a : ℕ) → Mem a s.pq → a < s.next
    -- A token is in the map under its own id.
    pub named : (id : Text) (a : ℕ) → lookup id s.tokens ≡ some a → (s.memory a).id ≡ id
    -- The map's token under a queued token's id is that token.
    pub aligned : (a : ℕ) → Mem a s.pq → lookup (s.memory a).id s.tokens ≡ some a
    -- A token that is not revoked waits in the heap.
    pub tracked :
        (id : Text) (a : ℕ)
        → lookup id s.tokens ≡ some a
        → (s.memory a).revoked ≡ false
        → Mem a s.pq

  pub Evolves-Inv : {s s' : Store W} → Evolves s s' → Inv s → Inv s'
  Evolves-Inv {s} {s'} e v = record {
    keyed = rw e.same_tokens v.keyed;
    mapped = λ id a h. rw e.same_next (v.mapped id a (rw e.same_tokens at h));
    queued = λ a h. rw e.same_next (v.queued a (rw e.same_pq at h));
    named = λ id a h. (e.each a).same_id ∙ v.named id a (rw e.same_tokens at h);
    aligned = λ a h. rw (e.same_tokens, (e.each a).same_id) (v.aligned a (rw e.same_pq at h));
    tracked = λ id a h live. rw e.same_pq (v.tracked id a (rw e.same_tokens at h) (still a live));
  }
    where
      still : (a : ℕ) → (s'.memory a).revoked ≡ false → (s.memory a).revoked ≡ false
      still a live = ground (arith, (e.each a).permanent)

  pub new-Inv : (i : Option (TokenIssuer W)) → Inv (new i)
  unfolding new lookup
  new-Inv i = record {
    keyed = tt;
    mapped = λ id a h. cc;
    queued = λ a h. absurd (not-mem-nil h);
    named = λ id a h. cc;
    aligned = λ a h. absurd (not-mem-nil h);
    tracked = λ id a h live. cc;
  }

  -- A store without tokens satisfies the invariant.
  pub empty-Inv : (s : Store W) → s.tokens ≡ [] → s.pq ≡ [] → Inv s
  unfolding lookup
  empty-Inv s no_tokens no_queue = record {
    keyed = rw no_tokens tt;
    mapped = λ id a h. absurd (ground arith);
    queued = λ a h. absurd (not-mem-nil (rw no_queue at h));
    named = λ id a h. absurd (ground arith);
    aligned = λ a h. absurd (not-mem-nil (rw no_queue at h));
    tracked = λ id a h live. absurd (ground arith);
  }

  module _ (s : Store W) (t : IssuedToken) (v : Inv s) (fresh : lookup t.id s.tokens ≡ none) where
    added : (a : ℕ) → Mem a (add s t).pq → (a ≡ s.next) ∨₁ Mem a s.pq
    unfolding add
    added a h = mem-cons.0 (
        (Perm.mem_iff (push-perm (expiry (write s.memory s.next (with_origin t))) s.pq s.next)).0 h)

    looked_up :
        (id : Text)
        → lookup id (add s t).tokens ≡ (if str_eq t.id id then some s.next else lookup id s.tokens)
    unfolding add
    looked_up id =
        lookup-insert (with_origin t).id id s.next s.tokens
        ∙ ap (λ k. if str_eq k id then some s.next else lookup id s.tokens) (with_origin_id t)

    -- Adding a token under an id that the map does not hold keeps the invariant: the map has one entry
    -- for each key, holds tokens under their own ids and at addresses in use, and maps the id of a
    -- queued token to that token; and every token that is not revoked waits in the heap.
    pub add-Inv : Inv (add s t)
    unfolding add
    add-Inv = record {
      keyed = insert-IsDict (with_origin t).id s.next s.tokens v.keyed;
      mapped = λ id a h. ground (arith, looked_up id, v.mapped id a);
      queued =
          λ a h. Or.elim le_prop (added a h) (λ e. omega arith) (λ m. omega (arith, v.queued a m));
      named = λ id a h.
          ground (
            arith,
            looked_up id,
            str_eq_iff t.id id,
            with_origin_id t,
            v.mapped id a,
            v.named id a,
          );
      aligned = λ a h.
          Or.elim (address_set _ _) (added a h)
            (λ e. ground (arith, looked_up t.id, str_eq_iff t.id t.id, with_origin_id t))
            (λ m. ground (
              arith,
              v.queued a m,
              v.aligned a m,
              looked_up (s.memory a).id,
              str_eq_iff t.id (s.memory a).id,
            ));
      tracked = λ id a h live.
          (Perm.mem_iff (push-perm (expiry (write s.memory s.next (with_origin t))) s.pq s.next)).1
            (elim (Bool-cases (str_eq t.id id)) [
              | inl e ↦ mem-cons.1 (Or.inl (ground (arith, looked_up id)))
              | inr e ↦ mem-cons.1 (
                  Or.inr (
                    v.tracked id a (ground (arith, looked_up id))
                      (ground (arith, looked_up id, v.mapped id a))))
            ]);
    }
