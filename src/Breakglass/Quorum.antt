-- ===== src/Breakglass/Quorum.antt =====
-- The approvals that the loop of Verify (breakglass/breakglass.go) counts.
use jit_access_broker.Prelude.{
  ℕ, ◌+◌, ◌≤◌, ◌≡◌, ◌≢◌, refl, sym, subst, Bool, true, none, some, List, [], ◌∷◌, ◌++◌, length,
  length-append, arith, In, inl, inr, ◌⊎◌, ◌↔◌, Bool-cases, Option-cases, Text, hex_decode,
  str_eq_iff, if◌then◌else◌,
}
use jit_access_broker.Prelude.Dict.{lookup, insert, lookup-insert}
use jit_access_broker.Breakglass.{
  ApprovalSignature, Tally, record_approval, is_valid_signature, count_signatures,
}

-- No text stands twice in the list.
abbrev pub Distinct : List Text → Type 0
Distinct [] = Unit {0}
Distinct (x ∷ l) = ¬ In x l × Distinct l

In-concat : (x y : Text) (l : List Text) → In x (l ++ y ∷ []) ↔ (In x l ⊎ (y ≡ x))
In-concat x y [] = ground arith
In-concat x y (z ∷ l) = let (down, up) = In-concat x y l in ground arith

Distinct-concat : (y : Text) (l : List Text) → ¬ In y l → Distinct l → Distinct (l ++ y ∷ [])
Distinct-concat y [] n d = (λ h. absurd h, tt)
Distinct-concat y (z ∷ l) n d =
    (λ h. ground (arith, (In-concat z y l).0 h), Distinct-concat y l (λ h. n (inr h)) d.1)

pub two_of_distinct : (x y : Text) (l : List Text) → In x l → In y l → x ≢ y → 2 ≤ length l
two_of_distinct x y [] hx hy n = absurd hx
two_of_distinct x y (z ∷ []) hx hy n = ground arith
two_of_distinct x y (z ∷ u ∷ l) hx hy n = omega arith

length-insert :
    {V : Type 0} (k : Text) (v : V) (m : List (Text × V))
    → lookup k m ≡ none
    → length (insert k v m) ≡ length m + 1
unfolding lookup insert
length-insert k v [] h = omega arith
length-insert k v ((j, u) ∷ m) h = ground (arith, length-insert k v m)

-- The map and the list of approvers agree.
pub record IsTally (t : Tally) : Type 0 where
  pub listed : (id : Text) → In id t.approver_list → lookup id t.verified ≡ some true
  pub known : (id : Text) (b : Bool) → lookup id t.verified ≡ some b → In id t.approver_list
  pub same_size : length t.verified ≡ length t.approver_list
  pub distinct : Distinct t.approver_list

-- An approver is recorded once: a known one changes nothing, a new one is added at the end.
module _ (t : Tally) (id : Text) (v : IsTally t) where
  record_known : In id t.approver_list → record_approval t id ≡ t
  unfolding record_approval
  record_known h = ground (arith, v.listed id h)

  abbrev grown : Tally
  grown = record {
    verified = insert id true t.verified;
    approver_list = t.approver_list ++ id ∷ [];
  }

  record_new : lookup id t.verified ≡ none → record_approval t id ≡ grown
  unfolding record_approval
  record_new h = ground arith

  grown-IsTally : lookup id t.verified ≡ none → IsTally grown
  grown-IsTally h = record {
    listed = λ x i. ground (
      arith,
      (In-concat x id t.approver_list).0 i,
      lookup-insert id x true t.verified,
      str_eq_iff id x,
      v.listed x,
    );
    known = λ x b e.
        (In-concat x id t.approver_list).1
          (ground (arith, lookup-insert id x true t.verified, str_eq_iff id x, v.known x b));
    same_size = omega (
      arith,
      length-insert id true t.verified h,
      length-append t.approver_list (id ∷ []),
      v.same_size,
    );
    distinct = Distinct-concat id t.approver_list (λ i. ground (arith, v.listed id i)) v.distinct;
  }

  record_approval-IsTally : IsTally (record_approval t id)
  record_approval-IsTally = elim (Option-cases (lookup id t.verified)) [
    | inl e ↦ subst IsTally (sym (record_new e)) (grown-IsTally e)
    | inr (b, e) ↦ subst IsTally (sym (record_known (v.known id b e))) v
  ]

  record_approval-In :
      (x : Text) → In x (record_approval t id).approver_list ↔ (In x t.approver_list ⊎ (id ≡ x))
  record_approval-In x = elim (Option-cases (lookup id t.verified)) [
    | inl e ↦
        subst (λ u. In x u.approver_list ↔ (In x t.approver_list ⊎ (id ≡ x))) (sym (record_new e))
          (In-concat x id t.approver_list)
    | inr (b, e) ↦
        let there = v.known id b e in
        subst (λ u. In x u.approver_list ↔ (In x t.approver_list ⊎ (id ≡ x)))
          (sym (record_known there))
          (
            λ i. inl i,
            λ i. elim i [ inl j ↦ j | inr q ↦ subst (λ y. In y t.approver_list) q there ],
          )
  ]

module _ (ed25519 : List ℕ → Text → List ℕ → Bool) (trusted : List (Text × Text))
    (message : Text) where
  -- A trusted approver's key verifies the signature over the message.
  abbrev pub IsApproval : ApprovalSignature → Type 0
  IsApproval sig =
      (key_hex : Text) × (lookup sig.approver_id trusted ≡ some key_hex)
      × (key : List ℕ) × (hex_decode key_hex ≡ some key)
      × (length key ≡ 32)
      × (bytes : List ℕ) × (hex_decode sig.signature ≡ some bytes)
      × (length bytes ≡ 64)
      × (ed25519 key message bytes ≡ true)

  -- The list holds an approval by this approver.
  abbrev pub SignedBy : Text → List ApprovalSignature → Type 0
  SignedBy id sigs =
      (sig : ApprovalSignature) × In sig sigs × (sig.approver_id ≡ id) × IsApproval sig

  valid→approval :
      (sig : ApprovalSignature)
      → is_valid_signature ed25519 trusted message sig ≡ true
      → IsApproval sig
  unfolding is_valid_signature
  valid→approval sig h = elim (Option-cases (lookup sig.approver_id trusted)) [
    | inl e ↦ ground arith
    | inr (key_hex, e) ↦ elim (Option-cases (hex_decode key_hex)) [
      | inl f ↦ ground arith
      | inr (key, f) ↦ elim (Option-cases (hex_decode sig.signature)) [
        | inl g ↦ ground arith
        | inr (bytes, g) ↦ (key_hex, e, key, f, ground arith, bytes, g, ground arith, ground arith)
      ]
    ]
  ]

  approval→valid :
      (sig : ApprovalSignature)
      → IsApproval sig
      → is_valid_signature ed25519 trusted message sig ≡ true
  unfolding is_valid_signature
  approval→valid sig h = ground arith

  -- One round of the loop.
  abbrev round : ApprovalSignature → Tally → Tally
  round sig t =
      if is_valid_signature ed25519 trusted message sig
      then record_approval t sig.approver_id
      else t

  round-IsTally : (sig : ApprovalSignature) (t : Tally) → IsTally t → IsTally (round sig t)
  round-IsTally sig t v = elim (Bool-cases (is_valid_signature ed25519 trusted message sig)) [
    | inl e ↦ rw e (record_approval-IsTally t sig.approver_id v)
    | inr e ↦ rw e v
  ]

  round-In :
      (sig : ApprovalSignature) (t : Tally) (id : Text)
      → IsTally t
      → In id (round sig t).approver_list
        ↔ (In id t.approver_list ⊎ ((sig.approver_id ≡ id) × IsApproval sig))
  round-In sig t id v = elim (Bool-cases (is_valid_signature ed25519 trusted message sig)) [
    | inl e ↦
        let (down, up) = record_approval-In t sig.approver_id v id in
        rw e (
          λ i. elim (down i) [ inl j ↦ inl j | inr q ↦ inr (q, valid→approval sig e) ],
          λ i. up (elim i [ inl j ↦ inl j | inr (q, _) ↦ inr q ]),
        )
    | inr e ↦
        rw e (λ i. inl i, λ i. elim i [ inl j ↦ j | inr (_, a) ↦ cc (e, approval→valid sig a) ])
  ]

  pub count-IsTally :
      (sigs : List ApprovalSignature) (t : Tally)
      → IsTally t
      → IsTally (count_signatures ed25519 trusted message sigs t)
  unfolding count_signatures
  count-IsTally [] t v = v
  count-IsTally (sig ∷ sigs) t v = count-IsTally sigs (round sig t) (round-IsTally sig t v)

  pub count-In :
      (sigs : List ApprovalSignature) (t : Tally) (id : Text)
      → IsTally t
      → In id (count_signatures ed25519 trusted message sigs t).approver_list
        ↔ (In id t.approver_list ⊎ SignedBy id sigs)
  unfolding count_signatures
  count-In [] t id v = (λ i. inl i, λ i. elim i [ inl j ↦ j | inr (_, j, _, _) ↦ absurd j ])
  count-In (sig ∷ sigs) t id v =
      let (down, up) = count-In sigs (round sig t) id (round-IsTally sig t v) in
      let (first, back) = round-In sig t id v in
      (
        λ i. elim (down i) [
          | inl j ↦ elim (first j) [ inl k ↦ inl k | inr (q, a) ↦ inr (sig, inl refl, q, a) ]
          | inr (other, j, q, a) ↦ inr (other, inr j, q, a)
        ],
        λ i. up (elim i [
          | inl j ↦ inl (back (inl j))
          | inr (other, inl same, q, a) ↦
              inl (back (inr (subst (λ o. (o.approver_id ≡ id) × IsApproval o) (sym same) (q, a))))
          | inr (other, inr j, q, a) ↦ inr (other, j, q, a)
        ]),
      )
