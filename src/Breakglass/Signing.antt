-- ===== src/Breakglass/Signing.antt =====
-- The approver's side of breakglass/breakglass.go: GenerateKeyPair and SignMessage. Ed25519 is a
-- parameter: key generation, signing and verification.
use jit_access_broker.Prelude.{
  ℕ, ◌≡◌, ◌∙◌, ap, Bool, true, not, none, some, List, ◌++◌, ◌==◌, if◌then◌else◌, length, arith, inl,
  inr, Text, codes, decimal_ℕ, hex_encode, hex_decode,
}
use jit_access_broker.Prelude.Hex.{IsBytes, hex_decode-hex_encode}
use jit_access_broker.Prelude.Dict.{lookup}
use jit_access_broker.Providers.{Result, Result-cases, ok, err}
use jit_access_broker.Breakglass.{BreakGlassRequest, canonical_message, is_valid_signature}

-- crypto/ed25519: GenerateKey's public and private key, Sign and Verify.
pub record Ed25519 (W : Type 0) : Type 0 where
  pub generate_key : W → Result (List ℕ × List ℕ) × W
  pub sign : List ℕ → Text → List ℕ
  pub verify : List ℕ → Text → List ℕ → Bool

abbrev size_error : ℕ → Text
size_error n = codes "private key must be 64 bytes, got " ++ decimal_ℕ n

module _ {W : Type 0} (e : Ed25519 W) where
  -- SignMessage. `hex_error` is the message of hex.DecodeString for a text that it rejects.
  unfoldable pub sign_message : (Text → Text) → Text → BreakGlassRequest → Result Text
  sign_message hex_error priv_key_hex req = elim (hex_decode priv_key_hex) [
    | none ↦ err (codes "invalid private key hex: " ++ hex_error priv_key_hex)
    | some key ↦
        if not (length key == 64)
        then err (size_error (length key))
        else ok (hex_encode (e.sign key (canonical_message req)))
  ]

  -- GenerateKeyPair: the public and the private key.
  unfoldable pub generate_key_pair : W → Result (Text × Text) × W
  generate_key_pair w =
      let (keys, w') = e.generate_key w in
      elim keys [
        | err m ↦ (err m, w')
        | ok (public, private) ↦ (ok (hex_encode public, hex_encode private), w')
      ]

  -- What crypto/ed25519 documents of a pair that GenerateKey made: 32 and 64 bytes, and a signature of
  -- 64 bytes under the private key is one that the public key verifies.
  pub record IsSound : Type 0 where
    pub public_size : (w : W) (p q : List ℕ) → (e.generate_key w).0 ≡ ok (p, q) → length p ≡ 32
    pub private_size : (w : W) (p q : List ℕ) → (e.generate_key w).0 ≡ ok (p, q) → length q ≡ 64
    pub public_bytes : (w : W) (p q : List ℕ) → (e.generate_key w).0 ≡ ok (p, q) → IsBytes p
    pub private_bytes : (w : W) (p q : List ℕ) → (e.generate_key w).0 ≡ ok (p, q) → IsBytes q
    pub signature_size : (q : List ℕ) (message : Text) → length (e.sign q message) ≡ 64
    pub signature_bytes : (q : List ℕ) (message : Text) → IsBytes (e.sign q message)
    pub verified :
        (w : W) (p q : List ℕ) (message : Text)
        → (e.generate_key w).0 ≡ ok (p, q)
        → e.verify p message (e.sign q message) ≡ true

  -- An approval that an approver signs is one that Verify counts: with a key pair of GenerateKeyPair,
  -- SignMessage under the private key succeeds, and its result is a valid signature of that approver
  -- for the request under any trusted approvers that have the public key under the approver's id. The
  -- signature scheme is sound.
  pub is_valid_signature-sign_message :
      (hex_error : Text → Text) (w : W) (public private id : Text) (trusted : List (Text × Text))
      (req : BreakGlassRequest)
      → IsSound
      → (generate_key_pair w).0 ≡ ok (public, private)
      → lookup id trusted ≡ some public
      → (sig : Text) × (sign_message hex_error private req ≡ ok sig)
        × (is_valid_signature e.verify trusted
              (canonical_message req)
              (record { approver_id = id; signature = sig })
            ≡ true)
  unfolding generate_key_pair sign_message is_valid_signature
  is_valid_signature-sign_message hex_error w public private id trusted req s made known =
      elim (Result-cases (e.generate_key w).0) [
        | inr (m, g) ↦ absurd (ground arith)
        | inl ((p, q), g) ↦
            let message = canonical_message req in
            let sig = e.sign q message in
            let public_hex : public ≡ hex_encode p = ground arith in
            let private_hex : private ≡ hex_encode q = ground arith in
            let key = ap hex_decode public_hex ∙ hex_decode-hex_encode p (s.public_bytes w p q g) in
            let secret =
              ap hex_decode private_hex ∙ hex_decode-hex_encode q (s.private_bytes w p q g) in
            let read = hex_decode-hex_encode sig (s.signature_bytes q message) in
            (
              hex_encode sig,
              ground (arith, s.private_size w p q g),
              ground (
                arith,
                s.public_size w p q g,
                s.signature_size q message,
                s.verified w p q message g,
              ),
            )
      ]
