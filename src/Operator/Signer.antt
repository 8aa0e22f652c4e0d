-- ===== src/Operator/Signer.antt =====
-- `operator/signer.go`: the seam behind which the operator layer can change its signature primitive.
-- A result is an `Option` where the call may panic.
use sohocloud_protocol.Prelude.{ℕ, ◌≡◌, ◌==◌, ◌&&◌, Option, some, Bool, true, List, length, arith}
use sohocloud_protocol.Golang.Ed25519.{Ed25519, sign as ed25519_sign, verify as ed25519_verify}
use sohocloud_protocol.Operator.Keys.{verifier_verify}

pub record Signer : Type 0 where
  pub sign : List ℕ → Option (List ℕ)

pub record Verifier : Type 0 where
  pub verify : List ℕ → List ℕ → List ℕ → Option Bool

pub record Ed25519Signer : Type 0 where
  pub priv : List ℕ

unfoldable pub new_ed25519_signer : List ℕ → Ed25519Signer
new_ed25519_signer priv = record { priv = priv }

-- The methods of `Ed25519Signer` and of `Ed25519Verifier`.
unfoldable pub signer_sign : Ed25519 → Ed25519Signer → List ℕ → Option (List ℕ)
signer_sign c s msg = ed25519_sign c s.priv msg

unfoldable pub ed25519_signer : Ed25519 → Ed25519Signer → Signer
unfolding signer_sign
ed25519_signer c s = record { sign = signer_sign c s }

unfoldable pub ed25519_verifier : Ed25519 → Verifier
ed25519_verifier c = record { verify = verifier_verify c }

-- A pair that keeps to the seam: for one public key, what the signer signs, the verifier accepts, and
-- neither panics.
pub record IsPair (s : Signer) (v : Verifier) (pub_key : List ℕ) : Type 0 where
  pub signs :
      (msg : List ℕ)
      → (sig : List ℕ) × (s.sign msg ≡ some sig) × (v.verify pub_key msg sig ≡ some true)
  pub decides : (key msg sig : List ℕ) → (b : Bool) × (v.verify key msg sig ≡ some b)

-- A signer made from a private key of 64 bytes and the Ed25519 verifier keep to the seam for its
-- public key: every message gets a signature that the verifier accepts, and the verifier answers on
-- keys and signatures of every length.
pub new_ed25519_signer-IsPair :
    (c : Ed25519) (priv : List ℕ)
    → length priv ≡ 64
    → IsPair (ed25519_signer c (new_ed25519_signer priv)) (ed25519_verifier c) (c.public priv)
unfolding ed25519_signer ed25519_verifier signer_sign new_ed25519_signer ed25519_sign
    verifier_verify ed25519_verify
new_ed25519_signer-IsPair c priv h = record {
  signs = λ msg. (
    c.sign priv msg,
    ground (arith, h),
    ground (arith, c.length-public priv, c.length-sign priv msg, c.verify-sign priv msg),
  );
  decides = λ key msg sig.
      ((length key == 32) && (length sig == 64) && c.verify key msg sig, ground arith);
}
