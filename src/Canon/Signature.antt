-- ===== src/Canon/Signature.antt =====
-- `VerifySig` in full, and what a signature by `ed25519.Sign` gives.
use sohocloud_protocol.Prelude.{ℕ, ◌≡◌, ◌≢◌, ◌↔◌, List, none, some, true, length, arith}
use sohocloud_protocol.Golang.Ed25519.{Ed25519, sign as ed25519_sign, verify as ed25519_verify}
use sohocloud_protocol.Canon.{verify_sig}

-- A key and a signature of the right size that `ed25519.Verify` accepts.
pub record Valid (c : Ed25519) (key msg sig : List ℕ) : Type 0 where
  pub key_sized : length key ≡ 32
  pub sig_sized : length sig ≡ 64
  pub verified : c.verify key msg sig ≡ true

module _ (c : Ed25519) (key msg sig : List ℕ) where
  -- The check returns on keys and signatures of every length.
  pub verify_sig-ne-none : verify_sig c key msg sig ≢ none
  unfolding verify_sig ed25519_verify
  verify_sig-ne-none h = ground arith

  pub verify_sig_iff : (verify_sig c key msg sig ≡ some true) ↔ Valid c key msg sig
  unfolding verify_sig ed25519_verify
  verify_sig_iff = (λ h. ground arith, λ v. ground arith)

module _ (c : Ed25519) (priv msg sig : List ℕ) where
  pub sign-Valid : ed25519_sign c priv msg ≡ some sig → Valid c (c.public priv) msg sig
  unfolding ed25519_sign
  sign-Valid h =
      ground (arith, c.length-public priv, c.length-sign priv msg, c.verify-sign priv msg)

  pub length_of_sign : ed25519_sign c priv msg ≡ some sig → length priv ≡ 64
  unfolding ed25519_sign
  length_of_sign h = ground arith
