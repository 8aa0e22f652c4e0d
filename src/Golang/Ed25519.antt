-- ===== src/Golang/Ed25519.antt =====
-- `crypto/ed25519` as an interface: the functions on keys of the right size, with the laws that Go
-- documents, and the panics of Go's `Sign` and `Verify` on keys of the wrong size.
use sohocloud_protocol.Prelude.{
  ℕ, ◌≡◌, Bool, true, Option, none, some, List, ◌==◌, if◌then◌else◌, length,
}

abbrev pub public_key_size : ℕ
public_key_size = 32

abbrev pub private_key_size : ℕ
private_key_size = 64

abbrev pub signature_size : ℕ
signature_size = 64

pub record Ed25519 : Type 0 where
  pub public : List ℕ → List ℕ
  pub sign : List ℕ → List ℕ → List ℕ
  pub verify : List ℕ → List ℕ → List ℕ → Bool
  pub length-public : (key : List ℕ) → length (public key) ≡ 32
  pub length-sign : (key msg : List ℕ) → length (sign key msg) ≡ 64
  pub verify-sign : (key msg : List ℕ) → verify (public key) msg (sign key msg) ≡ true

-- A signature binds its message if the key accepts it for no other message.
abbrev pub Binds : Ed25519 → List ℕ → List ℕ → Type 0
Binds c key sig = (m m' : List ℕ) → c.verify key m sig ≡ true → c.verify key m' sig ≡ true → m ≡ m'

-- `ed25519.Sign`: `none` is the panic on a private key of the wrong size.
unfoldable pub sign : Ed25519 → List ℕ → List ℕ → Option (List ℕ)
sign c key msg = if length key == private_key_size then some (c.sign key msg) else none

-- `ed25519.Verify`: `none` is the panic on a public key of the wrong size.
unfoldable pub verify : Ed25519 → List ℕ → List ℕ → List ℕ → Option Bool
verify c key msg sig = if length key == public_key_size then some (c.verify key msg sig) else none
