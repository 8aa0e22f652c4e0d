-- ===== src/Identity/KeyRotation.antt =====
-- `identity/keylife.go`: a node names the successor of its key.
pub mod Wire
use sohocloud_protocol.Prelude.{ℕ, Bool, Option, some, List, false, ◌==◌, if◌then◌else◌, length}
use sohocloud_protocol.Identity.{NodeId}
use sohocloud_protocol.Prelude.Bytes.{codes, bytes_equal}
use sohocloud_protocol.Golang.Time.{Time}
use sohocloud_protocol.Golang.Ed25519.{Ed25519, public_key_size, sign as ed25519_sign}
use sohocloud_protocol.Canon
use sohocloud_protocol.Canon.{verify_sig}
use sohocloud_protocol.Canon.Codec.{◌>>=◌}

pub record KeyRotation : Type 0 where
  pub node_id : NodeId
  pub new_public_key : List ℕ
  pub algo : List ℕ
  pub rotated_at : Time
  pub seq : ℕ
  pub signature : List ℕ

abbrev pub domain_rotate : List ℕ
domain_rotate = codes "sohocloud/node-rotate/v0"

unfoldable pub canonical_bytes : KeyRotation → List ℕ
canonical_bytes k =
    let b = Canon.new domain_rotate in
    let b = Canon.string b k.node_id in
    let b = Canon.bytes b k.new_public_key in
    let b = Canon.string b k.algo in
    let b = Canon.time b k.rotated_at in let b = Canon.uint64 b k.seq in Canon.sum b

unfoldable pub sign : Ed25519 → List ℕ → KeyRotation → Option KeyRotation
sign c priv k = do
  sig ← ed25519_sign c priv (canonical_bytes k)
  some (record k { signature = sig })

-- The successor is checked first: `&&` reads the signature only for a well-formed one.
unfoldable pub verify : Ed25519 → List ℕ → KeyRotation → Option Bool
verify c current_pub k =
    if bytes_equal k.algo (codes "ed25519")
    then (if length k.new_public_key == public_key_size
        then verify_sig c current_pub (canonical_bytes k) k.signature
        else some false)
    else some false
