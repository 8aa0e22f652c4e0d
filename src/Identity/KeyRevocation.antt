-- ===== src/Identity/KeyRevocation.antt =====
-- `identity/keylife.go`: a node key is declared dead with no successor.
pub mod Wire
use sohocloud_protocol.Prelude.{ℕ, Bool, Option, some, List, false, ◌==◌, if◌then◌else◌, length}
use sohocloud_protocol.Identity.{NodeId}
use sohocloud_protocol.Prelude.Bytes.{codes, bytes_equal}
use sohocloud_protocol.Golang.Time.{Time}
use sohocloud_protocol.Golang.Ed25519.{Ed25519, public_key_size, sign as ed25519_sign}
use sohocloud_protocol.Canon
use sohocloud_protocol.Canon.{verify_sig}
use sohocloud_protocol.Canon.Codec.{◌>>=◌}

pub record KeyRevocation : Type 0 where
  pub node_id : NodeId
  pub revoked_public_key : List ℕ
  pub revoked_at : Time
  pub seq : ℕ
  pub signature : List ℕ

abbrev pub domain_revoke : List ℕ
domain_revoke = codes "sohocloud/node-revoke/v0"

unfoldable pub canonical_bytes : KeyRevocation → List ℕ
canonical_bytes k =
    let b = Canon.new domain_revoke in
    let b = Canon.string b k.node_id in
    let b = Canon.bytes b k.revoked_public_key in
    let b = Canon.time b k.revoked_at in let b = Canon.uint64 b k.seq in Canon.sum b

unfoldable pub sign : Ed25519 → List ℕ → KeyRevocation → Option KeyRevocation
sign c priv k = do
  sig ← ed25519_sign c priv (canonical_bytes k)
  some (record k { signature = sig })

-- The key is compared with the trusted one before the signature is read.
unfoldable pub verify : Ed25519 → List ℕ → KeyRevocation → Option Bool
verify c trusted_pub k =
    if length k.revoked_public_key == public_key_size
    then (if bytes_equal k.revoked_public_key trusted_pub
        then verify_sig c k.revoked_public_key (canonical_bytes k) k.signature
        else some false)
    else some false
