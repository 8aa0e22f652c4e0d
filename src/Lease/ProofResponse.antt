-- ===== src/Lease/ProofResponse.antt =====
-- `lease/lease.go`: a node's signed answer to a challenge. `nonce` has 16 bytes and `digest` 32.
pub mod Wire
use sohocloud_protocol.Prelude.{ℕ, Bool, Option, some, List, length}
use sohocloud_protocol.Identity.{NodeId}
use sohocloud_protocol.Prelude.Int.{ℤ}
use sohocloud_protocol.Prelude.Bytes.{codes}
use sohocloud_protocol.Golang.Time.{Time}
use sohocloud_protocol.Golang.Ed25519.{Ed25519, sign as ed25519_sign}
use sohocloud_protocol.Canon
use sohocloud_protocol.Canon.{verify_sig}
use sohocloud_protocol.Canon.Codec.{◌>>=◌}

pub record ProofResponse : Type 0 where
  pub lease_id : List ℕ
  pub node_id : NodeId
  pub offset : ℤ
  pub length : ℤ
  pub nonce : List ℕ
  pub digest : List ℕ
  pub responded_at : Time
  pub signature : List ℕ

abbrev pub domain_proof : List ℕ
domain_proof = codes "sohocloud/proof/v0"

unfoldable pub canonical_bytes : ProofResponse → List ℕ
canonical_bytes p =
    let b = Canon.new domain_proof in
    let b = Canon.string b p.lease_id in
    let b = Canon.string b p.node_id in
    let b = Canon.int64 b p.offset in
    let b = Canon.int64 b p.length in
    let b = Canon.bytes b p.nonce in
    let b = Canon.bytes b p.digest in let b = Canon.time b p.responded_at in Canon.sum b

unfoldable pub sign : Ed25519 → List ℕ → ProofResponse → Option ProofResponse
sign c priv p = do
  sig ← ed25519_sign c priv (canonical_bytes p)
  some (record p { signature = sig })

unfoldable pub verify : Ed25519 → List ℕ → ProofResponse → Option Bool
verify c pub_key p = verify_sig c pub_key (canonical_bytes p) p.signature
