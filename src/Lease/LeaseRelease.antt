-- ===== src/Lease/LeaseRelease.antt =====
-- `lease/lease.go`: a node's signed early exit from a lease.
pub mod Wire
use sohocloud_protocol.Prelude.{ℕ, Bool, Option, some, List}
use sohocloud_protocol.Identity.{NodeId}
use sohocloud_protocol.Prelude.Bytes.{codes}
use sohocloud_protocol.Golang.Time.{Time}
use sohocloud_protocol.Golang.Ed25519.{Ed25519, sign as ed25519_sign}
use sohocloud_protocol.Canon
use sohocloud_protocol.Canon.{verify_sig}
use sohocloud_protocol.Canon.Codec.{◌>>=◌}

pub record LeaseRelease : Type 0 where
  pub lease_id : List ℕ
  pub node_id : NodeId
  pub released_at : Time
  pub signature : List ℕ

abbrev pub domain_lease_release : List ℕ
domain_lease_release = codes "sohocloud/lease-release/v0"

unfoldable pub canonical_bytes : LeaseRelease → List ℕ
canonical_bytes r =
    let b = Canon.new domain_lease_release in
    let b = Canon.string b r.lease_id in
    let b = Canon.string b r.node_id in let b = Canon.time b r.released_at in Canon.sum b

unfoldable pub sign : Ed25519 → List ℕ → LeaseRelease → Option LeaseRelease
sign c priv r = do
  sig ← ed25519_sign c priv (canonical_bytes r)
  some (record r { signature = sig })

unfoldable pub verify : Ed25519 → List ℕ → LeaseRelease → Option Bool
verify c pub_key r = verify_sig c pub_key (canonical_bytes r) r.signature
