-- ===== src/Lease/StorageLease.antt =====
-- `lease/lease.go`: a coordinator's signed offer of a storage lease. `shard_ref` has 32 bytes.
pub mod Wire
use sohocloud_protocol.Prelude.{ℕ, Bool, Option, some, List}
use sohocloud_protocol.Identity.{NodeId}
use sohocloud_protocol.Prelude.Int.{ℤ}
use sohocloud_protocol.Prelude.Bytes.{codes}
use sohocloud_protocol.Golang.Time.{Time}
use sohocloud_protocol.Golang.Ed25519.{Ed25519, sign as ed25519_sign}
use sohocloud_protocol.Canon
use sohocloud_protocol.Canon.{verify_sig}
use sohocloud_protocol.Canon.Codec.{◌>>=◌}
use sohocloud_protocol.Fees.{Terms}

-- An agreed class of sizes, an `int64`. The protocol does not list them.
abbrev pub SizeClass : Type 0
SizeClass = ℤ

pub record StorageLease : Type 0 where
  pub lease_id : List ℕ
  pub node_id : NodeId
  pub shard_ref : List ℕ
  pub size_class : SizeClass
  pub fee : Terms
  pub issued_at : Time
  pub expires_at : Time
  pub seq : ℕ
  pub signature : List ℕ

abbrev pub domain_lease : List ℕ
domain_lease = codes "sohocloud/lease/v0"

unfoldable pub canonical_bytes : StorageLease → List ℕ
canonical_bytes l =
    let b = Canon.new domain_lease in
    let b = Canon.string b l.lease_id in
    let b = Canon.string b l.node_id in
    let b = Canon.bytes b l.shard_ref in
    let b = Canon.int64 b l.size_class in
    let b = Canon.int64 b l.fee.contributor_share_bps in
    let b = Canon.int64 b l.fee.platform_fee_bps in
    let b = Canon.time b l.issued_at in
    let b = Canon.time b l.expires_at in let b = Canon.uint64 b l.seq in Canon.sum b

unfoldable pub sign : Ed25519 → List ℕ → StorageLease → Option StorageLease
sign c priv l = do
  sig ← ed25519_sign c priv (canonical_bytes l)
  some (record l { signature = sig })

unfoldable pub verify : Ed25519 → List ℕ → StorageLease → Option Bool
verify c pub_key l = verify_sig c pub_key (canonical_bytes l) l.signature
