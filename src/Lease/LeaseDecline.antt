-- ===== src/Lease/LeaseDecline.antt =====
-- `lease/lease.go`: a node's signed refusal of an offered lease.
pub mod Wire
use sohocloud_protocol.Prelude.{ℕ, Bool, Option, some, List}
use sohocloud_protocol.Identity.{NodeId}
use sohocloud_protocol.Prelude.Bytes.{codes}
use sohocloud_protocol.Golang.Time.{Time}
use sohocloud_protocol.Golang.Ed25519.{Ed25519, sign as ed25519_sign}
use sohocloud_protocol.Canon
use sohocloud_protocol.Canon.{verify_sig}
use sohocloud_protocol.Canon.Codec.{◌>>=◌}

-- Why a node declines a lease: the vocabulary of jobs.
abbrev pub DeclineReason : Type 0
DeclineReason = List ℕ

abbrev pub decline_local_policy : DeclineReason
decline_local_policy = codes "local_policy"

abbrev pub decline_capacity : DeclineReason
decline_capacity = codes "capacity"

abbrev pub decline_unavailable : DeclineReason
decline_unavailable = codes "unavailable"

pub record LeaseDecline : Type 0 where
  pub lease_id : List ℕ
  pub node_id : NodeId
  pub reason : DeclineReason
  pub declined_at : Time
  pub signature : List ℕ

abbrev pub domain_lease_decline : List ℕ
domain_lease_decline = codes "sohocloud/lease-decline/v0"

unfoldable pub canonical_bytes : LeaseDecline → List ℕ
canonical_bytes d =
    let b = Canon.new domain_lease_decline in
    let b = Canon.string b d.lease_id in
    let b = Canon.string b d.node_id in
    let b = Canon.string b d.reason in let b = Canon.time b d.declined_at in Canon.sum b

unfoldable pub sign : Ed25519 → List ℕ → LeaseDecline → Option LeaseDecline
sign c priv d = do
  sig ← ed25519_sign c priv (canonical_bytes d)
  some (record d { signature = sig })

unfoldable pub verify : Ed25519 → List ℕ → LeaseDecline → Option Bool
verify c pub_key d = verify_sig c pub_key (canonical_bytes d) d.signature
