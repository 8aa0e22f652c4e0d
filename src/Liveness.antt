-- ===== src/Liveness.antt =====
-- `liveness/liveness.go`: a node's signed liveness signal.
pub mod Wire
use sohocloud_protocol.Prelude.{ℕ, Bool, Option, some, List}
use sohocloud_protocol.Identity.{NodeId}
use sohocloud_protocol.Prelude.Bytes.{codes}
use sohocloud_protocol.Golang.Time.{Time}
use sohocloud_protocol.Golang.Ed25519.{Ed25519, sign as ed25519_sign}
use sohocloud_protocol.Canon
use sohocloud_protocol.Canon.{verify_sig}
use sohocloud_protocol.Canon.Codec.{◌>>=◌}

pub record Heartbeat : Type 0 where
  pub node_id : NodeId
  pub sent_at : Time
  pub seq : ℕ
  pub signature : List ℕ

abbrev pub domain_heartbeat : List ℕ
domain_heartbeat = codes "sohocloud/heartbeat/v0"

unfoldable pub canonical_bytes : Heartbeat → List ℕ
canonical_bytes h =
    let b = Canon.new domain_heartbeat in
    let b = Canon.string b h.node_id in
    let b = Canon.time b h.sent_at in let b = Canon.uint64 b h.seq in Canon.sum b

unfoldable pub sign : Ed25519 → List ℕ → Heartbeat → Option Heartbeat
sign c priv h = do
  sig ← ed25519_sign c priv (canonical_bytes h)
  some (record h { signature = sig })

unfoldable pub verify : Ed25519 → List ℕ → Heartbeat → Option Bool
verify c pub_key h = verify_sig c pub_key (canonical_bytes h) h.signature
