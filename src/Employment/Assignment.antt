-- ===== src/Employment/Assignment.antt =====
-- `employment/employment.go`: a coordinator's signed offer of a job to a node.
pub mod Wire
use sohocloud_protocol.Prelude.{ℕ, Bool, Option, some, List, [], ◌∷◌, length}
use sohocloud_protocol.Identity.{NodeId}
use sohocloud_protocol.Prelude.Int.{ℤ, pos}
use sohocloud_protocol.Prelude.Bytes.{codes}
use sohocloud_protocol.Golang.Time.{Time}
use sohocloud_protocol.Golang.Ed25519.{Ed25519, sign as ed25519_sign}
use sohocloud_protocol.Canon
use sohocloud_protocol.Canon.{verify_sig, Buffer}
use sohocloud_protocol.Canon.Codec.{◌>>=◌}
use sohocloud_protocol.Fees.{Terms}

pub record JobSpec : Type 0 where
  pub workload : List ℕ
  pub image : List ℕ
  pub args : List (List ℕ)
  pub printer_kind : List ℕ
  pub gpu_api : List ℕ
  pub gpu_min_vram_mb : ℤ

pub record Assignment : Type 0 where
  pub job_id : List ℕ
  pub node_id : NodeId
  pub spec : JobSpec
  pub fee : Terms
  pub offered_at : Time
  pub signature : List ℕ

abbrev pub domain_assignment : List ℕ
domain_assignment = codes "sohocloud/assignment/v0"

-- The loop over `a.Spec.Args`.
unfoldable pub put_args : Buffer → List (List ℕ) → Buffer
put_args b [] = b
put_args b (arg ∷ args) = let b = Canon.string b arg in put_args b args

unfoldable pub canonical_bytes : Assignment → List ℕ
canonical_bytes a =
    let b = Canon.new domain_assignment in
    let b = Canon.string b a.job_id in
    let b = Canon.string b a.node_id in
    let b = Canon.string b a.spec.workload in
    let b = Canon.string b a.spec.image in
    let b = Canon.count b (pos (length a.spec.args)) in
    let b = put_args b a.spec.args in
    let b = Canon.string b a.spec.printer_kind in
    let b = Canon.string b a.spec.gpu_api in
    let b = Canon.int64 b a.spec.gpu_min_vram_mb in
    let b = Canon.int64 b a.fee.contributor_share_bps in
    let b = Canon.int64 b a.fee.platform_fee_bps in let b = Canon.time b a.offered_at in Canon.sum b

unfoldable pub sign : Ed25519 → List ℕ → Assignment → Option Assignment
sign c priv a = do
  sig ← ed25519_sign c priv (canonical_bytes a)
  some (record a { signature = sig })

unfoldable pub verify : Ed25519 → List ℕ → Assignment → Option Bool
verify c pub_key a = verify_sig c pub_key (canonical_bytes a) a.signature
