-- ===== src/Employment/JobReport.antt =====
-- `employment/employment.go`: a node's signed outcome of a job.
pub mod Wire
use sohocloud_protocol.Prelude.{ℕ, Bool, Option, some, List}
use sohocloud_protocol.Identity.{NodeId}
use sohocloud_protocol.Prelude.Int.{ℤ}
use sohocloud_protocol.Prelude.Bytes.{codes}
use sohocloud_protocol.Golang.Time.{Time}
use sohocloud_protocol.Golang.Ed25519.{Ed25519, sign as ed25519_sign}
use sohocloud_protocol.Canon
use sohocloud_protocol.Canon.{verify_sig}
use sohocloud_protocol.Canon.Codec.{◌>>=◌}

pub record JobReport : Type 0 where
  pub job_id : List ℕ
  pub node_id : NodeId
  pub exit_code : ℤ
  pub failure_cause : List ℕ
  pub tmpfs_exhausted : Bool
  pub started_at : Time
  pub finished_at : Time
  pub signature : List ℕ

abbrev pub domain_job_report : List ℕ
domain_job_report = codes "sohocloud/jobreport/v0"

unfoldable pub canonical_bytes : JobReport → List ℕ
canonical_bytes r =
    let b = Canon.new domain_job_report in
    let b = Canon.string b r.job_id in
    let b = Canon.string b r.node_id in
    let b = Canon.int64 b r.exit_code in
    let b = Canon.string b r.failure_cause in
    let b = Canon.bool b r.tmpfs_exhausted in
    let b = Canon.time b r.started_at in let b = Canon.time b r.finished_at in Canon.sum b

unfoldable pub sign : Ed25519 → List ℕ → JobReport → Option JobReport
sign c priv r = do
  sig ← ed25519_sign c priv (canonical_bytes r)
  some (record r { signature = sig })

unfoldable pub verify : Ed25519 → List ℕ → JobReport → Option Bool
verify c pub_key r = verify_sig c pub_key (canonical_bytes r) r.signature
