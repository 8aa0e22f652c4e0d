-- ===== src/Employment/JobReport/Wire.antt =====
-- The fields of a job report under the signature (SPEC.md §4.5) and their format.
use sohocloud_protocol.Prelude.{ℕ, List, Bool, ◌≡◌, append_assoc}
use sohocloud_protocol.Prelude.Int.{ℤ}
use sohocloud_protocol.Canon.{sum}
use sohocloud_protocol.Canon.Codec.{Codec, ◌⊗◌}
use sohocloud_protocol.Canon.Wire.{flag, i64, text, tagged}
use sohocloud_protocol.Canon.Append.{b-bool, b-int64, b-new, b-string, b-time}
use sohocloud_protocol.Employment.JobReport.{JobReport, domain_job_report, canonical_bytes}

abbrev pub Fields : Type 0
Fields = List ℕ × (List ℕ × (ℤ × (List ℕ × (Bool × (ℤ × ℤ)))))

abbrev pub fields : JobReport → Fields
fields r = (
  r.job_id,
  (
    r.node_id,
    (
      r.exit_code,
      (r.failure_cause, (r.tmpfs_exhausted, (r.started_at.nanos, r.finished_at.nanos))),
    ),
  ),
)

abbrev pub body : Codec Fields
body = text ⊗ text ⊗ i64 ⊗ text ⊗ flag ⊗ i64 ⊗ i64

abbrev pub codec : Codec Fields
codec = tagged domain_job_report body

pub canonical_bytes-codec :
    (r : JobReport) → codec.Fits (fields r) → canonical_bytes r ≡ codec.encode (fields r)
unfolding canonical_bytes sum
canonical_bytes-codec r (tagged_fits, (h0, (h1, (_, (h3, (_, (h5, h6))))))) = simp (
  b-time _ r.finished_at h6,
  b-time _ r.started_at h5,
  b-bool,
  b-string _ r.failure_cause h3,
  b-int64,
  b-string _ r.node_id h1,
  b-string _ r.job_id h0,
  b-new domain_job_report tagged_fits,
  append_assoc,
)
