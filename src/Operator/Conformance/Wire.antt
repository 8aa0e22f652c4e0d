-- ===== src/Operator/Conformance/Wire.antt =====
-- The fields of a conformance response under the signature (SPEC.md §11.3) and their format.
use sohocloud_protocol.Prelude.{ℕ, List, ◌≡◌, append_assoc}
use sohocloud_protocol.Prelude.Int.{ℤ}
use sohocloud_protocol.Canon.{sum}
use sohocloud_protocol.Canon.Codec.{Codec, ◌⊗◌}
use sohocloud_protocol.Canon.Wire.{i64, text, tagged}
use sohocloud_protocol.Canon.Append.{b-bytes, b-new, b-string, b-uint64}
use sohocloud_protocol.Operator.Conformance.{
  ConformanceResponse, domain_conformance, canonical_bytes,
}

abbrev pub Fields : Type 0
Fields = List ℕ × (List ℕ × (List ℕ × (ℤ × ℤ)))

abbrev pub fields : ConformanceResponse → Fields
fields r = (r.operator_id, (r.challenge, (r.algo, (r.idx0, r.idx1))))

abbrev pub body : Codec Fields
body = text ⊗ text ⊗ text ⊗ i64 ⊗ i64

abbrev pub codec : Codec Fields
codec = tagged domain_conformance body

pub canonical_bytes-codec :
    (r : ConformanceResponse) → codec.Fits (fields r) → canonical_bytes r ≡ codec.encode (fields r)
unfolding canonical_bytes sum
canonical_bytes-codec r (tagged_fits, (h0, (h1, (h2, (_, _))))) = simp (
  b-uint64,
  b-string _ r.algo h2,
  b-bytes _ r.challenge h1,
  b-string _ r.operator_id h0,
  b-new domain_conformance tagged_fits,
  append_assoc,
)
