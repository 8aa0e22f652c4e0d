-- ===== src/Lease/ProofResponse/Wire.antt =====
-- The fields of a proof response under the signature (SPEC.md §4.10) and their format.
use sohocloud_protocol.Prelude.{ℕ, List, ◌≡◌, append_assoc}
use sohocloud_protocol.Prelude.Int.{ℤ}
use sohocloud_protocol.Canon.{sum}
use sohocloud_protocol.Canon.Codec.{Codec, ◌⊗◌}
use sohocloud_protocol.Canon.Wire.{i64, text, tagged}
use sohocloud_protocol.Canon.Append.{b-bytes, b-int64, b-new, b-string, b-time}
use sohocloud_protocol.Lease.ProofResponse.{ProofResponse, domain_proof, canonical_bytes}

abbrev pub Fields : Type 0
Fields = List ℕ × (List ℕ × (ℤ × (ℤ × (List ℕ × (List ℕ × ℤ)))))

abbrev pub fields : ProofResponse → Fields
fields p =
    (p.lease_id, (p.node_id, (p.offset, (p.length, (p.nonce, (p.digest, p.responded_at.nanos))))))

abbrev pub body : Codec Fields
body = text ⊗ text ⊗ i64 ⊗ i64 ⊗ text ⊗ text ⊗ i64

abbrev pub codec : Codec Fields
codec = tagged domain_proof body

pub canonical_bytes-codec :
    (p : ProofResponse) → codec.Fits (fields p) → canonical_bytes p ≡ codec.encode (fields p)
unfolding canonical_bytes sum
canonical_bytes-codec p (tagged_fits, (h0, (h1, (_, (_, (h4, (h5, h6))))))) = simp (
  b-time _ p.responded_at h6,
  b-bytes _ p.digest h5,
  b-bytes _ p.nonce h4,
  b-int64,
  b-string _ p.node_id h1,
  b-string _ p.lease_id h0,
  b-new domain_proof tagged_fits,
  append_assoc,
)
