-- ===== src/Operator/Transmission/Wire.antt =====
-- The fields of a transmission under the signature (SPEC.md §11.1) and their format.
use sohocloud_protocol.Prelude.{ℕ, List, ◌≡◌, append_assoc}
use sohocloud_protocol.Prelude.Int.{ℤ}
use sohocloud_protocol.Canon.{sum}
use sohocloud_protocol.Canon.Codec.{Codec, ◌⊗◌}
use sohocloud_protocol.Canon.Wire.{i64, text, u64, tagged}
use sohocloud_protocol.Canon.Append.{b-bytes, b-int64, b-new, b-string, b-uint64}
use sohocloud_protocol.Operator.Transmission.{
  OperatorTransmission, domain_transmission, canonical_bytes,
}

abbrev pub Fields : Type 0
Fields = List ℕ × (ℤ × (List ℕ × (ℕ × (List ℕ × (ℤ × ℤ)))))

abbrev pub fields : OperatorTransmission → Fields
fields t = (t.operator_id, (t.ts_unix_nano, (t.nonce, (t.seq, (t.algo, (t.idx0, t.idx1))))))

abbrev pub body : Codec Fields
body = text ⊗ i64 ⊗ text ⊗ u64 ⊗ text ⊗ i64 ⊗ i64

abbrev pub codec : Codec Fields
codec = tagged domain_transmission body

pub canonical_bytes-codec :
    (t : OperatorTransmission) → codec.Fits (fields t) → canonical_bytes t ≡ codec.encode (fields t)
unfolding canonical_bytes sum
canonical_bytes-codec t (tagged_fits, (h0, (_, (h2, (_, (h4, (_, _))))))) = simp (
  b-uint64,
  b-string _ t.algo h4,
  b-bytes _ t.nonce h2,
  b-int64,
  b-string _ t.operator_id h0,
  b-new domain_transmission tagged_fits,
  append_assoc,
)
