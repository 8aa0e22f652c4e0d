-- ===== src/Operator/Rotation/Wire.antt =====
-- The fields of a rotation under the signature (SPEC.md §11.2) and their format.
use sohocloud_protocol.Prelude.{ℕ, List, ◌≡◌, append_assoc}
use sohocloud_protocol.Prelude.Int.{ℤ}
use sohocloud_protocol.Canon.{sum}
use sohocloud_protocol.Canon.Codec.{Codec, ◌⊗◌}
use sohocloud_protocol.Canon.Wire.{i64, text, u64, tagged}
use sohocloud_protocol.Canon.Append.{b-bytes, b-int64, b-new, b-string, b-uint64}
use sohocloud_protocol.Operator.Rotation.{OperatorRotation, domain_rotation, canonical_bytes}

abbrev pub Fields : Type 0
Fields = List ℕ × (ℤ × (List ℕ × (List ℕ × (ℤ × (List ℕ × (ℕ × (ℤ × ℤ)))))))

abbrev pub fields : OperatorRotation → Fields
fields r = (
  r.operator_id,
  (
    r.key_index,
    (r.new_public_key, (r.algo, (r.ts_unix_nano, (r.nonce, (r.seq, (r.idx0, r.idx1)))))),
  ),
)

abbrev pub body : Codec Fields
body = text ⊗ i64 ⊗ text ⊗ text ⊗ i64 ⊗ text ⊗ u64 ⊗ i64 ⊗ i64

abbrev pub codec : Codec Fields
codec = tagged domain_rotation body

pub canonical_bytes-codec :
    (r : OperatorRotation) → codec.Fits (fields r) → canonical_bytes r ≡ codec.encode (fields r)
unfolding canonical_bytes sum
canonical_bytes-codec r (tagged_fits, (h0, (_, (h2, (h3, (_, (h5, (_, (_, _))))))))) = simp (
  b-uint64,
  b-bytes _ r.nonce h5,
  b-int64,
  b-string _ r.algo h3,
  b-bytes _ r.new_public_key h2,
  b-string _ r.operator_id h0,
  b-new domain_rotation tagged_fits,
  append_assoc,
)
