-- ===== src/Identity/KeyRotation/Wire.antt =====
-- The fields of a key rotation under the signature (SPEC.md §4.11) and their format.
use sohocloud_protocol.Prelude.{ℕ, List, ◌≡◌, append_assoc}
use sohocloud_protocol.Prelude.Int.{ℤ}
use sohocloud_protocol.Canon.{sum}
use sohocloud_protocol.Canon.Codec.{Codec, ◌⊗◌}
use sohocloud_protocol.Canon.Wire.{i64, text, u64, tagged}
use sohocloud_protocol.Canon.Append.{b-bytes, b-new, b-string, b-time, b-uint64}
use sohocloud_protocol.Identity.KeyRotation.{KeyRotation, domain_rotate, canonical_bytes}

abbrev pub Fields : Type 0
Fields = List ℕ × (List ℕ × (List ℕ × (ℤ × ℕ)))

abbrev pub fields : KeyRotation → Fields
fields k = (k.node_id, (k.new_public_key, (k.algo, (k.rotated_at.nanos, k.seq))))

abbrev pub body : Codec Fields
body = text ⊗ text ⊗ text ⊗ i64 ⊗ u64

abbrev pub codec : Codec Fields
codec = tagged domain_rotate body

pub canonical_bytes-codec :
    (k : KeyRotation) → codec.Fits (fields k) → canonical_bytes k ≡ codec.encode (fields k)
unfolding canonical_bytes sum
canonical_bytes-codec k (tagged_fits, (h0, (h1, (h2, (h3, _))))) = simp (
  b-uint64,
  b-time _ k.rotated_at h3,
  b-string _ k.algo h2,
  b-bytes _ k.new_public_key h1,
  b-string _ k.node_id h0,
  b-new domain_rotate tagged_fits,
  append_assoc,
)
