-- ===== src/Fees/Wire.antt =====
-- The fields of a fee declaration under the signature (SPEC.md §4.6) and their format.
use sohocloud_protocol.Prelude.{ℕ, List, ◌≡◌, append_assoc}
use sohocloud_protocol.Prelude.Int.{ℤ}
use sohocloud_protocol.Canon.{sum}
use sohocloud_protocol.Canon.Codec.{Codec, ◌⊗◌}
use sohocloud_protocol.Canon.Wire.{i64, text, u64, tagged}
use sohocloud_protocol.Canon.Append.{b-int64, b-new, b-string, b-time, b-uint64}
use sohocloud_protocol.Fees.{FeeDeclaration, domain_fee, canonical_bytes}

abbrev pub Fields : Type 0
Fields = List ℕ × (ℤ × (ℤ × (ℤ × ℕ)))

abbrev pub fields : FeeDeclaration → Fields
fields f = (
  f.coordinator_id,
  (f.terms.contributor_share_bps, (f.terms.platform_fee_bps, (f.effective_at.nanos, f.seq))),
)

abbrev pub body : Codec Fields
body = text ⊗ i64 ⊗ i64 ⊗ i64 ⊗ u64

abbrev pub codec : Codec Fields
codec = tagged domain_fee body

pub canonical_bytes-codec :
    (f : FeeDeclaration) → codec.Fits (fields f) → canonical_bytes f ≡ codec.encode (fields f)
unfolding canonical_bytes sum
canonical_bytes-codec f (tagged_fits, (h0, (_, (_, (h3, _))))) = simp (
  b-uint64,
  b-time _ f.effective_at h3,
  b-int64,
  b-string _ f.coordinator_id h0,
  b-new domain_fee tagged_fits,
  append_assoc,
)
