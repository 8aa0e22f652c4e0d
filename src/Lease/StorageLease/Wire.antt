-- ===== src/Lease/StorageLease/Wire.antt =====
-- The fields of a storage lease under the signature (SPEC.md §4.7) and their format.
use sohocloud_protocol.Prelude.{ℕ, List, ◌≡◌, append_assoc}
use sohocloud_protocol.Prelude.Int.{ℤ}
use sohocloud_protocol.Canon.{sum}
use sohocloud_protocol.Canon.Codec.{Codec, ◌⊗◌}
use sohocloud_protocol.Canon.Wire.{i64, text, u64, tagged}
use sohocloud_protocol.Canon.Append.{b-bytes, b-int64, b-new, b-string, b-time, b-uint64}
use sohocloud_protocol.Lease.StorageLease.{StorageLease, domain_lease, canonical_bytes}

abbrev pub Fields : Type 0
Fields = List ℕ × (List ℕ × (List ℕ × (ℤ × (ℤ × (ℤ × (ℤ × (ℤ × ℕ)))))))

abbrev pub fields : StorageLease → Fields
fields l = (
  l.lease_id,
  (
    l.node_id,
    (
      l.shard_ref,
      (
        l.size_class,
        (
          l.fee.contributor_share_bps,
          (l.fee.platform_fee_bps, (l.issued_at.nanos, (l.expires_at.nanos, l.seq))),
        ),
      ),
    ),
  ),
)

abbrev pub body : Codec Fields
body = text ⊗ text ⊗ text ⊗ i64 ⊗ i64 ⊗ i64 ⊗ i64 ⊗ i64 ⊗ u64

abbrev pub codec : Codec Fields
codec = tagged domain_lease body

pub canonical_bytes-codec :
    (l : StorageLease) → codec.Fits (fields l) → canonical_bytes l ≡ codec.encode (fields l)
unfolding canonical_bytes sum
canonical_bytes-codec l (tagged_fits, (h0, (h1, (h2, (_, (_, (_, (h6, (h7, _))))))))) = simp (
  b-uint64,
  b-time _ l.expires_at h7,
  b-time _ l.issued_at h6,
  b-int64,
  b-bytes _ l.shard_ref h2,
  b-string _ l.node_id h1,
  b-string _ l.lease_id h0,
  b-new domain_lease tagged_fits,
  append_assoc,
)
