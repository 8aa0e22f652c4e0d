-- ===== src/Lease/LeaseRelease/Wire.antt =====
-- The fields of a lease release under the signature (SPEC.md §4.9) and their format.
use sohocloud_protocol.Prelude.{ℕ, List, ◌≡◌, append_assoc}
use sohocloud_protocol.Prelude.Int.{ℤ}
use sohocloud_protocol.Canon.{sum}
use sohocloud_protocol.Canon.Codec.{Codec, ◌⊗◌}
use sohocloud_protocol.Canon.Wire.{i64, text, tagged}
use sohocloud_protocol.Canon.Append.{b-new, b-string, b-time}
use sohocloud_protocol.Lease.LeaseRelease.{LeaseRelease, domain_lease_release, canonical_bytes}

abbrev pub Fields : Type 0
Fields = List ℕ × (List ℕ × ℤ)

abbrev pub fields : LeaseRelease → Fields
fields r = (r.lease_id, (r.node_id, r.released_at.nanos))

abbrev pub body : Codec Fields
body = text ⊗ text ⊗ i64

abbrev pub codec : Codec Fields
codec = tagged domain_lease_release body

pub canonical_bytes-codec :
    (r : LeaseRelease) → codec.Fits (fields r) → canonical_bytes r ≡ codec.encode (fields r)
unfolding canonical_bytes sum
canonical_bytes-codec r (tagged_fits, (h0, (h1, h2))) = simp (
  b-time _ r.released_at h2,
  b-string _ r.node_id h1,
  b-string _ r.lease_id h0,
  b-new domain_lease_release tagged_fits,
  append_assoc,
)
