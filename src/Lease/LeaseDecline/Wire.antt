-- ===== src/Lease/LeaseDecline/Wire.antt =====
-- The fields of a lease decline under the signature (SPEC.md §4.8) and their format.
use sohocloud_protocol.Prelude.{ℕ, List, ◌≡◌, append_assoc}
use sohocloud_protocol.Prelude.Int.{ℤ}
use sohocloud_protocol.Canon.{sum}
use sohocloud_protocol.Canon.Codec.{Codec, ◌⊗◌}
use sohocloud_protocol.Canon.Wire.{i64, text, tagged}
use sohocloud_protocol.Canon.Append.{b-new, b-string, b-time}
use sohocloud_protocol.Lease.LeaseDecline.{LeaseDecline, domain_lease_decline, canonical_bytes}

abbrev pub Fields : Type 0
Fields = List ℕ × (List ℕ × (List ℕ × ℤ))

abbrev pub fields : LeaseDecline → Fields
fields d = (d.lease_id, (d.node_id, (d.reason, d.declined_at.nanos)))

abbrev pub body : Codec Fields
body = text ⊗ text ⊗ text ⊗ i64

abbrev pub codec : Codec Fields
codec = tagged domain_lease_decline body

pub canonical_bytes-codec :
    (d : LeaseDecline) → codec.Fits (fields d) → canonical_bytes d ≡ codec.encode (fields d)
unfolding canonical_bytes sum
canonical_bytes-codec d (tagged_fits, (h0, (h1, (h2, h3)))) = simp (
  b-time _ d.declined_at h3,
  b-string _ d.reason h2,
  b-string _ d.node_id h1,
  b-string _ d.lease_id h0,
  b-new domain_lease_decline tagged_fits,
  append_assoc,
)
