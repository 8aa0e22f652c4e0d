-- ===== src/Liveness/Wire.antt =====
-- The fields of a heartbeat under the signature (SPEC.md §4.2) and their format.
use sohocloud_protocol.Prelude.{ℕ, List, ◌≡◌, append_assoc}
use sohocloud_protocol.Prelude.Int.{ℤ}
use sohocloud_protocol.Canon.{sum}
use sohocloud_protocol.Canon.Codec.{Codec, ◌⊗◌}
use sohocloud_protocol.Canon.Wire.{i64, text, u64, tagged}
use sohocloud_protocol.Canon.Append.{b-new, b-string, b-time, b-uint64}
use sohocloud_protocol.Liveness.{Heartbeat, domain_heartbeat, canonical_bytes}

abbrev pub Fields : Type 0
Fields = List ℕ × (ℤ × ℕ)

abbrev pub fields : Heartbeat → Fields
fields h = (h.node_id, (h.sent_at.nanos, h.seq))

abbrev pub body : Codec Fields
body = text ⊗ i64 ⊗ u64

abbrev pub codec : Codec Fields
codec = tagged domain_heartbeat body

pub canonical_bytes-codec :
    (h : Heartbeat) → codec.Fits (fields h) → canonical_bytes h ≡ codec.encode (fields h)
unfolding canonical_bytes sum
canonical_bytes-codec h (tagged_fits, (h0, (h1, _))) = simp (
  b-uint64,
  b-time _ h.sent_at h1,
  b-string _ h.node_id h0,
  b-new domain_heartbeat tagged_fits,
  append_assoc,
)
