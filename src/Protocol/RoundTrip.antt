-- ===== src/Protocol/RoundTrip.antt =====
-- The canonical bytes of every message can be read back.
use sohocloud_protocol.Prelude.{
  ℕ, ◌≡◌, refl, sym, ap, ◌∙◌, ◌↔◌, List, [], ◌++◌, append_assoc, Option, some, length,
}
use sohocloud_protocol.Prelude.Int.{IsU64}
use sohocloud_protocol.Prelude.Bytes.{bytes_equal}
use sohocloud_protocol.Canon.Codec.{Codec}
use sohocloud_protocol.Canon.Wire.{text_encode, text_decode-encode}
use sohocloud_protocol.Protocol.{
  CoreMessage, Message, core, core_bytes, signing_bytes, listing, heartbeat, assignment, decline,
  job_report, fee, storage_lease, lease_decline, lease_release, proof, rotate, revoke, transmission,
  rotation, conformance,
}
use sohocloud_protocol.Protocol.Reader.{
  View, core_view, view, IsCoreEncodable, IsEncodable, read_fields, readers, find_reader, read,
  write, listing_fields, heartbeat_fields, assignment_fields, decline_fields, job_report_fields,
  fee_fields, storage_lease_fields, lease_decline_fields, lease_release_fields, proof_fields,
  rotate_fields, revoke_fields, transmission_fields, rotation_fields, conformance_fields,
}
use sohocloud_protocol.Listing.{domain_listing}
use sohocloud_protocol.Liveness.{domain_heartbeat}
use sohocloud_protocol.Employment.Assignment.{domain_assignment}
use sohocloud_protocol.Employment.Decline.{domain_decline}
use sohocloud_protocol.Employment.JobReport.{domain_job_report}
use sohocloud_protocol.Fees.{domain_fee}
use sohocloud_protocol.Lease.StorageLease.{domain_lease}
use sohocloud_protocol.Lease.LeaseDecline.{domain_lease_decline}
use sohocloud_protocol.Lease.LeaseRelease.{domain_lease_release}
use sohocloud_protocol.Lease.ProofResponse.{domain_proof}
use sohocloud_protocol.Identity.KeyRotation.{domain_rotate}
use sohocloud_protocol.Identity.KeyRevocation.{domain_revoke}
use sohocloud_protocol.Operator.Transmission.{domain_transmission}
use sohocloud_protocol.Operator.Rotation.{domain_rotation}
use sohocloud_protocol.Operator.Conformance.{domain_conformance}
use sohocloud_protocol.Listing.Wire as ListingWire
use sohocloud_protocol.Liveness.Wire as LivenessWire
use sohocloud_protocol.Employment.Assignment.Wire as AssignmentWire
use sohocloud_protocol.Employment.Decline.Wire as DeclineWire
use sohocloud_protocol.Employment.JobReport.Wire as JobReportWire
use sohocloud_protocol.Fees.Wire as FeesWire
use sohocloud_protocol.Lease.StorageLease.Wire as StorageLeaseWire
use sohocloud_protocol.Lease.LeaseDecline.Wire as LeaseDeclineWire
use sohocloud_protocol.Lease.LeaseRelease.Wire as LeaseReleaseWire
use sohocloud_protocol.Lease.ProofResponse.Wire as ProofResponseWire
use sohocloud_protocol.Identity.KeyRotation.Wire as KeyRotationWire
use sohocloud_protocol.Identity.KeyRevocation.Wire as KeyRevocationWire
use sohocloud_protocol.Operator.Transmission.Wire as TransmissionWire
use sohocloud_protocol.Operator.Rotation.Wire as RotationWire
use sohocloud_protocol.Operator.Conformance.Wire as ConformanceWire

-- Behind its tag a body is read by the reader that the table gives for the tag.
read-tagged :
    {A : Type 0} (tag : List ℕ) (c : Codec A) (v : A → View) (a : A) (rest : List ℕ)
    → IsU64 (length tag)
    → c.Fits a
    → find_reader tag readers ≡ some (read_fields c v)
    → read ((text_encode tag ++ c.encode a) ++ rest) ≡ some (v a, rest)
unfolding read
read-tagged tag c v a rest t h e =
    rw append_assoc
      (rw (text_decode-encode tag (c.encode a ++ rest) t) (rw e (rw (c.decode-encode a rest h))))

core_round_trip :
    (m : CoreMessage) (rest : List ℕ)
    → IsCoreEncodable m
    → read (core_bytes m ++ rest) ≡ some (core_view m, rest)
unfolding core_bytes core_view readers find_reader bytes_equal
core_round_trip (listing m) rest h = rw (ListingWire.canonical_bytes-codec m h) (
    read-tagged domain_listing ListingWire.body listing_fields (ListingWire.fields m) rest h.0 h.1
      refl)
core_round_trip (heartbeat m) rest h = rw (LivenessWire.canonical_bytes-codec m h) (
    read-tagged domain_heartbeat LivenessWire.body heartbeat_fields (LivenessWire.fields m) rest h.0
      h.1 refl)
core_round_trip (assignment m) rest h = rw (AssignmentWire.canonical_bytes-codec m h) (
    read-tagged domain_assignment AssignmentWire.body assignment_fields (AssignmentWire.fields m)
      rest h.0 h.1 refl)
core_round_trip (decline m) rest h = rw (DeclineWire.canonical_bytes-codec m h) (
    read-tagged domain_decline DeclineWire.body decline_fields (DeclineWire.fields m) rest h.0 h.1
      refl)
core_round_trip (job_report m) rest h = rw (JobReportWire.canonical_bytes-codec m h) (
    read-tagged domain_job_report JobReportWire.body job_report_fields (JobReportWire.fields m) rest
      h.0 h.1 refl)
core_round_trip (fee m) rest h =
    rw (FeesWire.canonical_bytes-codec m h)
      (read-tagged domain_fee FeesWire.body fee_fields (FeesWire.fields m) rest h.0 h.1 refl)
core_round_trip (storage_lease m) rest h = rw (StorageLeaseWire.canonical_bytes-codec m h) (
    read-tagged domain_lease StorageLeaseWire.body storage_lease_fields (StorageLeaseWire.fields m)
      rest h.0 h.1 refl)
core_round_trip (lease_decline m) rest h = rw (LeaseDeclineWire.canonical_bytes-codec m h) (
    read-tagged domain_lease_decline LeaseDeclineWire.body lease_decline_fields
      (LeaseDeclineWire.fields m) rest h.0 h.1 refl)
core_round_trip (lease_release m) rest h = rw (LeaseReleaseWire.canonical_bytes-codec m h) (
    read-tagged domain_lease_release LeaseReleaseWire.body lease_release_fields
      (LeaseReleaseWire.fields m) rest h.0 h.1 refl)
core_round_trip (proof m) rest h = rw (ProofResponseWire.canonical_bytes-codec m h) (
    read-tagged domain_proof ProofResponseWire.body proof_fields (ProofResponseWire.fields m) rest
      h.0 h.1 refl)
core_round_trip (rotate m) rest h = rw (KeyRotationWire.canonical_bytes-codec m h) (
    read-tagged domain_rotate KeyRotationWire.body rotate_fields (KeyRotationWire.fields m) rest h.0
      h.1 refl)
core_round_trip (revoke m) rest h = rw (KeyRevocationWire.canonical_bytes-codec m h) (
    read-tagged domain_revoke KeyRevocationWire.body revoke_fields (KeyRevocationWire.fields m) rest
      h.0 h.1 refl)

-- A reader written against the protocol's field tables gets back every encodable message from its
-- canonical bytes with anything behind them: the type from the domain tag, every field under the
-- signature, and the rest as it was.
pub read-signing_bytes :
    (m : Message) (rest : List ℕ)
    → IsEncodable m
    → read (signing_bytes m ++ rest) ≡ some (view m, rest)
unfolding signing_bytes view readers find_reader bytes_equal
read-signing_bytes (core m) rest h = core_round_trip m rest h
read-signing_bytes (transmission m) rest h = rw (TransmissionWire.canonical_bytes-codec m h) (
    read-tagged domain_transmission TransmissionWire.body transmission_fields
      (TransmissionWire.fields m) rest h.0 h.1 refl)
read-signing_bytes (rotation m) rest h = rw (RotationWire.canonical_bytes-codec m h) (
    read-tagged domain_rotation RotationWire.body rotation_fields (RotationWire.fields m) rest h.0
      h.1 refl)
read-signing_bytes (conformance m) rest h = rw (ConformanceWire.canonical_bytes-codec m h) (
    read-tagged domain_conformance ConformanceWire.body conformance_fields
      (ConformanceWire.fields m) rest h.0 h.1 refl)

-- Encodable messages have the bytes that SPEC.md prescribes for their fields.
core_bytes-write : (m : CoreMessage) → IsCoreEncodable m → core_bytes m ≡ write (core_view m)
unfolding core_bytes core_view write
core_bytes-write (listing m) h = ListingWire.canonical_bytes-codec m h
core_bytes-write (heartbeat m) h = LivenessWire.canonical_bytes-codec m h
core_bytes-write (assignment m) h = AssignmentWire.canonical_bytes-codec m h
core_bytes-write (decline m) h = DeclineWire.canonical_bytes-codec m h
core_bytes-write (job_report m) h = JobReportWire.canonical_bytes-codec m h
core_bytes-write (fee m) h = FeesWire.canonical_bytes-codec m h
core_bytes-write (storage_lease m) h = StorageLeaseWire.canonical_bytes-codec m h
core_bytes-write (lease_decline m) h = LeaseDeclineWire.canonical_bytes-codec m h
core_bytes-write (lease_release m) h = LeaseReleaseWire.canonical_bytes-codec m h
core_bytes-write (proof m) h = ProofResponseWire.canonical_bytes-codec m h
core_bytes-write (rotate m) h = KeyRotationWire.canonical_bytes-codec m h
core_bytes-write (revoke m) h = KeyRevocationWire.canonical_bytes-codec m h

signing_bytes-write : (m : Message) → IsEncodable m → signing_bytes m ≡ write (view m)
unfolding signing_bytes view write
signing_bytes-write (core m) h = core_bytes-write m h
signing_bytes-write (transmission m) h = TransmissionWire.canonical_bytes-codec m h
signing_bytes-write (rotation m) h = RotationWire.canonical_bytes-codec m h
signing_bytes-write (conformance m) h = ConformanceWire.canonical_bytes-codec m h

some_view :
    {v w : View} {r s : List ℕ}
    → ◌≡◌ {A = Option (View × List ℕ)} (some (v, r)) (some (w, s))
    → v ≡ w
some_view h = cc

-- Two encodable messages, of one of the fifteen types or of two, have the same canonical bytes
-- exactly if they are of one type and have the same fields under the signature.
pub signing_bytes_iff :
    (m m' : Message)
    → IsEncodable m
    → IsEncodable m'
    → (signing_bytes m ≡ signing_bytes m') ↔ (view m ≡ view m')
signing_bytes_iff m m' h h' = (
  λ e.
      some_view (
        sym (read-signing_bytes m [] h) ∙ ap (λ l. read (l ++ [])) e ∙ read-signing_bytes m' [] h'),
  λ e. signing_bytes-write m h ∙ ap write e ∙ sym (signing_bytes-write m' h'),
)
