-- ===== src/Protocol/Reader.antt =====
-- A reader of canonical bytes, as SPEC.md §3 and §4 describe them: the domain tag says which fields
-- follow. It is written without the encoders.
use sohocloud_protocol.Prelude.{ℕ, Option, some, none, List, [], ◌∷◌, if◌then◌else◌}
use sohocloud_protocol.Prelude.Bytes.{bytes_equal}
use sohocloud_protocol.Canon.Codec.{Codec, ◌>>=◌}
use sohocloud_protocol.Canon.Wire.{text_decode}
use sohocloud_protocol.Protocol.{
  CoreMessage, Message, core, listing, heartbeat, assignment, decline, job_report, fee,
  storage_lease, lease_decline, lease_release, proof, rotate, revoke, transmission, rotation,
  conformance,
}
use sohocloud_protocol.Listing.{domain_listing}
use sohocloud_protocol.Liveness.{domain_heartbeat}
use sohocloud_protocol.Employment.Assignment.{domain_assignment}
use sohocloud_protocol.Employment.Decline.{domain_decline}
use sohocloud_protocol.Employment.JobReport.{domain_job_report}
use sohocloud_protocol.Fees.{domain_fee}
use sohocloud_protocol.Lease.StorageLease.{domain_lease}
use sohocloud_protocol.Lease.LeaseDecline.{domain_lease_decline}
use sohocloud_protocol.Lease.LeaseRelease.{domain_lease_release}
use sohocloud_protocol.Lease.ProofResponse.{domain_proof}
use sohocloud_protocol.Identity.KeyRotation.{domain_rotate}
use sohocloud_protocol.Identity.KeyRevocation.{domain_revoke}
use sohocloud_protocol.Operator.Transmission.{domain_transmission}
use sohocloud_protocol.Operator.Rotation.{domain_rotation}
use sohocloud_protocol.Operator.Conformance.{domain_conformance}
use sohocloud_protocol.Listing.Wire as ListingWire
use sohocloud_protocol.Liveness.Wire as LivenessWire
use sohocloud_protocol.Employment.Assignment.Wire as AssignmentWire
use sohocloud_protocol.Employment.Decline.Wire as DeclineWire
use sohocloud_protocol.Employment.JobReport.Wire as JobReportWire
use sohocloud_protocol.Fees.Wire as FeesWire
use sohocloud_protocol.Lease.StorageLease.Wire as StorageLeaseWire
use sohocloud_protocol.Lease.LeaseDecline.Wire as LeaseDeclineWire
use sohocloud_protocol.Lease.LeaseRelease.Wire as LeaseReleaseWire
use sohocloud_protocol.Lease.ProofResponse.Wire as ProofResponseWire
use sohocloud_protocol.Identity.KeyRotation.Wire as KeyRotationWire
use sohocloud_protocol.Identity.KeyRevocation.Wire as KeyRevocationWire
use sohocloud_protocol.Operator.Transmission.Wire as TransmissionWire
use sohocloud_protocol.Operator.Rotation.Wire as RotationWire
use sohocloud_protocol.Operator.Conformance.Wire as ConformanceWire

-- What a reader learns of a message: its type and its fields.
pub data View : Type 0 where
  listing_fields : ListingWire.Fields → View
  heartbeat_fields : LivenessWire.Fields → View
  assignment_fields : AssignmentWire.Fields → View
  decline_fields : DeclineWire.Fields → View
  job_report_fields : JobReportWire.Fields → View
  fee_fields : FeesWire.Fields → View
  storage_lease_fields : StorageLeaseWire.Fields → View
  lease_decline_fields : LeaseDeclineWire.Fields → View
  lease_release_fields : LeaseReleaseWire.Fields → View
  proof_fields : ProofResponseWire.Fields → View
  rotate_fields : KeyRotationWire.Fields → View
  revoke_fields : KeyRevocationWire.Fields → View
  transmission_fields : TransmissionWire.Fields → View
  rotation_fields : RotationWire.Fields → View
  conformance_fields : ConformanceWire.Fields → View

unfoldable pub core_view : CoreMessage → View
core_view (listing m) = listing_fields (ListingWire.fields m)
core_view (heartbeat m) = heartbeat_fields (LivenessWire.fields m)
core_view (assignment m) = assignment_fields (AssignmentWire.fields m)
core_view (decline m) = decline_fields (DeclineWire.fields m)
core_view (job_report m) = job_report_fields (JobReportWire.fields m)
core_view (fee m) = fee_fields (FeesWire.fields m)
core_view (storage_lease m) = storage_lease_fields (StorageLeaseWire.fields m)
core_view (lease_decline m) = lease_decline_fields (LeaseDeclineWire.fields m)
core_view (lease_release m) = lease_release_fields (LeaseReleaseWire.fields m)
core_view (proof m) = proof_fields (ProofResponseWire.fields m)
core_view (rotate m) = rotate_fields (KeyRotationWire.fields m)
core_view (revoke m) = revoke_fields (KeyRevocationWire.fields m)

unfoldable pub view : Message → View
unfolding core_view
view (core m) = core_view m
view (transmission m) = transmission_fields (TransmissionWire.fields m)
view (rotation m) = rotation_fields (RotationWire.fields m)
view (conformance m) = conformance_fields (ConformanceWire.fields m)

-- The values have an encoding: lengths, counts and integers fit 64 bits and instants an `int64` of
-- nanoseconds.
abbrev pub FitsView : View → Type 0
FitsView (listing_fields f) = ListingWire.codec.Fits f
FitsView (heartbeat_fields f) = LivenessWire.codec.Fits f
FitsView (assignment_fields f) = AssignmentWire.codec.Fits f
FitsView (decline_fields f) = DeclineWire.codec.Fits f
FitsView (job_report_fields f) = JobReportWire.codec.Fits f
FitsView (fee_fields f) = FeesWire.codec.Fits f
FitsView (storage_lease_fields f) = StorageLeaseWire.codec.Fits f
FitsView (lease_decline_fields f) = LeaseDeclineWire.codec.Fits f
FitsView (lease_release_fields f) = LeaseReleaseWire.codec.Fits f
FitsView (proof_fields f) = ProofResponseWire.codec.Fits f
FitsView (rotate_fields f) = KeyRotationWire.codec.Fits f
FitsView (revoke_fields f) = KeyRevocationWire.codec.Fits f
FitsView (transmission_fields f) = TransmissionWire.codec.Fits f
FitsView (rotation_fields f) = RotationWire.codec.Fits f
FitsView (conformance_fields f) = ConformanceWire.codec.Fits f

abbrev pub IsCoreEncodable : CoreMessage → Type 0
IsCoreEncodable m = FitsView (core_view m)

abbrev pub IsEncodable : Message → Type 0
IsEncodable m = FitsView (view m)

-- The bytes that SPEC.md prescribes for a view.
unfoldable pub write : View → List ℕ
write (listing_fields f) = ListingWire.codec.encode f
write (heartbeat_fields f) = LivenessWire.codec.encode f
write (assignment_fields f) = AssignmentWire.codec.encode f
write (decline_fields f) = DeclineWire.codec.encode f
write (job_report_fields f) = JobReportWire.codec.encode f
write (fee_fields f) = FeesWire.codec.encode f
write (storage_lease_fields f) = StorageLeaseWire.codec.encode f
write (lease_decline_fields f) = LeaseDeclineWire.codec.encode f
write (lease_release_fields f) = LeaseReleaseWire.codec.encode f
write (proof_fields f) = ProofResponseWire.codec.encode f
write (rotate_fields f) = KeyRotationWire.codec.encode f
write (revoke_fields f) = KeyRevocationWire.codec.encode f
write (transmission_fields f) = TransmissionWire.codec.encode f
write (rotation_fields f) = RotationWire.codec.encode f
write (conformance_fields f) = ConformanceWire.codec.encode f

abbrev pub Reader : Type 0
Reader = List ℕ → Option (View × List ℕ)

abbrev pub read_fields : {A : Type 0} → Codec A → (A → View) → Reader
read_fields c v l = do (a, r) ← c.decode l; some (v a, r)

unfoldable pub readers : List (List ℕ × Reader)
readers =
    (domain_listing, read_fields ListingWire.body listing_fields)
    ∷ (domain_heartbeat, read_fields LivenessWire.body heartbeat_fields)
    ∷ (domain_assignment, read_fields AssignmentWire.body assignment_fields)
    ∷ (domain_decline, read_fields DeclineWire.body decline_fields)
    ∷ (domain_job_report, read_fields JobReportWire.body job_report_fields)
    ∷ (domain_fee, read_fields FeesWire.body fee_fields)
    ∷ (domain_lease, read_fields StorageLeaseWire.body storage_lease_fields)
    ∷ (domain_lease_decline, read_fields LeaseDeclineWire.body lease_decline_fields)
    ∷ (domain_lease_release, read_fields LeaseReleaseWire.body lease_release_fields)
    ∷ (domain_proof, read_fields ProofResponseWire.body proof_fields)
    ∷ (domain_rotate, read_fields KeyRotationWire.body rotate_fields)
    ∷ (domain_revoke, read_fields KeyRevocationWire.body revoke_fields)
    ∷ (domain_transmission, read_fields TransmissionWire.body transmission_fields)
    ∷ (domain_rotation, read_fields RotationWire.body rotation_fields)
    ∷ (domain_conformance, read_fields ConformanceWire.body conformance_fields)
    ∷ []

unfoldable pub find_reader : List ℕ → List (List ℕ × Reader) → Option Reader
find_reader tag [] = none
find_reader tag ((t, r) ∷ rs) = if bytes_equal tag t then some r else find_reader tag rs

unfoldable pub read : Reader
read l = do (tag, r) ← text_decode l; reader ← find_reader tag readers; reader r
