-- ===== src/Protocol.antt =====
-- The signed messages of the protocol as one type, and what all of them share.
pub mod Reader
pub mod RoundTrip
pub mod Domains
pub mod Decisions
pub mod Signatures
pub mod SameView
pub mod Signing
use sohocloud_protocol.Prelude.{ℕ, Bool, Option, some, List}
use sohocloud_protocol.Golang.Ed25519.{Ed25519}
use sohocloud_protocol.Canon.Codec.{◌>>=◌}
use sohocloud_protocol.Listing
use sohocloud_protocol.Liveness
use sohocloud_protocol.Employment.Assignment
use sohocloud_protocol.Employment.Decline
use sohocloud_protocol.Employment.JobReport
use sohocloud_protocol.Fees
use sohocloud_protocol.Lease.StorageLease
use sohocloud_protocol.Lease.LeaseDecline
use sohocloud_protocol.Lease.LeaseRelease
use sohocloud_protocol.Lease.ProofResponse
use sohocloud_protocol.Identity.KeyRotation
use sohocloud_protocol.Identity.KeyRevocation
use sohocloud_protocol.Operator.Transmission
use sohocloud_protocol.Operator.Rotation
use sohocloud_protocol.Operator.Conformance
use sohocloud_protocol.Listing.{CapabilityListing, domain_listing}
use sohocloud_protocol.Liveness.{Heartbeat, domain_heartbeat}
use sohocloud_protocol.Employment.Assignment.{Assignment, domain_assignment}
use sohocloud_protocol.Employment.Decline.{Decline, domain_decline}
use sohocloud_protocol.Employment.JobReport.{JobReport, domain_job_report}
use sohocloud_protocol.Fees.{FeeDeclaration, domain_fee}
use sohocloud_protocol.Lease.StorageLease.{StorageLease, domain_lease}
use sohocloud_protocol.Lease.LeaseDecline.{LeaseDecline, domain_lease_decline}
use sohocloud_protocol.Lease.LeaseRelease.{LeaseRelease, domain_lease_release}
use sohocloud_protocol.Lease.ProofResponse.{ProofResponse, domain_proof}
use sohocloud_protocol.Identity.KeyRotation.{KeyRotation, domain_rotate}
use sohocloud_protocol.Identity.KeyRevocation.{KeyRevocation, domain_revoke}
use sohocloud_protocol.Operator.Transmission.{OperatorTransmission, domain_transmission}
use sohocloud_protocol.Operator.Rotation.{OperatorRotation, domain_rotation}
use sohocloud_protocol.Operator.Conformance.{ConformanceResponse, domain_conformance}

-- The messages of SPEC.md §4, with one signature.
pub data CoreMessage : Type 0 where
  listing : CapabilityListing → CoreMessage
  heartbeat : Heartbeat → CoreMessage
  assignment : Assignment → CoreMessage
  decline : Decline → CoreMessage
  job_report : JobReport → CoreMessage
  fee : FeeDeclaration → CoreMessage
  storage_lease : StorageLease → CoreMessage
  lease_decline : LeaseDecline → CoreMessage
  lease_release : LeaseRelease → CoreMessage
  proof : ProofResponse → CoreMessage
  rotate : KeyRotation → CoreMessage
  revoke : KeyRevocation → CoreMessage

-- With the operator messages of SPEC.md §11, which carry two.
pub data Message : Type 0 where
  core : CoreMessage → Message
  transmission : OperatorTransmission → Message
  rotation : OperatorRotation → Message
  conformance : ConformanceResponse → Message

unfoldable pub core_bytes : CoreMessage → List ℕ
core_bytes (listing m) = Listing.canonical_bytes m
core_bytes (heartbeat m) = Liveness.canonical_bytes m
core_bytes (assignment m) = Assignment.canonical_bytes m
core_bytes (decline m) = Decline.canonical_bytes m
core_bytes (job_report m) = JobReport.canonical_bytes m
core_bytes (fee m) = Fees.canonical_bytes m
core_bytes (storage_lease m) = StorageLease.canonical_bytes m
core_bytes (lease_decline m) = LeaseDecline.canonical_bytes m
core_bytes (lease_release m) = LeaseRelease.canonical_bytes m
core_bytes (proof m) = ProofResponse.canonical_bytes m
core_bytes (rotate m) = KeyRotation.canonical_bytes m
core_bytes (revoke m) = KeyRevocation.canonical_bytes m

-- `CanonicalBytes` of whichever message it is.
unfoldable pub signing_bytes : Message → List ℕ
unfolding core_bytes
signing_bytes (core m) = core_bytes m
signing_bytes (transmission m) = Transmission.canonical_bytes m
signing_bytes (rotation m) = Rotation.canonical_bytes m
signing_bytes (conformance m) = Conformance.canonical_bytes m

unfoldable pub core_tag : CoreMessage → List ℕ
core_tag (listing m) = domain_listing
core_tag (heartbeat m) = domain_heartbeat
core_tag (assignment m) = domain_assignment
core_tag (decline m) = domain_decline
core_tag (job_report m) = domain_job_report
core_tag (fee m) = domain_fee
core_tag (storage_lease m) = domain_lease
core_tag (lease_decline m) = domain_lease_decline
core_tag (lease_release m) = domain_lease_release
core_tag (proof m) = domain_proof
core_tag (rotate m) = domain_rotate
core_tag (revoke m) = domain_revoke

unfoldable pub domain_tag : Message → List ℕ
unfolding core_tag
domain_tag (core m) = core_tag m
domain_tag (transmission m) = domain_transmission
domain_tag (rotation m) = domain_rotation
domain_tag (conformance m) = domain_conformance

unfoldable pub signature : CoreMessage → List ℕ
signature (listing m) = m.signature
signature (heartbeat m) = m.signature
signature (assignment m) = m.signature
signature (decline m) = m.signature
signature (job_report m) = m.signature
signature (fee m) = m.signature
signature (storage_lease m) = m.signature
signature (lease_decline m) = m.signature
signature (lease_release m) = m.signature
signature (proof m) = m.signature
signature (rotate m) = m.signature
signature (revoke m) = m.signature

-- `Sign` of whichever message it is.
unfoldable pub sign : Ed25519 → List ℕ → CoreMessage → Option CoreMessage
sign c priv (listing m) = do signed ← Listing.sign c priv m; some (listing signed)
sign c priv (heartbeat m) = do signed ← Liveness.sign c priv m; some (heartbeat signed)
sign c priv (assignment m) = do signed ← Assignment.sign c priv m; some (assignment signed)
sign c priv (decline m) = do signed ← Decline.sign c priv m; some (decline signed)
sign c priv (job_report m) = do signed ← JobReport.sign c priv m; some (job_report signed)
sign c priv (fee m) = do signed ← Fees.sign c priv m; some (fee signed)
sign c priv (storage_lease m) = do signed ← StorageLease.sign c priv m; some (storage_lease signed)
sign c priv (lease_decline m) = do signed ← LeaseDecline.sign c priv m; some (lease_decline signed)
sign c priv (lease_release m) = do signed ← LeaseRelease.sign c priv m; some (lease_release signed)
sign c priv (proof m) = do signed ← ProofResponse.sign c priv m; some (proof signed)
sign c priv (rotate m) = do signed ← KeyRotation.sign c priv m; some (rotate signed)
sign c priv (revoke m) = do signed ← KeyRevocation.sign c priv m; some (revoke signed)

-- `Verify` of whichever message it is.
unfoldable pub verify : Ed25519 → List ℕ → CoreMessage → Option Bool
verify c key (listing m) = Listing.verify c key m
verify c key (heartbeat m) = Liveness.verify c key m
verify c key (assignment m) = Assignment.verify c key m
verify c key (decline m) = Decline.verify c key m
verify c key (job_report m) = JobReport.verify c key m
verify c key (fee m) = Fees.verify c key m
verify c key (storage_lease m) = StorageLease.verify c key m
verify c key (lease_decline m) = LeaseDecline.verify c key m
verify c key (lease_release m) = LeaseRelease.verify c key m
verify c key (proof m) = ProofResponse.verify c key m
verify c key (rotate m) = KeyRotation.verify c key m
verify c key (revoke m) = KeyRevocation.verify c key m
