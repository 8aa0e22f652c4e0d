-- ===== src/Coordinator.antt =====
-- `coordinator/coordinator.go`: the role that nodes and frontends speak to, as interfaces over the
-- state of an implementation. An `error` is its text, `none` is nil, and the context is left out.
pub mod Trust
pub mod KeyContract
pub mod Custody
pub mod SeqContract
pub mod StorageContract
use sohocloud_protocol.Prelude.{ℕ, Option, List}
use sohocloud_protocol.Identity.{NodeId}
use sohocloud_protocol.Listing.{CapabilityListing}
use sohocloud_protocol.Liveness.{Heartbeat}
use sohocloud_protocol.Employment.Assignment.{Assignment}
use sohocloud_protocol.Employment.Decline.{Decline}
use sohocloud_protocol.Employment.JobReport.{JobReport}
use sohocloud_protocol.Lease.{ProofChallenge}
use sohocloud_protocol.Lease.StorageLease.{StorageLease}
use sohocloud_protocol.Lease.LeaseDecline.{LeaseDecline}
use sohocloud_protocol.Lease.LeaseRelease.{LeaseRelease}
use sohocloud_protocol.Lease.ProofResponse.{ProofResponse}
use sohocloud_protocol.Identity.KeyRotation.{KeyRotation}
use sohocloud_protocol.Identity.KeyRevocation.{KeyRevocation}
use sohocloud_protocol.Fees.{FeeDeclaration}

abbrev pub Error : Type 0
Error = List ℕ

pub record Coordinator (S : Type 0) : Type 0 where
  pub submit_listing : S → CapabilityListing → S × Option Error
  pub heartbeat : S → Heartbeat → S × Option Error
  pub poll_jobs : S → NodeId → S × (List Assignment × Option Error)
  pub decline : S → Decline → S × Option Error
  pub report_job : S → JobReport → S × Option Error
  pub fees : S → S × (FeeDeclaration × Option Error)

pub record StorageCoordinator (S : Type 0) : Type 0 where
  pub poll_leases : S → NodeId → S × (List StorageLease × List ProofChallenge × Option Error)
  pub decline_lease : S → LeaseDecline → S × Option Error
  pub release_lease : S → LeaseRelease → S × Option Error
  pub submit_proof : S → ProofResponse → S × Option Error

pub record KeyLifecycleCoordinator (S : Type 0) : Type 0 where
  pub rotate_key : S → KeyRotation → S × Option Error
  pub revoke_key : S → KeyRevocation → S × Option Error
