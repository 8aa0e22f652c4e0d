-- ===== src/Protocol/Signing.antt =====
-- What `Sign` of a message with one signature gives.
use sohocloud_protocol.Prelude.{ℕ, ◌≡◌, refl, List, true, some, length, arith}
use sohocloud_protocol.Golang.Ed25519.{Ed25519, sign as ed25519_sign}
use sohocloud_protocol.Canon.{sum}
use sohocloud_protocol.Canon.Signature.{sign-Valid}
use sohocloud_protocol.Protocol.{
  CoreMessage, core_bytes, signature, sign, verify, listing, heartbeat, assignment, decline,
  job_report, fee, storage_lease, lease_decline, lease_release, proof, rotate, revoke,
}
use sohocloud_protocol.Protocol.Reader.{core_view}
use sohocloud_protocol.Protocol.Decisions.{IsWellFormed, accepts-verify}
use sohocloud_protocol.Listing
use sohocloud_protocol.Liveness
use sohocloud_protocol.Employment.Assignment
use sohocloud_protocol.Employment.Decline
use sohocloud_protocol.Employment.JobReport
use sohocloud_protocol.Fees
use sohocloud_protocol.Lease.StorageLease
use sohocloud_protocol.Lease.LeaseDecline
use sohocloud_protocol.Lease.LeaseRelease
use sohocloud_protocol.Lease.ProofResponse
use sohocloud_protocol.Identity.KeyRotation
use sohocloud_protocol.Identity.KeyRevocation
use sohocloud_protocol.Employment.Assignment.{Assignment}
use sohocloud_protocol.Employment.Decline.{Decline}
use sohocloud_protocol.Employment.JobReport.{JobReport}
use sohocloud_protocol.Lease.StorageLease.{StorageLease}
use sohocloud_protocol.Lease.LeaseDecline.{LeaseDecline}
use sohocloud_protocol.Lease.LeaseRelease.{LeaseRelease}
use sohocloud_protocol.Lease.ProofResponse.{ProofResponse}
use sohocloud_protocol.Identity.KeyRotation.{KeyRotation}
use sohocloud_protocol.Identity.KeyRevocation.{KeyRevocation}

-- `Sign` with a private key of 64 bytes gives a message with the same fields which `Verify` accepts
-- under the public key; for a rotation this needs a new key of 32 bytes of "ed25519", for a
-- revocation that the revoked key is the public key.
pub sign_then_verify :
    (c : Ed25519) (priv : List ℕ) (m : CoreMessage)
    → length priv ≡ 64
    → IsWellFormed (c.public priv) m
    → (m' : CoreMessage) × (sign c priv m ≡ some m')
      × (core_view m' ≡ core_view m)
      × (verify c (c.public priv) m' ≡ some true)
unfolding sign ed25519_sign core_view core_bytes signature sum Listing.sign Listing.canonical_bytes
    Liveness.sign Liveness.canonical_bytes Assignment.sign Assignment.canonical_bytes Decline.sign
    Decline.canonical_bytes JobReport.sign JobReport.canonical_bytes Fees.sign Fees.canonical_bytes
    StorageLease.sign StorageLease.canonical_bytes LeaseDecline.sign LeaseDecline.canonical_bytes
    LeaseRelease.sign LeaseRelease.canonical_bytes ProofResponse.sign ProofResponse.canonical_bytes
    KeyRotation.sign KeyRotation.canonical_bytes KeyRevocation.sign KeyRevocation.canonical_bytes
sign_then_verify c priv (listing m) h w =
    let sig = c.sign priv (Listing.canonical_bytes m) in
    (
      listing (record m { signature = sig }),
      ground arith,
      refl,
      accepts-verify c (c.public priv) (listing (record m { signature = sig }))
          (sign-Valid c priv (Listing.canonical_bytes m) sig (ground arith)) w,
    )
sign_then_verify c priv (heartbeat m) h w =
    let sig = c.sign priv (Liveness.canonical_bytes m) in
    (
      heartbeat (record m { signature = sig }),
      ground arith,
      refl,
      accepts-verify c (c.public priv) (heartbeat (record m { signature = sig }))
          (sign-Valid c priv (Liveness.canonical_bytes m) sig (ground arith)) w,
    )
sign_then_verify c priv (assignment m) h w =
    let sig = c.sign priv (Assignment.canonical_bytes m) in
    (
      assignment (record m { signature = sig }),
      ground arith,
      refl,
      accepts-verify c (c.public priv) (assignment (record m { signature = sig }))
          (sign-Valid c priv (Assignment.canonical_bytes m) sig (ground arith)) w,
    )
sign_then_verify c priv (decline m) h w =
    let sig = c.sign priv (Decline.canonical_bytes m) in
    (
      decline (record m { signature = sig }),
      ground arith,
      refl,
      accepts-verify c (c.public priv) (decline (record m { signature = sig }))
          (sign-Valid c priv (Decline.canonical_bytes m) sig (ground arith)) w,
    )
sign_then_verify c priv (job_report m) h w =
    let sig = c.sign priv (JobReport.canonical_bytes m) in
    (
      job_report (record m { signature = sig }),
      ground arith,
      refl,
      accepts-verify c (c.public priv) (job_report (record m { signature = sig }))
          (sign-Valid c priv (JobReport.canonical_bytes m) sig (ground arith)) w,
    )
sign_then_verify c priv (fee m) h w =
    let sig = c.sign priv (Fees.canonical_bytes m) in
    (
      fee (record m { signature = sig }),
      ground arith,
      refl,
      accepts-verify c (c.public priv) (fee (record m { signature = sig }))
          (sign-Valid c priv (Fees.canonical_bytes m) sig (ground arith)) w,
    )
sign_then_verify c priv (storage_lease m) h w =
    let sig = c.sign priv (StorageLease.canonical_bytes m) in
    (
      storage_lease (record m { signature = sig }),
      ground arith,
      refl,
      accepts-verify c (c.public priv) (storage_lease (record m { signature = sig }))
          (sign-Valid c priv (StorageLease.canonical_bytes m) sig (ground arith)) w,
    )
sign_then_verify c priv (lease_decline m) h w =
    let sig = c.sign priv (LeaseDecline.canonical_bytes m) in
    (
      lease_decline (record m { signature = sig }),
      ground arith,
      refl,
      accepts-verify c (c.public priv) (lease_decline (record m { signature = sig }))
          (sign-Valid c priv (LeaseDecline.canonical_bytes m) sig (ground arith)) w,
    )
sign_then_verify c priv (lease_release m) h w =
    let sig = c.sign priv (LeaseRelease.canonical_bytes m) in
    (
      lease_release (record m { signature = sig }),
      ground arith,
      refl,
      accepts-verify c (c.public priv) (lease_release (record m { signature = sig }))
          (sign-Valid c priv (LeaseRelease.canonical_bytes m) sig (ground arith)) w,
    )
sign_then_verify c priv (proof m) h w =
    let sig = c.sign priv (ProofResponse.canonical_bytes m) in
    (
      proof (record m { signature = sig }),
      ground arith,
      refl,
      accepts-verify c (c.public priv) (proof (record m { signature = sig }))
          (sign-Valid c priv (ProofResponse.canonical_bytes m) sig (ground arith)) w,
    )
sign_then_verify c priv (rotate m) h w =
    let sig = c.sign priv (KeyRotation.canonical_bytes m) in
    (
      rotate (record m { signature = sig }),
      ground arith,
      refl,
      accepts-verify c (c.public priv) (rotate (record m { signature = sig }))
          (sign-Valid c priv (KeyRotation.canonical_bytes m) sig (ground arith)) w,
    )
sign_then_verify c priv (revoke m) h w =
    let sig = c.sign priv (KeyRevocation.canonical_bytes m) in
    (
      revoke (record m { signature = sig }),
      ground arith,
      refl,
      accepts-verify c (c.public priv) (revoke (record m { signature = sig }))
          (sign-Valid c priv (KeyRevocation.canonical_bytes m) sig (ground arith)) w,
    )
