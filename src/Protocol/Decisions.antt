-- ===== src/Protocol/Decisions.antt =====
-- What `Verify` of the messages with one signature answers.
use sohocloud_protocol.Prelude.{
  ℕ, ◌≡◌, ◌≢◌, ◌↔◌, ap, ◌∙◌, refl, List, Bool, true, false, Option, some, none, length, arith,
}
use sohocloud_protocol.Prelude.Bytes.{bytes_equal_iff, codes}
use sohocloud_protocol.Golang.Ed25519.{Ed25519}
use sohocloud_protocol.Canon.{verify_sig}
use sohocloud_protocol.Canon.Signature.{Valid, verify_sig-ne-none, verify_sig_iff}
use sohocloud_protocol.Protocol.{
  CoreMessage, core_bytes, signature, verify, listing, heartbeat, assignment, decline, job_report,
  fee, storage_lease, lease_decline, lease_release, proof, rotate, revoke,
}
use sohocloud_protocol.Listing
use sohocloud_protocol.Liveness
use sohocloud_protocol.Employment.Assignment
use sohocloud_protocol.Employment.Decline
use sohocloud_protocol.Employment.JobReport
use sohocloud_protocol.Fees
use sohocloud_protocol.Lease.StorageLease
use sohocloud_protocol.Lease.LeaseDecline
use sohocloud_protocol.Lease.LeaseRelease
use sohocloud_protocol.Lease.ProofResponse
use sohocloud_protocol.Identity.KeyRotation
use sohocloud_protocol.Identity.KeyRevocation
use sohocloud_protocol.Employment.Assignment.{Assignment}
use sohocloud_protocol.Employment.Decline.{Decline}
use sohocloud_protocol.Employment.JobReport.{JobReport}
use sohocloud_protocol.Lease.StorageLease.{StorageLease}
use sohocloud_protocol.Lease.LeaseDecline.{LeaseDecline}
use sohocloud_protocol.Lease.LeaseRelease.{LeaseRelease}
use sohocloud_protocol.Lease.ProofResponse.{ProofResponse}
use sohocloud_protocol.Identity.KeyRotation.{KeyRotation}
use sohocloud_protocol.Identity.KeyRevocation.{KeyRevocation}

-- `Verify` of each of the twelve messages under one key returns and does not panic, whatever the
-- key, the signature and the fields.
pub core_verify-ne-none : (c : Ed25519) (key : List ℕ) (m : CoreMessage) → verify c key m ≢ none
unfolding verify Listing.verify Liveness.verify Assignment.verify Decline.verify JobReport.verify
    Fees.verify StorageLease.verify LeaseDecline.verify LeaseRelease.verify ProofResponse.verify
    KeyRotation.verify KeyRevocation.verify
core_verify-ne-none c key (listing m) =
    verify_sig-ne-none c key (Listing.canonical_bytes m) m.signature
core_verify-ne-none c key (heartbeat m) =
    verify_sig-ne-none c key (Liveness.canonical_bytes m) m.signature
core_verify-ne-none c key (assignment m) =
    verify_sig-ne-none c key (Assignment.canonical_bytes m) m.signature
core_verify-ne-none c key (decline m) =
    verify_sig-ne-none c key (Decline.canonical_bytes m) m.signature
core_verify-ne-none c key (job_report m) =
    verify_sig-ne-none c key (JobReport.canonical_bytes m) m.signature
core_verify-ne-none c key (fee m) = verify_sig-ne-none c key (Fees.canonical_bytes m) m.signature
core_verify-ne-none c key (storage_lease m) =
    verify_sig-ne-none c key (StorageLease.canonical_bytes m) m.signature
core_verify-ne-none c key (lease_decline m) =
    verify_sig-ne-none c key (LeaseDecline.canonical_bytes m) m.signature
core_verify-ne-none c key (lease_release m) =
    verify_sig-ne-none c key (LeaseRelease.canonical_bytes m) m.signature
core_verify-ne-none c key (proof m) =
    verify_sig-ne-none c key (ProofResponse.canonical_bytes m) m.signature
core_verify-ne-none c key (rotate m) =
    λ h. ground (arith, verify_sig-ne-none c key (KeyRotation.canonical_bytes m) m.signature)
core_verify-ne-none c key (revoke m) = λ h.
    ground (
      arith,
      verify_sig-ne-none c m.revoked_public_key (KeyRevocation.canonical_bytes m) m.signature,
    )

-- What `Verify` asks beyond a valid signature: a rotation names a well-formed successor, and a
-- revocation names the trusted key.
abbrev pub IsWellFormed : List ℕ → CoreMessage → Type 0
IsWellFormed key (rotate m) = (m.algo ≡ codes "ed25519") × (length m.new_public_key ≡ 32)
IsWellFormed key (revoke m) = m.revoked_public_key ≡ key
IsWellFormed key (listing m) = Unit {0}
IsWellFormed key (heartbeat m) = Unit {0}
IsWellFormed key (assignment m) = Unit {0}
IsWellFormed key (decline m) = Unit {0}
IsWellFormed key (job_report m) = Unit {0}
IsWellFormed key (fee m) = Unit {0}
IsWellFormed key (storage_lease m) = Unit {0}
IsWellFormed key (lease_decline m) = Unit {0}
IsWellFormed key (lease_release m) = Unit {0}
IsWellFormed key (proof m) = Unit {0}

module _ (c : Ed25519) (key : List ℕ) where
  pub verify-accepts :
      (m : CoreMessage)
      → verify c key m ≡ some true
      → Valid c key (core_bytes m) (signature m) × IsWellFormed key m
  unfolding verify core_bytes signature Listing.verify Liveness.verify Assignment.verify
      Decline.verify JobReport.verify Fees.verify StorageLease.verify LeaseDecline.verify
      LeaseRelease.verify ProofResponse.verify KeyRotation.verify KeyRevocation.verify
  verify-accepts (listing m) h =
      ((verify_sig_iff c key (Listing.canonical_bytes m) m.signature).0 h, tt)
  verify-accepts (heartbeat m) h =
      ((verify_sig_iff c key (Liveness.canonical_bytes m) m.signature).0 h, tt)
  verify-accepts (assignment m) h =
      ((verify_sig_iff c key (Assignment.canonical_bytes m) m.signature).0 h, tt)
  verify-accepts (decline m) h =
      ((verify_sig_iff c key (Decline.canonical_bytes m) m.signature).0 h, tt)
  verify-accepts (job_report m) h =
      ((verify_sig_iff c key (JobReport.canonical_bytes m) m.signature).0 h, tt)
  verify-accepts (fee m) h = ((verify_sig_iff c key (Fees.canonical_bytes m) m.signature).0 h, tt)
  verify-accepts (storage_lease m) h =
      ((verify_sig_iff c key (StorageLease.canonical_bytes m) m.signature).0 h, tt)
  verify-accepts (lease_decline m) h =
      ((verify_sig_iff c key (LeaseDecline.canonical_bytes m) m.signature).0 h, tt)
  verify-accepts (lease_release m) h =
      ((verify_sig_iff c key (LeaseRelease.canonical_bytes m) m.signature).0 h, tt)
  verify-accepts (proof m) h =
      ((verify_sig_iff c key (ProofResponse.canonical_bytes m) m.signature).0 h, tt)
  verify-accepts (rotate m) h = (
    (verify_sig_iff c key (KeyRotation.canonical_bytes m) m.signature).0 (ground arith),
    (ground (arith, bytes_equal_iff m.algo (codes "ed25519")), ground arith),
  )
  verify-accepts (revoke m) h =
      let same : m.revoked_public_key ≡ key =
        ground (arith, bytes_equal_iff m.revoked_public_key key) in
      (
        rw (← same) (
            (verify_sig_iff c m.revoked_public_key (KeyRevocation.canonical_bytes m) m.signature).0
              (ground arith)),
        same,
      )

  pub accepts-verify :
      (m : CoreMessage)
      → Valid c key (core_bytes m) (signature m)
      → IsWellFormed key m
      → verify c key m ≡ some true
  unfolding verify core_bytes signature Listing.verify Liveness.verify Assignment.verify
      Decline.verify JobReport.verify Fees.verify StorageLease.verify LeaseDecline.verify
      LeaseRelease.verify ProofResponse.verify KeyRotation.verify KeyRevocation.verify
  accepts-verify (listing m) v w =
      (verify_sig_iff c key (Listing.canonical_bytes m) m.signature).1 v
  accepts-verify (heartbeat m) v w =
      (verify_sig_iff c key (Liveness.canonical_bytes m) m.signature).1 v
  accepts-verify (assignment m) v w =
      (verify_sig_iff c key (Assignment.canonical_bytes m) m.signature).1 v
  accepts-verify (decline m) v w =
      (verify_sig_iff c key (Decline.canonical_bytes m) m.signature).1 v
  accepts-verify (job_report m) v w =
      (verify_sig_iff c key (JobReport.canonical_bytes m) m.signature).1 v
  accepts-verify (fee m) v w = (verify_sig_iff c key (Fees.canonical_bytes m) m.signature).1 v
  accepts-verify (storage_lease m) v w =
      (verify_sig_iff c key (StorageLease.canonical_bytes m) m.signature).1 v
  accepts-verify (lease_decline m) v w =
      (verify_sig_iff c key (LeaseDecline.canonical_bytes m) m.signature).1 v
  accepts-verify (lease_release m) v w =
      (verify_sig_iff c key (LeaseRelease.canonical_bytes m) m.signature).1 v
  accepts-verify (proof m) v w =
      (verify_sig_iff c key (ProofResponse.canonical_bytes m) m.signature).1 v
  accepts-verify (rotate m) v w = ground (
    arith,
    (verify_sig_iff c key (KeyRotation.canonical_bytes m) m.signature).1 v,
    bytes_equal_iff m.algo (codes "ed25519"),
  )
  accepts-verify (revoke m) v w =
      let same : verify_sig c m.revoked_public_key (KeyRevocation.canonical_bytes m) m.signature
          ≡ some true =
        ap (λ k. verify_sig c k (KeyRevocation.canonical_bytes m) m.signature) w
        ∙ (verify_sig_iff c key (KeyRevocation.canonical_bytes m) m.signature).1 v in
      ground (arith, same, v.key_sized, bytes_equal_iff m.revoked_public_key key)

  -- `Verify` of each of the twelve messages under one key says yes exactly if the key has 32 bytes,
  -- the signature has 64 bytes, Ed25519 accepts it for the key and the message's canonical bytes
  -- and, for a rotation, the new key has 32 bytes and is of "ed25519" or, for a revocation, the
  -- revoked key is the trusted key.
  pub core_verify_iff :
      (m : CoreMessage)
      → (verify c key m ≡ some true)
        ↔ (Valid c key (core_bytes m) (signature m) × IsWellFormed key m)
  core_verify_iff m = (verify-accepts m, λ p. accepts-verify m p.0 p.1)

  yes_or_no :
      (o : Option Bool) (P : Type 0)
      → o ≢ none
      → (o ≡ some true) ↔ P
      → ((o ≡ some true) ↔ P) × ((o ≡ some false) ↔ (¬ P))
  yes_or_no none P n h = absurd (n refl)
  yes_or_no (some true) P n h = (h, (λ e. cc, λ no. absurd (no (h.0 refl))))
  yes_or_no (some false) P n h = (h, (λ e p. let yes = h.1 p in cc, λ no. refl))

  -- `Verify` of each of the twelve messages under one key, of whatever length, returns and does not
  -- panic. It says yes exactly if the key has 32 bytes, the signature has 64 bytes, Ed25519 accepts it
  -- for the key and the message's canonical bytes and, for a rotation, the new key has 32 bytes and is
  -- of "ed25519" or, for a revocation, the revoked key is the trusted key; otherwise it says no.
  pub core_verify_decides :
      (m : CoreMessage)
      → ((verify c key m ≡ some true)
          ↔ (Valid c key (core_bytes m) (signature m) × IsWellFormed key m))
        × ((verify c key m ≡ some false)
            ↔ (¬ (Valid c key (core_bytes m) (signature m) × IsWellFormed key m)))
  core_verify_decides m =
      yes_or_no (verify c key m) _ (core_verify-ne-none c key m) (core_verify_iff m)
