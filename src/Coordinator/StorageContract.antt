-- ===== src/Coordinator/StorageContract.antt =====
-- What `StorageCoordinator` promises of `SubmitProof`, and what follows of every sequence of calls.
use sohocloud_protocol.Prelude.{ℕ, ◌≡◌, ◌≢◌, ap, none, some, List, [], ◌∷◌, true}
use sohocloud_protocol.Identity.{NodeId}
use sohocloud_protocol.Golang.Ed25519.{Ed25519, Binds}
use sohocloud_protocol.Lease.LeaseDecline.{LeaseDecline}
use sohocloud_protocol.Lease.LeaseRelease.{LeaseRelease}
use sohocloud_protocol.Lease.ProofResponse.{ProofResponse, verify}
use sohocloud_protocol.Lease.ProofResponse.Wire as ProofResponseWire
use sohocloud_protocol.Lease.Metering.{signed_fields}
use sohocloud_protocol.Coordinator.{StorageCoordinator}
use sohocloud_protocol.Protocol.{proof}
use sohocloud_protocol.Protocol.Reader.{IsCoreEncodable}

pub data StorageCall : Type 0 where
  poll_leases_call : NodeId → StorageCall
  decline_lease_call : LeaseDecline → StorageCall
  release_lease_call : LeaseRelease → StorageCall
  submit_proof_call : ProofResponse → StorageCall

module _ {S : Type 0} (k : StorageCoordinator S) where
  abbrev pub after : S → StorageCall → S
  after s (poll_leases_call id) = (k.poll_leases s id).0
  after s (decline_lease_call d) = (k.decline_lease s d).0
  after s (release_lease_call r) = (k.release_lease s r).0
  after s (submit_proof_call p) = (k.submit_proof s p).0

  -- The state behind a sequence of calls.
  abbrev pub after_all : S → List StorageCall → S
  after_all s [] = s
  after_all s (call ∷ calls) = after_all (after s call) calls

module _ {S : Type 0} (c : Ed25519) (k : StorageCoordinator S) where
  -- The state holds the node's key and the lease and nonce of every response that was seen. A
  -- response is accepted only if its signature verifies and its lease and nonce were not seen, and
  -- then they are; no call forgets them.
  pub record StorageContract : Type 1 where
    pub key : S → List ℕ → List ℕ
    pub Seen : S → List ℕ → List ℕ → Type 0
    pub signed :
        (s : S) (p : ProofResponse)
        → (k.submit_proof s p).1 ≡ none
        → verify c (key s p.node_id) p ≡ some true
    pub fresh :
        (s : S) (p : ProofResponse) → (k.submit_proof s p).1 ≡ none → ¬ (Seen s p.lease_id p.nonce)
    pub notes :
        (s : S) (p : ProofResponse)
        → (k.submit_proof s p).1 ≡ none
        → Seen (k.submit_proof s p).0 p.lease_id p.nonce
    pub keeps :
        (s : S) (call : StorageCall) (lease nonce : List ℕ)
        → Seen s lease nonce
        → Seen (after k s call) lease nonce

module _ {S : Type 0} (c : Ed25519) (k : StorageCoordinator S) (h : StorageContract c k) where
  seen-after_all :
      (s : S) (calls : List StorageCall) (lease nonce : List ℕ)
      → h.Seen s lease nonce
      → h.Seen (after_all k s calls) lease nonce
  seen-after_all s [] lease nonce seen = seen
  seen-after_all s (call ∷ calls) lease nonce seen =
      seen-after_all (after k s call) calls lease nonce (h.keeps s call lease nonce seen)

  -- Behind an encodable proof response that a coordinator that keeps the contract has accepted, and
  -- whatever sequence of calls, every encodable proof response with the same signature is refused, if
  -- the key held for its node is then the key that was held for the accepted one's, and the signature
  -- is valid for this key on one byte string only.
  pub signature_metered_once :
      (s : S) (p p' : ProofResponse) (calls : List StorageCall)
      → (k.submit_proof s p).1 ≡ none
      → IsCoreEncodable (proof p)
      → IsCoreEncodable (proof p')
      → p.signature ≡ p'.signature
      → Binds c (h.key s p.node_id) p.signature
      → h.key (after_all k (k.submit_proof s p).0 calls) p'.node_id ≡ h.key s p.node_id
      → (k.submit_proof (after_all k (k.submit_proof s p).0 calls) p').1 ≢ none
  signature_metered_once s p p' calls e f f' same b key_kept again =
      let now = after_all k (k.submit_proof s p).0 calls in
      let fields =
        signed_fields c (h.key s p.node_id) p p' f f' (h.signed s p e)
          (rw (← key_kept) (h.signed now p' again)) same b in
      let seen = seen-after_all (k.submit_proof s p).0 calls _ _ (h.notes s p e) in
      let lease = ap (λ (g : ProofResponseWire.Fields). g.0) fields in
      let nonce = ap (λ (g : ProofResponseWire.Fields). g.1.1.1.1.0) fields in
      h.fresh now p' again (rw (← lease, ← nonce) seen)
