-- ===== src/Lease/Metering.antt =====
-- What a proof response stands for on its own, as the "metering fact" of SPEC.md §4.10: the node, the
-- lease, the challenge and the bytes of the shard.
use sohocloud_protocol.Prelude.{ℕ, ◌≡◌, ◌<◌, ◌^◌, ◌∙◌, sym, ap, List, length, some, true}
use sohocloud_protocol.Golang.Slice.{Sha256}
use sohocloud_protocol.Golang.Ed25519.{Ed25519, Binds}
use sohocloud_protocol.Lease.{ProofChallenge, answered, proof_over_shard}
use sohocloud_protocol.Lease.Proof.{Sized, window, answered-InRange}
use sohocloud_protocol.Lease.Audit.{TellsApart, question, same_answer_iff}
use sohocloud_protocol.Lease.ProofResponse.{ProofResponse, verify}
use sohocloud_protocol.Lease.ProofResponse.Wire as ProofResponseWire
use sohocloud_protocol.Protocol
use sohocloud_protocol.Protocol.{proof, signature}
use sohocloud_protocol.Protocol.Reader.{view, core_view, View, proof_fields, IsCoreEncodable}
use sohocloud_protocol.Protocol.Signatures.{signature-Binds_fields}

-- A proof response that answers a challenge about a shard: its signature is accepted under the
-- node's key, it repeats the challenge, and its digest is the one `ProofOverShard` gives.
pub record Settles (c : Ed25519) (sha : Sha256) (key sealed : List ℕ) (ch : ProofChallenge)
    (p : ProofResponse) : Type 0 where
  pub encodable : IsCoreEncodable (proof p)
  pub accepted : verify c key p ≡ some true
  pub same_lease : p.lease_id ≡ ch.lease_id
  pub same_nonce : p.nonce ≡ ch.nonce
  pub same_offset : p.offset ≡ ch.offset
  pub same_length : p.length ≡ ch.length
  pub same_digest : proof_over_shard sha sealed ch ≡ answered p.digest
  pub nonce_sized : length ch.nonce ≡ 16
  pub shard_sized : length sealed < 2 ^ 63

proof_fields_inj :
    (f g : ProofResponseWire.Fields) → ◌≡◌ {A = View} (proof_fields f) (proof_fields g) → f ≡ g
proof_fields_inj f g h = cc

-- What one signature of a node says of the fields of a response.
pub signed_fields :
    (c : Ed25519) (key : List ℕ) (p p' : ProofResponse)
    → IsCoreEncodable (proof p)
    → IsCoreEncodable (proof p')
    → verify c key p ≡ some true
    → verify c key p' ≡ some true
    → p.signature ≡ p'.signature
    → Binds c key p.signature
    → ProofResponseWire.fields p ≡ ProofResponseWire.fields p'
unfolding view core_view Protocol.verify signature
signed_fields c key p p' f f' a a' e b =
    proof_fields_inj _ _ (signature-Binds_fields c key (proof p) (proof p') f f' a a' e b)

module _ (c : Ed25519) (sha : Sha256) (key : List ℕ) where
  Settles-Sized :
      (sealed : List ℕ) (ch : ProofChallenge) (p : ProofResponse)
      → Settles c sha key sealed ch p
      → Sized sealed ch
  unfolding core_view
  Settles-Sized sealed ch p s =
      let (_, (_, (_, (o, (l, _))))) = s.encodable in
      record {
        shard_sized = s.shard_sized;
        offset_fits = rw (← s.same_offset) o;
        length_fits = rw (← s.same_length) l;
      }

  module _ (sealed sealed' : List ℕ) (ch ch' : ProofChallenge) (p p' : ProofResponse)
      (s : Settles c sha key sealed ch p) (s' : Settles c sha key sealed' ch' p') where
    -- Two encodable proof responses with one signature, which for the key is valid on one byte string
    -- only, that are accepted under this key and answer challenges with nonces of 16 bytes about
    -- shards of less than 2^63 bytes as `ProofOverShard` does, are of one node and answer one
    -- question: the challenges have the same lease, nonce, offset and length, and the shards the same
    -- bytes in the window, where SHA-256 does not give the two inputs one digest.
    pub one_metering_fact :
        p.signature ≡ p'.signature
        → Binds c key p.signature
        → TellsApart sha (question sealed ch) (question sealed' ch')
        → (p.node_id ≡ p'.node_id)
          × (ch.lease_id ≡ ch'.lease_id)
          × (ch.nonce ≡ ch'.nonce)
          × (ch.offset ≡ ch'.offset)
          × (ch.length ≡ ch'.length)
          × (window sealed ch ≡ window sealed' ch')
    one_metering_fact e b apart =
        let same = signed_fields c key p p' s.encodable s'.encodable s.accepted s'.accepted e b in
        let z = Settles-Sized sealed ch p s in
        let z' = Settles-Sized sealed' ch' p' s' in
        let one_answer : proof_over_shard sha sealed ch ≡ proof_over_shard sha sealed' ch' =
          s.same_digest
          ∙ ap (λ (f : ProofResponseWire.Fields). answered f.1.1.1.1.1.0) same
          ∙ sym s'.same_digest in
        let asked =
          (same_answer_iff sha sealed sealed' ch ch' z z'
              (answered-InRange sha sealed ch z _ s.same_digest)
              (answered-InRange sha sealed' ch' z' _ s'.same_digest) s.nonce_sized s'.nonce_sized
              apart).0
            one_answer in
        (
          ap (λ (f : ProofResponseWire.Fields). f.1.0) same,
          sym s.same_lease ∙ ap (λ (f : ProofResponseWire.Fields). f.0) same ∙ s'.same_lease,
          asked.0,
          asked.1,
          asked.2,
          asked.3,
        )
