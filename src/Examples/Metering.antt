-- ===== src/Examples/Metering.antt =====
-- Proofs of possession at a coordinator that keeps its promise.
use sohocloud_protocol.Prelude.{
  ℕ, ◌≡◌, ◌≢◌, refl, none, some, true, List, [], ◌∷◌, arith, replicate,
}
use sohocloud_protocol.Prelude.Int.{pos}
use sohocloud_protocol.Prelude.Bytes.{codes}
use sohocloud_protocol.Golang.Ed25519.{Ed25519}
use sohocloud_protocol.Canon
use sohocloud_protocol.Canon.{valid_time}
use sohocloud_protocol.Lease.{ProofChallenge, proof_digest, proof_preimage}
use sohocloud_protocol.Lease.Proof.{proof_over_shard-InRange, window}
use sohocloud_protocol.Lease.Metering.{Settles, one_metering_fact}
use sohocloud_protocol.Lease.ProofResponse.{ProofResponse, canonical_bytes, verify}
use sohocloud_protocol.Coordinator.StorageContract.{
  StorageCall, submit_proof_call, poll_leases_call, after_all, signature_metered_once,
}
use sohocloud_protocol.Protocol
use sohocloud_protocol.Protocol.{proof}
use sohocloud_protocol.Protocol.Reader.{IsCoreEncodable, core_view}
use sohocloud_protocol.Protocol.Decisions.{accepts-verify}
use sohocloud_protocol.Examples.Toy.{
  pad, toy, toy-Binds, toy_signed, tail_hash, alice, alice_signature, sent,
}
use sohocloud_protocol.Examples.StorageBook.{storage_book, storage_book_contract, admit, is_seen}

abbrev shard : List ℕ
shard = 10 ∷ 20 ∷ 30 ∷ 40 ∷ 50 ∷ []

-- The first byte is another.
abbrev other_shard : List ℕ
other_shard = 11 ∷ 20 ∷ 30 ∷ 40 ∷ 50 ∷ []

abbrev challenge : ProofChallenge
challenge = record {
  lease_id = codes "lease";
  offset = pos 2;
  length = pos 3;
  nonce = replicate 16 3;
  issued_at = sent;
}

abbrev unsigned : ProofResponse
unsigned = record {
  lease_id = codes "lease";
  node_id = codes "node-alpha";
  offset = pos 2;
  length = pos 3;
  nonce = replicate 16 3;
  digest = proof_digest tail_hash (replicate 16 3) (pos 2) (pos 3) (30 ∷ 40 ∷ 50 ∷ []);
  responded_at = sent;
  signature = [];
}

abbrev scheme : Ed25519
scheme = toy (canonical_bytes unsigned)

abbrev response : ProofResponse
response = record unsigned { signature = alice_signature }

-- The same instant in another time zone.
abbrev response_elsewhere : ProofResponse
response_elsewhere = record response { responded_at = record sent { zone = pos 0 } }

same_bytes : canonical_bytes response_elsewhere ≡ canonical_bytes unsigned
unfolding canonical_bytes Canon.time valid_time
same_bytes = refl

response_accepted : verify scheme (pad 32 alice) response ≡ some true
unfolding Protocol.verify Protocol.core_bytes Protocol.signature canonical_bytes
response_accepted =
    accepts-verify scheme (pad 32 alice) (proof response)
      (toy_signed (canonical_bytes unsigned) (proof response) refl refl) tt

response_elsewhere_accepted : verify scheme (pad 32 alice) response_elsewhere ≡ some true
unfolding Protocol.verify Protocol.core_bytes Protocol.signature
response_elsewhere_accepted =
    accepts-verify scheme (pad 32 alice) (proof response_elsewhere)
      (toy_signed (canonical_bytes unsigned) (proof response_elsewhere) same_bytes refl) tt

response_encodable : IsCoreEncodable (proof response)
unfolding core_view proof_digest
response_encodable = omega (
  arith,
  tail_hash.length-digest (proof_preimage (replicate 16 3) (pos 2) (pos 3) (30 ∷ 40 ∷ 50 ∷ [])),
)

-- The same conditions: they do not read the location.
response_elsewhere_encodable : IsCoreEncodable (proof response_elsewhere)
unfolding core_view
response_elsewhere_encodable = response_encodable

answer : Settles scheme tail_hash (pad 32 alice) shard challenge response
answer = record {
  encodable = response_encodable;
  accepted = response_accepted;
  same_lease = refl;
  same_nonce = refl;
  same_offset = refl;
  same_length = refl;
  same_digest = proof_over_shard-InRange tail_hash shard challenge (omega arith) (omega arith);
  nonce_sized = omega arith;
  shard_sized = omega arith;
}

answer_elsewhere : Settles scheme tail_hash (pad 32 alice) other_shard challenge response_elsewhere
answer_elsewhere = record {
  encodable = response_elsewhere_encodable;
  accepted = response_elsewhere_accepted;
  same_lease = refl;
  same_nonce = refl;
  same_offset = refl;
  same_length = refl;
  same_digest =
      proof_over_shard-InRange tail_hash other_shard challenge (omega arith) (omega arith);
  nonce_sized = omega arith;
  shard_sized = omega arith;
}

one_metering_fact_example :
    (response.node_id ≡ response_elsewhere.node_id)
    × (challenge.lease_id ≡ challenge.lease_id)
    × (challenge.nonce ≡ challenge.nonce)
    × (challenge.offset ≡ challenge.offset)
    × (challenge.length ≡ challenge.length)
    × (window shard challenge ≡ window other_shard challenge)
one_metering_fact_example =
    one_metering_fact scheme tail_hash (pad 32 alice) shard other_shard challenge challenge response
      response_elsewhere answer answer_elsewhere refl
      (toy-Binds (canonical_bytes unsigned) (pad 32 alice) (pad 63 (pad 32 alice))) (λ e. refl)

response_taken : ((storage_book scheme).submit_proof [] response).1 ≡ none
unfolding admit is_seen
response_taken = rw response_accepted refl

abbrev calls : List StorageCall
calls = poll_leases_call (codes "node-alpha") ∷ submit_proof_call response_elsewhere ∷ []

signature_metered_once_example :
    ((storage_book scheme).submit_proof
      (after_all (storage_book scheme) ((storage_book scheme).submit_proof [] response).0 calls)
      response_elsewhere).1
    ≢ none
unfolding storage_book_contract
signature_metered_once_example =
    signature_metered_once scheme (storage_book scheme) (storage_book_contract scheme) [] response
      response_elsewhere calls response_taken response_encodable response_elsewhere_encodable refl
      (toy-Binds (canonical_bytes unsigned) (pad 32 alice) (pad 63 (pad 32 alice))) refl
