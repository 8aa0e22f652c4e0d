-- ===== src/Examples/Leases.antt =====
-- The theorems on leases at a shard of five bytes.
use sohocloud_protocol.Prelude.{
  ℕ, ◌≡◌, ◌↔◌, ◌⊎◌, refl, ap, take, drop, List, [], ◌∷◌, false, arith, replicate,
}
use sohocloud_protocol.Prelude.Int.{ℤ, pos, max_int64, to_u64}
use sohocloud_protocol.Prelude.Bytes.{codes}
use sohocloud_protocol.Canon.{valid_time}
use sohocloud_protocol.Lease.{
  ProofChallenge, answered, challenge_range, proof_digest, proof_over_shard, proof_preimage,
}
use sohocloud_protocol.Lease.Proof.{InRange, window, proof_over_shard_lem}
use sohocloud_protocol.Lease.StorageLease.{StorageLease, canonical_bytes, verify}
use sohocloud_protocol.Lease.OutOfRange.{lease_dates_interchange}
use sohocloud_protocol.Golang.Binary.{put_uint64}
use sohocloud_protocol.Lease.Audit.{TellsApart, question, same_answer_iff}
use sohocloud_protocol.Examples.Toy.{pad, toy, toy_hash, tail_hash, alice, sent, far_future}

abbrev shard : List ℕ
shard = 10 ∷ 20 ∷ 30 ∷ 40 ∷ 50 ∷ []

abbrev nonce : List ℕ
nonce = replicate 16 3

abbrev challenge : ℤ → ℤ → ProofChallenge
challenge offset len = record {
  lease_id = codes "lease";
  offset = offset;
  length = len;
  nonce = nonce;
  issued_at = sent;
}

-- The largest offset, at which a sum of offset and length would wrap.
proof_over_shard_lem_example :
    (InRange shard (challenge max_int64 max_int64)
      × (proof_over_shard toy_hash shard (challenge max_int64 max_int64)
          ≡ answered (
              proof_digest toy_hash nonce max_int64 max_int64
                (window shard (challenge max_int64 max_int64)))))
    ⊎ (¬ (InRange shard (challenge max_int64 max_int64))
        × (proof_over_shard toy_hash shard (challenge max_int64 max_int64) ≡ challenge_range))
proof_over_shard_lem_example =
    proof_over_shard_lem toy_hash shard (challenge max_int64 max_int64) (omega arith)

abbrev offer : StorageLease
offer = record {
  lease_id = codes "lease";
  node_id = codes "node-alpha";
  shard_ref = replicate 32 1;
  size_class = pos 1048576;
  fee = record { contributor_share_bps = pos 6500; platform_fee_bps = pos 3500 };
  issued_at = sent;
  expires_at = sent;
  seq = 1;
  signature = [];
}

far_future_invalid : valid_time far_future ≡ false
unfolding valid_time
far_future_invalid = refl

lease_dates_interchange_example :
    (canonical_bytes (record offer { issued_at = far_future; expires_at = sent })
      ≡ canonical_bytes (record offer { issued_at = sent; expires_at = far_future }))
    × (verify (toy []) alice (record offer { issued_at = far_future; expires_at = sent })
        ≡ verify (toy []) alice (record offer { issued_at = sent; expires_at = far_future }))
lease_dates_interchange_example =
    lease_dates_interchange (toy []) alice offer far_future far_future sent far_future_invalid
      far_future_invalid

-- The last byte is another.
abbrev damaged : List ℕ
damaged = 10 ∷ 20 ∷ 30 ∷ 40 ∷ 51 ∷ []

told_apart :
    TellsApart tail_hash
      (question shard (challenge (pos 2) (pos 3)))
      (question damaged (challenge (pos 2) (pos 3)))
unfolding pad proof_preimage put_uint64 to_u64
told_apart e =
    let last : ◌≡◌ {A = List ℕ} (50 ∷ []) (51 ∷ []) = ap (λ (l : List ℕ). take 1 (drop 10 l)) e in
    absurd (ground arith)

same_answer_iff_example :
    (proof_over_shard tail_hash shard (challenge (pos 2) (pos 3))
      ≡ proof_over_shard tail_hash damaged (challenge (pos 2) (pos 3)))
    ↔ ((nonce ≡ nonce)
        × (pos 2 ≡ pos 2)
        × (pos 3 ≡ pos 3)
        × (◌≡◌ {A = List ℕ} (30 ∷ 40 ∷ 50 ∷ []) (30 ∷ 40 ∷ 51 ∷ [])))
same_answer_iff_example =
    same_answer_iff tail_hash shard damaged (challenge (pos 2) (pos 3)) (challenge (pos 2) (pos 3))
      (omega arith) (omega arith) (omega arith) (omega arith) refl refl told_apart
