-- ===== src/Lease.antt =====
-- `lease/lease.go`: the storage employment family. The children model its four signed messages; here
-- is the proof of possession.
pub mod StorageLease
pub mod LeaseDecline
pub mod LeaseRelease
pub mod ProofResponse
pub mod Proof
pub mod OutOfRange
pub mod Audit
pub mod Metering
use sohocloud_protocol.Prelude.{ℕ, ◌||◌, Option, none, some, List, ◌++◌, length, if◌then◌else◌, ◌+◌}
use sohocloud_protocol.Prelude.Int.{ℤ, pos, ltb_ℤ, to_u64, add_i64, sub_i64}
use sohocloud_protocol.Golang.Binary.{put_uint64}
use sohocloud_protocol.Golang.Time.{Time}
use sohocloud_protocol.Golang.Slice.{slice, Sha256}

-- `nonce` has 16 bytes.
pub record ProofChallenge : Type 0 where
  pub lease_id : List ℕ
  pub offset : ℤ
  pub length : ℤ
  pub nonce : List ℕ
  pub issued_at : Time

-- What is written to the hash.
unfoldable pub proof_preimage : List ℕ → ℤ → ℤ → List ℕ → List ℕ
proof_preimage nonce offset len range_bytes =
    nonce ++ (put_uint64 (to_u64 offset) ++ (put_uint64 (to_u64 len) ++ range_bytes))

unfoldable pub proof_digest : Sha256 → List ℕ → ℤ → ℤ → List ℕ → List ℕ
proof_digest sha nonce offset len range_bytes =
    sha.digest (proof_preimage nonce offset len range_bytes)

-- A digest, `ErrChallengeRange`, or the panic of a slice expression.
pub data Answer : Type 0 where
  answered : List ℕ → Answer
  challenge_range : Answer
  panicked : Answer

abbrev pub answer_range : Sha256 → ProofChallenge → Option (List ℕ) → Answer
answer_range sha ch none = panicked
answer_range sha ch (some r) = answered (proof_digest sha ch.nonce ch.offset ch.length r)

unfoldable pub proof_over_shard : Sha256 → List ℕ → ProofChallenge → Answer
proof_over_shard sha sealed ch =
    if ltb_ℤ ch.offset (pos 0)
      || ltb_ℤ ch.length (pos 1)
      || ltb_ℤ (sub_i64 (pos (length sealed)) ch.length) ch.offset
    then challenge_range
    else answer_range sha ch (slice sealed ch.offset (add_i64 ch.offset ch.length))
