-- ===== src/Lease/Proof.antt =====
-- The answer to a challenge: in range or refused, never a panic; and what the digest binds.
use sohocloud_protocol.Prelude.{
  ℕ, ◌+◌, ◌-◌, ◌≤◌, ◌<◌, ◌^◌, ◌≡◌, refl, sym, ap, ◌∙◌, ◌||◌, Bool, List, length, take, drop, arith,
  append_inj, Bool-cases, inl, inr, ◌⊎◌,
}
use sohocloud_protocol.Prelude.Int.{
  ℤ, pos, negsuc, pos_part, neg_part, ltb_ℤ, ◌≤ℤ◌, IsI64, to_u64, to_i64, add_i64, sub_i64,
}
use sohocloud_protocol.Golang.Slice.{slice, Sha256}
use sohocloud_protocol.Canon.Codec.{encode-cancel}
use sohocloud_protocol.Canon.Wire.{i64}
use sohocloud_protocol.Lease.{
  ProofChallenge, proof_preimage, proof_digest, answered, challenge_range, proof_over_shard,
}

-- The challenged window is not empty and lies in the shard.
pub record InRange (sealed : List ℕ) (ch : ProofChallenge) : Type 0 where
  pub lower : pos 0 ≤ℤ ch.offset
  pub nonempty : pos 1 ≤ℤ ch.length
  pub upper : pos_part ch.offset + pos_part ch.length ≤ length sealed

abbrev pub window : List ℕ → ProofChallenge → List ℕ
window sealed ch = take (pos_part ch.length) (drop (pos_part ch.offset) sealed)

-- Where the length is positive the guard's subtraction does not wrap.
sub_i64_fits : (n k : ℕ) → n < 2 ^ 63 → k < 2 ^ 63 → k ≤ n → sub_i64 (pos n) (pos k) ≡ pos (n - k)
unfolding sub_i64 to_u64 to_i64
sub_i64_fits n k hn hk h = ground arith

sub_i64_parts :
    (n k : ℕ)
    → n < 2 ^ 63
    → k < 2 ^ 63
    → pos_part (sub_i64 (pos n) (pos k)) + k ≡ n + neg_part (sub_i64 (pos n) (pos k))
unfolding sub_i64 to_u64 to_i64
sub_i64_parts n k hn hk = ground arith

-- Nor does the sum of an accepted window.
add_i64_fits : (o k : ℕ) → o + k < 2 ^ 63 → add_i64 (pos o) (pos k) ≡ pos (o + k)
unfolding add_i64 to_u64 to_i64
add_i64_fits o k h = ground arith

pos-pos_part : (z : ℤ) → pos 0 ≤ℤ z → z ≡ pos (pos_part z)
pos-pos_part (pos n) h = refl
pos-pos_part (negsuc n) h = absurd (omega arith)

pos_part_small : (z : ℤ) → IsI64 z → pos_part z < 2 ^ 63
pos_part_small (pos n) h = omega arith
pos_part_small (negsuc n) h = omega arith

-- Go's lengths and the challenge's `int64` fields.
pub record Sized (sealed : List ℕ) (ch : ProofChallenge) : Type 0 where
  pub shard_sized : length sealed < 2 ^ 63
  pub offset_fits : IsI64 ch.offset
  pub length_fits : IsI64 ch.length

module _ (sha : Sha256) (sealed : List ℕ) (ch : ProofChallenge) (z : Sized sealed ch) where
  -- For a shard of less than 2^63 bytes and a challenge whose offset and length are int64 values:
  -- where the offset is at least 0, the length at least 1 and their sum at most the shard's size,
  -- `ProofOverShard` answers with the digest over the nonce, the offset, the length and exactly
  -- that window of the shard.
  pub proof_over_shard-InRange :
      InRange sealed ch
      → proof_over_shard sha sealed ch
        ≡ answered (proof_digest sha ch.nonce ch.offset ch.length (window sealed ch))
  unfolding proof_over_shard slice
  proof_over_shard-InRange r =
      let o = pos-pos_part ch.offset r.lower in
      let k = pos-pos_part ch.length (omega (arith, r.nonempty)) in
      let difference =
        ap (sub_i64 (pos (length sealed))) k
        ∙ sub_i64_fits (length sealed) (pos_part ch.length) z.shard_sized
            (omega (arith, z.shard_sized, r.upper)) (omega (arith, r.upper)) in
      let sum =
        ap (λ i. add_i64 i ch.length) o
        ∙ ap (add_i64 (pos (pos_part ch.offset))) k
        ∙ add_i64_fits (pos_part ch.offset) (pos_part ch.length)
            (omega (arith, z.shard_sized, r.upper)) in
      let size : pos_part ch.offset + pos_part ch.length - pos_part ch.offset ≡ pos_part ch.length =
        omega arith in
      ground (arith, difference, sum, size, r.lower, r.nonempty, r.upper)

  range_or_refused : InRange sealed ch ⊎ (proof_over_shard sha sealed ch ≡ challenge_range)
  unfolding proof_over_shard
  range_or_refused = elim (Bool-cases guard) [
    | inl refused ↦ inr (rw refused)
    | inr passed ↦
        let k = pos-pos_part ch.length (ground (arith, passed)) in
        let parts =
          sub_i64_parts (length sealed) (pos_part ch.length) z.shard_sized
            (pos_part_small ch.length z.length_fits) in
        let difference = ap (sub_i64 (pos (length sealed))) k in
        inl (record {
          lower = ground (arith, passed);
          nonempty = ground (arith, passed);
          upper = ground (arith, passed, parts, difference);
        })
  ]
    where
      guard : Bool
      guard =
          ltb_ℤ ch.offset (pos 0)
          || ltb_ℤ ch.length (pos 1)
          || ltb_ℤ (sub_i64 (pos (length sealed)) ch.length) ch.offset

  -- For a shard of less than 2^63 bytes and a challenge whose offset and length are int64 values:
  -- where the offset is negative, the length below 1 or the window ends behind the shard,
  -- `ProofOverShard` returns the range error, and so it never slices out of range.
  pub proof_over_shard_out_of_range :
      ¬ (InRange sealed ch) → proof_over_shard sha sealed ch ≡ challenge_range
  proof_over_shard_out_of_range r = elim range_or_refused [
    | inl fits ↦ absurd (r fits)
    | inr refused ↦ refused
  ]

  -- For a shard of less than 2^63 bytes and a challenge whose offset and length are int64 values:
  -- where the offset is at least 0, the length at least 1 and their sum at most the shard's size,
  -- `ProofOverShard` answers with the digest over the nonce, the offset, the length and exactly that
  -- window of the shard; otherwise it returns the range error, and so it never slices out of range.
  pub proof_over_shard_lem :
      (InRange sealed ch
        × (proof_over_shard sha sealed ch
            ≡ answered (proof_digest sha ch.nonce ch.offset ch.length (window sealed ch))))
      ⊎ (¬ (InRange sealed ch) × (proof_over_shard sha sealed ch ≡ challenge_range))
  proof_over_shard_lem = elim range_or_refused [
    | inl fits ↦ inl (fits, proof_over_shard-InRange fits)
    | inr refused ↦ inr (λ fits. let answer = proof_over_shard-InRange fits in absurd cc, refused)
  ]

  -- A challenge that has an answer is in range.
  pub answered-InRange :
      (d : List ℕ) → proof_over_shard sha sealed ch ≡ answered d → InRange sealed ch
  answered-InRange d h = elim range_or_refused [ inl fits ↦ fits | inr refused ↦ absurd cc ]

-- The bytes under the digest of a proof determine the nonce, the offset, the length and the content
-- of the range, for nonces of 16 bytes and for offsets and lengths that are int64 values.
pub proof_preimage_inj :
    (nonce nonce' : List ℕ) (offset offset' len len' : ℤ) (r r' : List ℕ)
    → (length nonce ≡ 16) × (length nonce' ≡ 16)
    → IsI64 offset × IsI64 offset'
    → IsI64 len × IsI64 len'
    → proof_preimage nonce offset len r ≡ proof_preimage nonce' offset' len' r'
    → (nonce ≡ nonce') × (offset ≡ offset') × (len ≡ len') × (r ≡ r')
unfolding proof_preimage
proof_preimage_inj nonce nonce' offset offset' len len' r r' (n, n') (o, o') (l, l') e =
    let (same_nonce, e1) = append_inj nonce nonce' _ _ (n ∙ sym n') e in
    let (same_offset, e2) = encode-cancel i64 offset offset' _ _ o o' e1 in
    let (same_length, same_range) = encode-cancel i64 len len' _ _ l l' e2 in
    (same_nonce, same_offset, same_length, same_range)
