-- ===== src/Operator/Rotations.antt =====
-- `OperatorRotation.Verify`: when it accepts, that the order of Go's map iteration does not show,
-- and what an accepted rotation keeps of a registry.
use sohocloud_protocol.Prelude.{ℕ, ◌≤◌, ◌≡◌, ◌↔◌, sym, ◌∙◌, List, length, arith, inl, inr}
use sohocloud_protocol.Prelude.Int.{ℤ, pos, ◌≤ℤ◌, ◌<ℤ◌}
use sohocloud_protocol.Prelude.Bytes.{bytes_equal_iff}
use sohocloud_protocol.Golang.Ed25519.{Ed25519}
use sohocloud_protocol.Operator.Keys.{
  KeyMap, accepted, algo_ed25519, key_index_count, lookup, expected_sig_len, expected_pub_len,
  verify_pair, verify_at, distinct_keys_at,
}
use sohocloud_protocol.Operator.Rotation.{
  OperatorRotation, check_duplicate, check_algo, canonical_bytes, verify,
}
use sohocloud_protocol.Operator.Signers.{PairSigns, verify_pair-PairSigns, PairSigns-verify_pair}
use sohocloud_protocol.Operator.Registry.{
  UniqueKeys, Others, KeyDiffers, HasAlgo, check_duplicate-Others, Others-check_duplicate,
  check_algo-Others, Others-check_algo, check_duplicate_cases, check_algo_cases,
}

-- What `Verify` asks of a rotation against the current keys.
pub record Admits (c : Ed25519) (keymap : KeyMap) (r : OperatorRotation) : Type 0 where
  pub nonce_long : 16 ≤ length r.nonce
  pub above : pos 0 ≤ℤ r.key_index
  pub below : r.key_index <ℤ key_index_count
  pub key_sized : length r.new_public_key ≡ 32
  pub key_new : Others keymap r.key_index (KeyDiffers r.new_public_key)
  pub algo_uniform : Others keymap r.key_index (HasAlgo r.algo)
  pub signed : PairSigns c keymap r.idx0 r.idx1 r.algo (canonical_bytes r) r.sig0 r.sig1

module _ (c : Ed25519) (keymap : KeyMap) (r : OperatorRotation) where
  pub rotation_accepted-Admits : verify c keymap r ≡ accepted → Admits c keymap r
  unfolding verify
  rotation_accepted-Admits h =
      let p =
        verify_pair-PairSigns c keymap r.idx0 r.idx1 r.algo (canonical_bytes r) r.sig0 r.sig1
          (ground arith) in
      record {
        nonce_long = ground arith;
        above = ground arith;
        below = ground arith;
        key_sized =
            unfold expected_pub_len in
            ground (arith, p.first.endorses.algo_known, bytes_equal_iff r.algo algo_ed25519);
        key_new = check_duplicate-Others keymap r.key_index r.new_public_key (ground arith);
        algo_uniform = check_algo-Others keymap r.key_index r.algo (ground arith);
        signed = p;
      }

  Admits-verify : UniqueKeys keymap → Admits c keymap r → verify c keymap r ≡ accepted
  unfolding verify expected_sig_len expected_pub_len
  Admits-verify u a = ground (
    arith,
    a.nonce_long,
    a.above,
    a.below,
    a.key_sized,
    a.signed.first.endorses.algo_known,
    bytes_equal_iff r.algo algo_ed25519,
    Others-check_duplicate keymap r.key_index r.new_public_key u a.key_new,
    Others-check_algo keymap r.key_index r.algo u a.algo_uniform,
    PairSigns-verify_pair c keymap r.idx0 r.idx1 r.algo (canonical_bytes r) r.sig0 r.sig1 a.signed,
  )

  -- Over a registry with one entry for an index, `OperatorRotation.Verify` accepts exactly if the
  -- nonce has 16 bytes or more, the key index is one of 0 to 6, the new public key has 32 bytes and
  -- is registered at no other index, every key registered at another index is of the rotation's
  -- algorithm, which is "ed25519", and two different keys of 32 bytes and of this algorithm,
  -- registered at two different indices of 0 to 6, each accept their signature of 64 bytes on the
  -- canonical bytes.
  pub rotation_accepted_iff : UniqueKeys keymap → (verify c keymap r ≡ accepted) ↔ Admits c keymap r
  rotation_accepted_iff u = (rotation_accepted-Admits, Admits-verify u)

-- Two maps with the same entries, perhaps in another order.
module _ (m m' : KeyMap) (u : UniqueKeys m) (u' : UniqueKeys m')
    (same : (i : ℤ) → lookup i m ≡ lookup i m') where
  check_duplicate-eq :
      (idx : ℤ) (new : List ℕ) → check_duplicate m idx new ≡ check_duplicate m' idx new
  check_duplicate-eq idx new = elim (check_duplicate_cases m idx new) [
    | inl a ↦
        a
        ∙ sym (
            Others-check_duplicate m' idx new u'
              (λ i key e d. check_duplicate-Others m idx new a i key (same i ∙ e) d))
    | inr b ↦ elim (check_duplicate_cases m' idx new) [
      | inl a ↦
          Others-check_duplicate m idx new u
            (λ i key e d. check_duplicate-Others m' idx new a i key (sym (same i) ∙ e) d)
          ∙ sym a
      | inr b' ↦ b ∙ sym b'
    ]
  ]

  check_algo-eq : (idx : ℤ) (algo : List ℕ) → check_algo m idx algo ≡ check_algo m' idx algo
  check_algo-eq idx algo = elim (check_algo_cases m idx algo) [
    | inl a ↦
        a
        ∙ sym (
            Others-check_algo m' idx algo u'
              (λ i key e d. check_algo-Others m idx algo a i key (same i ∙ e) d))
    | inr b ↦ elim (check_algo_cases m' idx algo) [
      | inl a ↦
          Others-check_algo m idx algo u
            (λ i key e d. check_algo-Others m' idx algo a i key (sym (same i) ∙ e) d)
          ∙ sym a
      | inr b' ↦ b ∙ sym b'
    ]
  ]

  verify_pair-eq :
      (c : Ed25519) (idx0 idx1 : ℤ) (algo msg sig0 sig1 : List ℕ)
      → verify_pair c m idx0 idx1 algo msg sig0 sig1 ≡ verify_pair c m' idx0 idx1 algo msg sig0 sig1
  unfolding verify_pair distinct_keys_at verify_at
  verify_pair-eq c idx0 idx1 algo msg sig0 sig1 = rw (same idx0, same idx1)

  -- `OperatorRotation.Verify` gives the same result, errors included, over two registries that have
  -- one entry for an index and the same keys at the same indices, in whatever order their entries
  -- are iterated.
  pub verify_iteration_order : (c : Ed25519) (r : OperatorRotation) → verify c m r ≡ verify c m' r
  unfolding verify
  verify_iteration_order c r = rw (
    check_duplicate-eq r.key_index r.new_public_key,
    check_algo-eq r.key_index r.algo,
    verify_pair-eq c r.idx0 r.idx1 r.algo (canonical_bytes r) r.sig0 r.sig1,
  )
