-- ===== src/Operator/Signers.antt =====
-- When the two-of-seven check accepts, and that it returns.
use sohocloud_protocol.Prelude.{
  ℕ, ◌≡◌, ◌≢◌, refl, Option, none, some, Bool, true, false, List, length, arith, inl, inr,
  Option-cases,
}
use sohocloud_protocol.Prelude.Int.{ℤ, pos, ◌≤ℤ◌, ◌<ℤ◌, eqb_ℤ_iff}
use sohocloud_protocol.Prelude.Bytes.{bytes_equal, bytes_equal_iff}
use sohocloud_protocol.Golang.Ed25519.{Ed25519, verify as ed25519_verify}
use sohocloud_protocol.Operator.Keys.{
  KeyMap, KeyRecord, accepted, panicked, algo_ed25519, key_index_count, lookup, expected_sig_len,
  expected_pub_len, verifier_verify, verify_record, verify_at, distinct_keys_at, verify_pair,
}

-- What `verifyAt` asks of the key registered at an index.
pub record Endorses (c : Ed25519) (key : KeyRecord) (algo msg sig : List ℕ) : Type 0 where
  pub algo_bound : key.algo ≡ algo
  pub algo_known : algo ≡ algo_ed25519
  pub sig_sized : length sig ≡ 64
  pub key_sized : length key.public_key ≡ 32
  pub signed : c.verify key.public_key msg sig ≡ true

-- The algorithm is decided first: with an unknown one every length is compared with 0.
module _ (c : Ed25519) (key : KeyRecord) (algo msg sig : List ℕ) where
  verify_record-Endorses :
      (known : Bool)
      → bytes_equal algo algo_ed25519 ≡ known
      → verify_record c (some key) algo msg sig ≡ accepted
      → Endorses c key algo msg sig
  unfolding verify_record expected_sig_len expected_pub_len verifier_verify ed25519_verify
  verify_record-Endorses true e h =
      let known = (bytes_equal_iff algo algo_ed25519).0 e in
      ground (arith, bytes_equal_iff key.algo algo)
  verify_record-Endorses false e h = ground arith

  Endorses-verify_record :
      Endorses c key algo msg sig → verify_record c (some key) algo msg sig ≡ accepted
  unfolding verify_record expected_sig_len expected_pub_len verifier_verify ed25519_verify
  Endorses-verify_record e =
      ground (arith, bytes_equal_iff key.algo algo, bytes_equal_iff algo algo_ed25519)

verify_record-ne-panicked :
    (c : Ed25519) (o : Option KeyRecord) (algo msg sig : List ℕ)
    → verify_record c o algo msg sig ≢ panicked
unfolding verify_record verifier_verify ed25519_verify
verify_record-ne-panicked c none algo msg sig h = cc
verify_record-ne-panicked c (some k) algo msg sig h = ground arith

-- An index between 0 and 6 at which a key is registered that endorses the signature.
pub record Signs (c : Ed25519) (keymap : KeyMap) (idx : ℤ) (algo msg sig : List ℕ) : Type 0 where
  pub key : KeyRecord
  pub above : pos 0 ≤ℤ idx
  pub below : idx <ℤ key_index_count
  pub registered : lookup idx keymap ≡ some key
  pub endorses : Endorses c key algo msg sig

module _ (c : Ed25519) (keymap : KeyMap) (idx : ℤ) (algo msg sig : List ℕ) where
  verify_at-Signs : verify_at c keymap idx algo msg sig ≡ accepted → Signs c keymap idx algo msg sig
  unfolding verify_at
  verify_at-Signs h = elim (Option-cases (lookup idx keymap)) [
    | inl e ↦ absurd (unfold verify_record in ground arith)
    | inr (key, e) ↦ record {
      key = key;
      above = ground arith;
      below = ground arith;
      registered = e;
      endorses =
          verify_record-Endorses c key algo msg sig (bytes_equal algo algo_ed25519) refl
            (ground arith);
    }
  ]

  Signs-verify_at : Signs c keymap idx algo msg sig → verify_at c keymap idx algo msg sig ≡ accepted
  unfolding verify_at
  Signs-verify_at s = ground (
    arith,
    s.registered,
    s.above,
    s.below,
    Endorses-verify_record c s.key algo msg sig s.endorses,
  )

  pub verify_at-ne-panicked : verify_at c keymap idx algo msg sig ≢ panicked
  unfolding verify_at
  verify_at-ne-panicked h =
      ground (arith, verify_record-ne-panicked c (lookup idx keymap) algo msg sig)

-- Two different keys, at two different indices, that both endorse the message.
pub record PairSigns (c : Ed25519) (keymap : KeyMap) (idx0 idx1 : ℤ) (algo msg sig0 sig1 : List ℕ)
    : Type 0 where
  pub first : Signs c keymap idx0 algo msg sig0
  pub second : Signs c keymap idx1 algo msg sig1
  pub indices_differ : idx0 ≢ idx1
  pub keys_differ : first.key.public_key ≢ second.key.public_key

module _ (c : Ed25519) (keymap : KeyMap) (idx0 idx1 : ℤ) (algo msg sig0 sig1 : List ℕ) where
  pub verify_pair-PairSigns :
      verify_pair c keymap idx0 idx1 algo msg sig0 sig1 ≡ accepted
      → PairSigns c keymap idx0 idx1 algo msg sig0 sig1
  unfolding verify_pair distinct_keys_at
  verify_pair-PairSigns h =
      let s0 = verify_at-Signs c keymap idx0 algo msg sig0 (ground arith) in
      let s1 = verify_at-Signs c keymap idx1 algo msg sig1 (ground arith) in
      record {
        first = s0;
        second = s1;
        indices_differ = λ e. ground (arith, eqb_ℤ_iff idx0 idx1);
        keys_differ = λ e. ground (
          arith,
          s0.registered,
          s1.registered,
          bytes_equal_iff s0.key.public_key s1.key.public_key,
        );
      }

  pub PairSigns-verify_pair :
      PairSigns c keymap idx0 idx1 algo msg sig0 sig1
      → verify_pair c keymap idx0 idx1 algo msg sig0 sig1 ≡ accepted
  unfolding verify_pair distinct_keys_at
  PairSigns-verify_pair p = ground (
    arith,
    p.first.registered,
    p.first.above,
    p.first.below,
    p.second.registered,
    p.second.above,
    p.second.below,
    eqb_ℤ_iff idx0 idx1,
    bytes_equal_iff p.first.key.public_key p.second.key.public_key,
    Signs-verify_at c keymap idx0 algo msg sig0 p.first,
    Signs-verify_at c keymap idx1 algo msg sig1 p.second,
  )

  pub verify_pair-ne-panicked : verify_pair c keymap idx0 idx1 algo msg sig0 sig1 ≢ panicked
  unfolding verify_pair distinct_keys_at
  verify_pair-ne-panicked h = ground (
    arith,
    verify_at-ne-panicked c keymap idx0 algo msg sig0,
    verify_at-ne-panicked c keymap idx1 algo msg sig1,
  )
