-- ===== src/Operator/Duplicate.antt =====
-- When the two-of-seven check reports one key at two indices.
use sohocloud_protocol.Prelude.{
  ℕ, ◌≡◌, ◌≢◌, ◌↔◌, Option, none, some, true, false, List, arith, inl, inr, Option-cases,
}
use sohocloud_protocol.Prelude.Int.{ℤ, pos, ◌≤ℤ◌, ◌<ℤ◌, eqb_ℤ_iff}
use sohocloud_protocol.Prelude.Bytes.{bytes_equal_iff}
use sohocloud_protocol.Golang.Ed25519.{Ed25519}
use sohocloud_protocol.Operator.Keys.{
  KeyMap, KeyRecord, rejected, key_index_count, lookup, duplicate_signing_key, verifier_verify,
  verify_record, verify_at, distinct_keys_at, verify_pair,
}

verify_record-ne-duplicate :
    (c : Ed25519) (o : Option KeyRecord) (algo msg sig : List ℕ)
    → verify_record c o algo msg sig ≢ rejected duplicate_signing_key
unfolding verify_record
verify_record-ne-duplicate c none algo msg sig h = cc
verify_record-ne-duplicate c (some k) algo msg sig h =
    elim (Option-cases (verifier_verify c k.public_key msg sig)) [
      | inl e ↦ ground arith
      | inr (true, e) ↦ ground arith
      | inr (false, e) ↦ ground arith
    ]

verify_at-ne-duplicate :
    (c : Ed25519) (keymap : KeyMap) (idx : ℤ) (algo msg sig : List ℕ)
    → verify_at c keymap idx algo msg sig ≢ rejected duplicate_signing_key
unfolding verify_at
verify_at-ne-duplicate c keymap idx algo msg sig h =
    ground (arith, verify_record-ne-duplicate c (lookup idx keymap) algo msg sig)

-- One public key at two indices.
pub record SharedKey (keymap : KeyMap) (idx0 idx1 : ℤ) : Type 0 where
  pub key0 : KeyRecord
  pub key1 : KeyRecord
  pub above : (pos 0 ≤ℤ idx0) × (pos 0 ≤ℤ idx1)
  pub below : (idx0 <ℤ key_index_count) × (idx1 <ℤ key_index_count)
  pub registered0 : lookup idx0 keymap ≡ some key0
  pub registered1 : lookup idx1 keymap ≡ some key1
  pub same : key0.public_key ≡ key1.public_key

distinct-SharedKey :
    (keymap : KeyMap) (idx0 idx1 : ℤ)
    → distinct_keys_at keymap idx0 idx1 ≡ rejected duplicate_signing_key
    → SharedKey keymap idx0 idx1
unfolding distinct_keys_at
distinct-SharedKey keymap idx0 idx1 h = elim (Option-cases (lookup idx0 keymap)) [
  | inl e ↦ absurd (ground arith)
  | inr (key0, e) ↦ elim (Option-cases (lookup idx1 keymap)) [
    | inl e' ↦ absurd (ground arith)
    | inr (key1, e') ↦ record {
      key0 = key0;
      key1 = key1;
      above = ground arith;
      below = ground arith;
      registered0 = e;
      registered1 = e';
      same = ground (arith, bytes_equal_iff key0.public_key key1.public_key);
    }
  ]
]

module _ (c : Ed25519) (keymap : KeyMap) (idx0 idx1 : ℤ) (algo msg sig0 sig1 : List ℕ) where
  shared-duplicate :
      idx0 ≢ idx1
      → SharedKey keymap idx0 idx1
      → verify_pair c keymap idx0 idx1 algo msg sig0 sig1 ≡ rejected duplicate_signing_key
  unfolding verify_pair distinct_keys_at
  shared-duplicate d k = ground (
    arith,
    eqb_ℤ_iff idx0 idx1,
    bytes_equal_iff k.key0.public_key k.key1.public_key,
    k.above,
    k.below,
    k.registered0,
    k.registered1,
    k.same,
  )

  duplicate-distinct :
      verify_pair c keymap idx0 idx1 algo msg sig0 sig1 ≡ rejected duplicate_signing_key
      → (idx0 ≢ idx1) × (distinct_keys_at keymap idx0 idx1 ≡ rejected duplicate_signing_key)
  unfolding verify_pair
  duplicate-distinct h = (
    ground (arith, eqb_ℤ_iff idx0 idx1),
    ground (
      arith,
      verify_at-ne-duplicate c keymap idx0 algo msg sig0,
      verify_at-ne-duplicate c keymap idx1 algo msg sig1,
    ),
  )

  -- `verifyPair` returns `ErrDuplicateSigningKey` exactly if two different indices of 0 to 6 resolve
  -- to keys with the same public key, whatever the message, the signatures and the algorithm.
  pub verify_pair_duplicate_iff :
      (verify_pair c keymap idx0 idx1 algo msg sig0 sig1 ≡ rejected duplicate_signing_key)
      ↔ ((idx0 ≢ idx1) × SharedKey keymap idx0 idx1)
  verify_pair_duplicate_iff = (
    λ h. ((duplicate-distinct h).0, distinct-SharedKey keymap idx0 idx1 (duplicate-distinct h).1),
    λ p. shared-duplicate p.0 p.1,
  )
