-- ===== src/Operator/Signing.antt =====
-- What `Sign` of an operator message gives: two signatures that `Verify` accepts.
use sohocloud_protocol.Prelude.{ℕ, ◌≤◌, ◌≡◌, ◌≢◌, refl, some, List, length, arith}
use sohocloud_protocol.Prelude.Int.{ℤ, pos, ◌≤ℤ◌, ◌<ℤ◌}
use sohocloud_protocol.Golang.Ed25519.{Ed25519, sign as ed25519_sign}
use sohocloud_protocol.Operator.Keys.{
  KeyMap, accepted, algo_ed25519, default_algo, key_index_count, lookup,
}
use sohocloud_protocol.Operator.Transmission
use sohocloud_protocol.Operator.Transmission.{OperatorTransmission}
use sohocloud_protocol.Operator.Rotation
use sohocloud_protocol.Operator.Rotation.{OperatorRotation}
use sohocloud_protocol.Operator.Conformance
use sohocloud_protocol.Operator.Conformance.{ConformanceResponse}
use sohocloud_protocol.Operator.Signers.{Signs, PairSigns}
use sohocloud_protocol.Operator.Acceptance.{transmission_accepted_iff, conformance_accepted_iff}
use sohocloud_protocol.Operator.Registry.{UniqueKeys, Others, KeyDiffers, HasAlgo}
use sohocloud_protocol.Operator.Rotations.{rotation_accepted_iff}

-- The public key of the private key is registered at the index.
pub record Holds (c : Ed25519) (keymap : KeyMap) (idx : ℤ) (priv : List ℕ) : Type 0 where
  pub above : pos 0 ≤ℤ idx
  pub below : idx <ℤ key_index_count
  pub priv_sized : length priv ≡ 64
  pub registered :
      lookup idx keymap ≡ some (record { public_key = c.public priv; algo = algo_ed25519 })

unfoldable pub held_signer :
    (c : Ed25519) (keymap : KeyMap) (idx : ℤ) (priv msg : List ℕ)
    → Holds c keymap idx priv
    → Signs c keymap idx algo_ed25519 msg (c.sign priv msg)
held_signer c keymap idx priv msg h = record {
  key = record { public_key = c.public priv; algo = algo_ed25519 };
  above = h.above;
  below = h.below;
  registered = h.registered;
  endorses = record {
    algo_bound = refl;
    algo_known = refl;
    sig_sized = c.length-sign priv msg;
    key_sized = c.length-public priv;
    signed = c.verify-sign priv msg;
  };
}

-- What two holders of different keys sign, the two-of-seven check accepts.
module _ (c : Ed25519) (keymap : KeyMap) (priv0 priv1 : List ℕ) (idx0 idx1 : ℤ)
    (h0 : Holds c keymap idx0 priv0) (h1 : Holds c keymap idx1 priv1) (d : idx0 ≢ idx1)
    (k : c.public priv0 ≢ c.public priv1) where
  held_pair :
      (msg : List ℕ)
      → PairSigns c keymap idx0 idx1 algo_ed25519 msg (c.sign priv0 msg) (c.sign priv1 msg)
  unfolding held_signer
  held_pair msg = record {
    first = held_signer c keymap idx0 priv0 msg h0;
    second = held_signer c keymap idx1 priv1 msg h1;
    indices_differ = d;
    keys_differ = k;
  }

  -- A transmission that is signed with the private keys of two different indices, whose different
  -- "ed25519" public keys are registered there, the algorithm left empty or written out, is accepted
  -- by `Verify`, if its nonce has 16 bytes or more.
  pub transmission_sign_then_verify :
      (t : OperatorTransmission)
      → 16 ≤ length t.nonce
      → default_algo t.algo ≡ algo_ed25519
      → (t' : OperatorTransmission) × (Transmission.sign c priv0 priv1 idx0 idx1 t ≡ some t')
        × (Transmission.verify c keymap t' ≡ accepted)
  unfolding Transmission.sign ed25519_sign Transmission.canonical_bytes
  transmission_sign_then_verify t n a = (
    sent,
    ground (arith, h0.priv_sized, h1.priv_sized, a),
    (transmission_accepted_iff c keymap sent).1 (n, held_pair msg),
  )
    where
      prepared : OperatorTransmission
      prepared = record t { idx0 = idx0; idx1 = idx1; algo = algo_ed25519 }

      msg : List ℕ
      msg = Transmission.canonical_bytes prepared

      sent : OperatorTransmission
      sent = record prepared { sig0 = c.sign priv0 msg; sig1 = c.sign priv1 msg }

  -- A conformance response that is signed with the private keys of two different indices, whose
  -- different "ed25519" public keys are registered there, the algorithm left empty or written out, is
  -- accepted by `Verify`.
  pub conformance_sign_then_verify :
      (r : ConformanceResponse)
      → default_algo r.algo ≡ algo_ed25519
      → (r' : ConformanceResponse) × (Conformance.sign c priv0 priv1 idx0 idx1 r ≡ some r')
        × (Conformance.verify c keymap r' ≡ accepted)
  unfolding Conformance.sign ed25519_sign Conformance.canonical_bytes
  conformance_sign_then_verify r a = (
    sent,
    ground (arith, h0.priv_sized, h1.priv_sized, a),
    (conformance_accepted_iff c keymap sent).1 (held_pair msg),
  )
    where
      prepared : ConformanceResponse
      prepared = record r { idx0 = idx0; idx1 = idx1; algo = algo_ed25519 }

      msg : List ℕ
      msg = Conformance.canonical_bytes prepared

      sent : ConformanceResponse
      sent = record prepared { sig0 = c.sign priv0 msg; sig1 = c.sign priv1 msg }

  -- Over a registry with one entry for an index, a rotation that is signed with the private keys of
  -- two different indices, whose different "ed25519" public keys are registered there, the algorithm
  -- left empty or written out, is accepted by `Verify`, if the nonce has 16 bytes or more, the key
  -- index is one of 0 to 6, the new public key has 32 bytes and is registered at no other index, and
  -- the keys at all other indices are of "ed25519".
  pub rotation_sign_then_verify :
      (r : OperatorRotation)
      → UniqueKeys keymap
      → 16 ≤ length r.nonce
      → default_algo r.algo ≡ algo_ed25519
      → (pos 0 ≤ℤ r.key_index) × (r.key_index <ℤ key_index_count)
      → length r.new_public_key ≡ 32
      → Others keymap r.key_index (KeyDiffers r.new_public_key)
      → Others keymap r.key_index (HasAlgo algo_ed25519)
      → (r' : OperatorRotation) × (Rotation.sign c priv0 priv1 idx0 idx1 r ≡ some r')
        × (Rotation.verify c keymap r' ≡ accepted)
  unfolding Rotation.sign ed25519_sign Rotation.canonical_bytes
  rotation_sign_then_verify r u n a range l new uniform = (
    sent,
    ground (arith, h0.priv_sized, h1.priv_sized, a),
    (rotation_accepted_iff c keymap sent u).1 (record {
      nonce_long = n;
      above = range.0;
      below = range.1;
      key_sized = l;
      key_new = new;
      algo_uniform = uniform;
      signed = held_pair msg;
    }),
  )
    where
      prepared : OperatorRotation
      prepared = record r { idx0 = idx0; idx1 = idx1; algo = algo_ed25519 }

      msg : List ℕ
      msg = Rotation.canonical_bytes prepared

      sent : OperatorRotation
      sent = record prepared { sig0 = c.sign priv0 msg; sig1 = c.sign priv1 msg }
