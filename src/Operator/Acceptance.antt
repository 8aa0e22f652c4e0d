-- ===== src/Operator/Acceptance.antt =====
-- When `Verify` of the three operator messages accepts, and that it always returns.
use sohocloud_protocol.Prelude.{ℕ, ◌≤◌, ◌≡◌, ◌≢◌, ◌↔◌, List, [], ◌∷◌, length, arith}
use sohocloud_protocol.Prelude.Int.{ℤ}
use sohocloud_protocol.Prelude.Bytes.{bytes_equal_iff}
use sohocloud_protocol.Golang.Ed25519.{Ed25519}
use sohocloud_protocol.Operator.Keys.{KeyMap, accepted, panicked, algo_ed25519, expected_sig_len}
use sohocloud_protocol.Operator.Transmission.{OperatorTransmission}
use sohocloud_protocol.Operator.Rotation.{OperatorRotation, check_duplicate, check_algo}
use sohocloud_protocol.Operator.Conformance.{ConformanceResponse}
use sohocloud_protocol.Operator.Transmission
use sohocloud_protocol.Operator.Rotation
use sohocloud_protocol.Operator.Conformance
use sohocloud_protocol.Operator.Signers.{
  PairSigns, verify_pair-PairSigns, PairSigns-verify_pair, verify_pair-ne-panicked,
}

-- A pair of signatures is only accepted under the known algorithm.
PairSigns-algo_known :
    (c : Ed25519) (keymap : KeyMap) (idx0 idx1 : ℤ) (algo msg sig0 sig1 : List ℕ)
    → PairSigns c keymap idx0 idx1 algo msg sig0 sig1
    → expected_sig_len algo ≡ 64
unfolding expected_sig_len
PairSigns-algo_known c keymap idx0 idx1 algo msg sig0 sig1 p =
    ground (arith, p.first.endorses.algo_known, bytes_equal_iff algo algo_ed25519)

module _ (c : Ed25519) (keymap : KeyMap) (t : OperatorTransmission) where
  abbrev TransmissionSigned : Type 0
  TransmissionSigned =
      PairSigns c keymap t.idx0 t.idx1 t.algo (Transmission.canonical_bytes t) t.sig0 t.sig1

  -- `OperatorTransmission.Verify` accepts exactly if the nonce has 16 bytes or more and two
  -- different keys, registered at two different indices of 0 to 6, have 32 bytes and are of the
  -- transmission's algorithm, which is "ed25519", and each accepts its signature of 64 bytes on the
  -- canonical bytes.
  pub transmission_accepted_iff :
      (Transmission.verify c keymap t ≡ accepted) ↔ ((16 ≤ length t.nonce) × TransmissionSigned)
  unfolding Transmission.verify
  transmission_accepted_iff = (
    λ h. (ground arith, verify_pair-PairSigns c keymap _ _ _ _ _ _ (ground arith)),
    λ h. ground (
      arith,
      h.0,
      PairSigns-algo_known c keymap _ _ _ _ _ _ h.1,
      PairSigns-verify_pair c keymap _ _ _ _ _ _ h.1,
    ),
  )

module _ (c : Ed25519) (keymap : KeyMap) (r : ConformanceResponse) where
  abbrev ResponseSigned : Type 0
  ResponseSigned =
      PairSigns c keymap r.idx0 r.idx1 r.algo (Conformance.canonical_bytes r) r.sig0 r.sig1

  -- `ConformanceResponse.Verify` accepts exactly if two different keys, registered at two different
  -- indices of 0 to 6, have 32 bytes and are of the response's algorithm, which is "ed25519", and
  -- each accepts its signature of 64 bytes on the canonical bytes.
  pub conformance_accepted_iff : (Conformance.verify c keymap r ≡ accepted) ↔ ResponseSigned
  unfolding Conformance.verify
  conformance_accepted_iff = (
    λ h. verify_pair-PairSigns c keymap _ _ _ _ _ _ (ground arith),
    λ h. ground (
      arith,
      PairSigns-algo_known c keymap _ _ _ _ _ _ h,
      PairSigns-verify_pair c keymap _ _ _ _ _ _ h,
    ),
  )

check_duplicate-ne-panicked :
    (m : KeyMap) (i : ℤ) (key : List ℕ) → check_duplicate m i key ≢ panicked
unfolding check_duplicate
check_duplicate-ne-panicked [] i key h = cc
check_duplicate-ne-panicked ((j, rec) ∷ m) i key h =
    ground (arith, check_duplicate-ne-panicked m i key)

check_algo-ne-panicked : (m : KeyMap) (i : ℤ) (algo : List ℕ) → check_algo m i algo ≢ panicked
unfolding check_algo
check_algo-ne-panicked [] i algo h = cc
check_algo-ne-panicked ((j, rec) ∷ m) i algo h = ground (arith, check_algo-ne-panicked m i algo)

-- `Verify` of an operator transmission, rotation or conformance response does not panic, whatever
-- the message and the registry.
pub verify-ne-panicked :
    (c : Ed25519) (keymap : KeyMap) (t : OperatorTransmission) (r : OperatorRotation)
    (s : ConformanceResponse)
    → (Transmission.verify c keymap t ≢ panicked)
      × (Rotation.verify c keymap r ≢ panicked)
      × (Conformance.verify c keymap s ≢ panicked)
unfolding Transmission.verify Rotation.verify Conformance.verify
verify-ne-panicked c keymap t r s = (
  λ h. ground (
    arith,
    verify_pair-ne-panicked c keymap t.idx0 t.idx1 t.algo (Transmission.canonical_bytes t) t.sig0
        t.sig1,
  ),
  λ h. ground (
    arith,
    check_duplicate-ne-panicked keymap r.key_index r.new_public_key,
    check_algo-ne-panicked keymap r.key_index r.algo,
    verify_pair-ne-panicked c keymap r.idx0 r.idx1 r.algo (Rotation.canonical_bytes r) r.sig0
        r.sig1,
  ),
  λ h. ground (
    arith,
    verify_pair-ne-panicked c keymap s.idx0 s.idx1 s.algo (Conformance.canonical_bytes s) s.sig0
        s.sig1,
  ),
)
