-- ===== src/Operator/Verdicts.antt =====
-- The result of `Verify` of the three operator messages, errors included.
use sohocloud_protocol.Prelude.{
  ℕ, ◌≤◌, ◌≡◌, ◌↔◌, ◌⊎◌, refl, true, false, List, [], ◌∷◌, length, arith, inl, inr, ltb, ◌==◌,
}
use sohocloud_protocol.Prelude.Bytes.{bytes_equal_iff}
use sohocloud_protocol.Golang.Ed25519.{Ed25519}
use sohocloud_protocol.Operator.Keys.{
  KeyMap, Verdict, OperatorError, accepted, rejected, panicked, and_then, algo_ed25519,
  expected_sig_len, expected_pub_len, nonce_too_short, unknown_algo, algo_mismatch, index_range,
  duplicate_signing_key, min_nonce_len, out_of_range,
}
use sohocloud_protocol.Operator.Transmission.{OperatorTransmission}
use sohocloud_protocol.Operator.Transmission
use sohocloud_protocol.Operator.Conformance.{ConformanceResponse}
use sohocloud_protocol.Operator.Conformance
use sohocloud_protocol.Operator.Rotation.{OperatorRotation, check_duplicate, check_algo}
use sohocloud_protocol.Operator.Rotation
use sohocloud_protocol.Operator.Registry.{
  UniqueKeys, Others, KeyDiffers, HasAlgo, check_duplicate-Others, Others-check_duplicate,
  check_algo-Others, Others-check_algo, check_duplicate_cases, check_algo_cases,
}
use sohocloud_protocol.Operator.Rules.{Rules, Judged, guard-Judged, and_then-Judged, no_rules}
use sohocloud_protocol.Operator.Precedence.{
  IsIndex, pair_rules, pair-Judged, expected_pub, not_iff, out_of_range_iff,
}
use mathlib.Core.Bool.{not}

known_iff : (algo : List ℕ) → (expected_sig_len algo == 0 ≡ false) ↔ (algo ≡ algo_ed25519)
unfolding expected_sig_len
known_iff algo = ground (arith, bytes_equal_iff algo algo_ed25519)

long_iff : (n : ℕ) → (ltb n min_nonce_len ≡ false) ↔ (16 ≤ n)
long_iff n = ground arith

-- The checks of `OperatorTransmission.Verify`, in the order of the code.
abbrev pub transmission_rules : Ed25519 → KeyMap → OperatorTransmission → Rules
transmission_rules c keymap t =
    (16 ≤ length t.nonce, nonce_too_short)
    ∷ (t.algo ≡ algo_ed25519, unknown_algo)
    ∷ pair_rules c keymap t.idx0 t.idx1 t.algo (Transmission.canonical_bytes t) t.sig0 t.sig1

abbrev pub conformance_rules : Ed25519 → KeyMap → ConformanceResponse → Rules
conformance_rules c keymap r =
    (r.algo ≡ algo_ed25519, unknown_algo)
    ∷ pair_rules c keymap r.idx0 r.idx1 r.algo (Conformance.canonical_bytes r) r.sig0 r.sig1

abbrev pub rotation_rules : Ed25519 → KeyMap → OperatorRotation → Rules
rotation_rules c keymap r =
    (16 ≤ length r.nonce, nonce_too_short)
    ∷ (r.algo ≡ algo_ed25519, unknown_algo)
    ∷ (IsIndex r.key_index, index_range)
    ∷ (length r.new_public_key ≡ 32, unknown_algo)
    ∷ (Others keymap r.key_index (KeyDiffers r.new_public_key), duplicate_signing_key)
    ∷ (Others keymap r.key_index (HasAlgo r.algo), algo_mismatch)
    ∷ pair_rules c keymap r.idx0 r.idx1 r.algo (Rotation.canonical_bytes r) r.sig0 r.sig1

and_then_assoc : (u v w : Verdict) → and_then (and_then u v) w ≡ and_then u (and_then v w)
and_then_assoc accepted v w = refl
and_then_assoc (rejected e) v w = refl
and_then_assoc panicked v w = refl

module _ (c : Ed25519) (keymap : KeyMap) where
  pub transmission-Judged :
      (t : OperatorTransmission)
      → Judged (Transmission.verify c keymap t) (transmission_rules c keymap t)
  unfolding Transmission.verify
  transmission-Judged t =
      guard-Judged (ltb (length t.nonce) min_nonce_len) _ nonce_too_short _ _
        (long_iff (length t.nonce))
        (λ n.
          guard-Judged (expected_sig_len t.algo == 0) _ unknown_algo _ _ (known_iff t.algo)
            (λ known.
              pair-Judged c keymap t.idx0 t.idx1 t.algo (Transmission.canonical_bytes t) t.sig0
                t.sig1 known))

  pub conformance-Judged :
      (r : ConformanceResponse)
      → Judged (Conformance.verify c keymap r) (conformance_rules c keymap r)
  unfolding Conformance.verify
  conformance-Judged r =
      guard-Judged (expected_sig_len r.algo == 0) _ unknown_algo _ _ (known_iff r.algo) (λ known.
        pair-Judged c keymap r.idx0 r.idx1 r.algo (Conformance.canonical_bytes r) r.sig0 r.sig1
          known)

  -- `OperatorTransmission.Verify` returns, with nil exactly if all its checks hold, and otherwise with
  -- the error of the first that fails, in this order: a nonce of 16 bytes or more; the algorithm
  -- "ed25519"; two different indices, both of 0 to 6, which do not resolve to one public key; and for
  -- the first index and then the second a registered key, of the algorithm, a signature of 64 bytes, a
  -- key of 32 bytes (else the error for a missing key) and that the key accepts the signature on the
  -- canonical bytes. `ConformanceResponse.Verify` does the same without the check of the nonce.
  pub signed_pair-Judged :
      (t : OperatorTransmission) (r : ConformanceResponse)
      → Judged (Transmission.verify c keymap t) (transmission_rules c keymap t)
        × Judged (Conformance.verify c keymap r) (conformance_rules c keymap r)
  signed_pair-Judged t r = (transmission-Judged t, conformance-Judged r)

  -- A check that returns nil or its one error.
  loop-Judged :
      (v : Verdict) (P : Type 0) (e : OperatorError)
      → (v ≡ accepted) ⊎ (v ≡ rejected e)
      → (v ≡ accepted) ↔ P
      → Judged v ((P, e) ∷ [])
  loop-Judged v P e cases h = elim cases [
    | inl a ↦ rw a (guard-Judged false P e accepted [] (λ k. h.0 a, λ p. refl) (λ p. no_rules))
    | inr b ↦ rw b (guard-Judged true P e accepted [] (λ k. cc, λ p. cc (h.1 p, b)) (λ p. no_rules))
  ]

  loops-Judged :
      (r : OperatorRotation)
      → UniqueKeys keymap
      → Judged
          (and_then
            (check_duplicate keymap r.key_index r.new_public_key)
            (check_algo keymap r.key_index r.algo))
          ((Others keymap r.key_index (KeyDiffers r.new_public_key), duplicate_signing_key)
            ∷ (Others keymap r.key_index (HasAlgo r.algo), algo_mismatch)
            ∷ [])
  loops-Judged r u =
      and_then-Judged (check_duplicate keymap r.key_index r.new_public_key) _ _ _
        (loop-Judged _ _ _ (check_duplicate_cases keymap r.key_index r.new_public_key) (
          check_duplicate-Others keymap r.key_index r.new_public_key,
          Others-check_duplicate keymap r.key_index r.new_public_key u,
        ))
        (λ _. loop-Judged _ _ _ (check_algo_cases keymap r.key_index r.algo) (
          check_algo-Others keymap r.key_index r.algo,
          Others-check_algo keymap r.key_index r.algo u,
        ))

  -- Over a registry with one entry for an index, `OperatorRotation.Verify` returns, with nil exactly if
  -- all its checks hold, and otherwise with the error of the first that fails, in this order: a nonce
  -- of 16 bytes or more; the algorithm "ed25519"; a key index of 0 to 6; a new public key of 32 bytes
  -- (else the error for an unknown algorithm), which is registered at no other index; the algorithm at
  -- all other indices; and the checks of the two signatures, as for a transmission.
  pub rotation-Judged :
      (r : OperatorRotation)
      → UniqueKeys keymap
      → Judged (Rotation.verify c keymap r) (rotation_rules c keymap r)
  unfolding Rotation.verify
  rotation-Judged r u =
      guard-Judged (ltb (length r.nonce) min_nonce_len) _ nonce_too_short _ _
        (long_iff (length r.nonce))
        (λ n.
          guard-Judged (expected_sig_len r.algo == 0) _ unknown_algo _ _ (known_iff r.algo)
            (λ known.
              guard-Judged (out_of_range r.key_index) _ index_range _ _
                (out_of_range_iff r.key_index)
                (λ i.
                  guard-Judged (not (length r.new_public_key == expected_pub_len r.algo)) _
                    unknown_algo _ _
                    (not_iff _ _ (expected_pub r.algo known (length r.new_public_key)))
                    (λ l.
                      rw
                        (← and_then_assoc (check_duplicate keymap r.key_index r.new_public_key)
                          (check_algo keymap r.key_index r.algo) _)
                        (and_then-Judged _ _ _ _ (loops-Judged r u) (λ _.
                          pair-Judged c keymap r.idx0 r.idx1 r.algo (Rotation.canonical_bytes r)
                            r.sig0 r.sig1 known))))))
