-- ===== src/Examples/Verdicts.antt =====
-- The errors of operator messages at a registry of two keys.
use sohocloud_protocol.Prelude.{◌≡◌, refl, [], replicate}
use sohocloud_protocol.Prelude.Int.{pos}
use sohocloud_protocol.Prelude.Bytes.{codes, bytes_equal}
use sohocloud_protocol.Operator.Keys.{
  rejected, nonce_too_short, unknown_algo, duplicate_signing_key, expected_sig_len,
  expected_pub_len, lookup, distinct_keys_at, verify_pair,
}
use sohocloud_protocol.Operator.Transmission.{OperatorTransmission}
use sohocloud_protocol.Operator.Transmission
use sohocloud_protocol.Operator.Conformance
use sohocloud_protocol.Operator.Rotation
use sohocloud_protocol.Operator.Rules.{Judged}
use sohocloud_protocol.Operator.Verdicts.{
  transmission_rules, conformance_rules, signed_pair-Judged, rotation_rules, rotation-Judged,
}
use sohocloud_protocol.Examples.Operators.{keys, nonce, sending, scheme, answer, shared}
use sohocloud_protocol.Examples.Toy.{pad}
use sohocloud_protocol.Examples.Rotations.{rotation, keys-UniqueKeys}

-- Everything is wrong with it, and the nonce comes first.
abbrev hopeless : OperatorTransmission
hopeless = record sending { nonce = []; algo = codes "none"; idx1 = pos 9 }

short_nonce_first : Transmission.verify scheme keys hopeless ≡ rejected nonce_too_short
unfolding Transmission.verify
short_nonce_first = refl

algo_second :
    Transmission.verify scheme keys (record hopeless { nonce = nonce }) ≡ rejected unknown_algo
unfolding Transmission.verify expected_sig_len bytes_equal
algo_second = refl

-- One key at two indices is reported before a signature that is missing.
duplicate_first :
    Transmission.verify scheme shared (record sending { sig0 = []; sig1 = [] })
    ≡ rejected duplicate_signing_key
unfolding Transmission.verify expected_sig_len bytes_equal verify_pair distinct_keys_at lookup pad
duplicate_first = refl

-- A new key of the wrong length has the error of an unknown algorithm.
odd_key :
    Rotation.verify scheme keys (record rotation { new_public_key = replicate 31 11 })
    ≡ rejected unknown_algo
unfolding Rotation.verify expected_sig_len expected_pub_len bytes_equal
odd_key = refl

signed_pair-Judged_example :
    Judged (Transmission.verify scheme keys hopeless) (transmission_rules scheme keys hopeless)
    × Judged (Conformance.verify scheme keys answer) (conformance_rules scheme keys answer)
signed_pair-Judged_example = signed_pair-Judged scheme keys hopeless answer

rotation-Judged_example :
    Judged (Rotation.verify scheme keys rotation) (rotation_rules scheme keys rotation)
rotation-Judged_example = rotation-Judged scheme keys rotation keys-UniqueKeys
