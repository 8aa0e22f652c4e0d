-- ===== src/Examples/Rotations.antt =====
-- The rotation of a key, and what a signature is not good for.
use sohocloud_protocol.Prelude.{◌≡◌, ◌≢◌, refl, [], ◌∷◌, some, arith, inl, inr, replicate, ◌⊎◌}
use sohocloud_protocol.Prelude.Int.{ℤ, pos, eqb_ℤ_iff}
use sohocloud_protocol.Prelude.Bytes.{codes, bytes_equal_refl}
use sohocloud_protocol.Operator.Keys.{KeyRecord, accepted, algo_ed25519, lookup}
use sohocloud_protocol.Operator.Transmission.{OperatorTransmission}
use sohocloud_protocol.Operator.Transmission
use sohocloud_protocol.Operator.Rotation.{OperatorRotation}
use sohocloud_protocol.Operator.Rotation
use sohocloud_protocol.Operator.Acceptance.{transmission_accepted_iff}
use sohocloud_protocol.Operator.Registry.{UniqueKeys}
use sohocloud_protocol.Operator.Rotations.{Admits, rotation_accepted_iff}
use sohocloud_protocol.Operator.Install.{IsRegistry}
use sohocloud_protocol.Operator.Signing.{rotation_sign_then_verify}
use sohocloud_protocol.Operator.Replay.{operator_no_replay}
use sohocloud_protocol.Operator.History.{history}
use sohocloud_protocol.Operator.Locality.{rotation_again}
use sohocloud_protocol.Operator.GoMap.{history_order}
use sohocloud_protocol.Examples.Toy.{pad, length-pad, toy-Binds, alice, bob}
use sohocloud_protocol.Examples.Operators.{
  alice_key, bob_key, keys, keys_reordered, nonce, sending, marked, scheme, alice-Holds, bob-Holds,
  keys_differ, both_sign, answer_signed, answer_accepted, algo_named,
}

abbrev pub rotation : OperatorRotation
rotation = record {
  operator_id = codes "op";
  key_index = pos 2;
  new_public_key = replicate 32 11;
  algo = algo_ed25519;
  ts_unix_nano = pos 1700000050500000000;
  nonce = nonce;
  seq = 2;
  idx0 = pos 0;
  idx1 = pos 1;
  sig0 = [];
  sig1 = [];
}

abbrev pub rotation_signed : OperatorRotation
rotation_signed =
    let msg = Rotation.canonical_bytes rotation in
    record rotation { sig0 = scheme.sign alice msg; sig1 = scheme.sign bob msg }

pub keys-UniqueKeys : UniqueKeys keys
unfolding lookup
keys-UniqueKeys = (refl, (refl, tt))

-- An entry of the registry is one of the two.
pub keys_cases :
    (i : ℤ) (key : KeyRecord)
    → lookup i keys ≡ some key
    → ((i ≡ pos 0) × (alice_key ≡ key)) ⊎ ((i ≡ pos 1) × (bob_key ≡ key))
unfolding lookup
keys_cases i key e = ground (arith, eqb_ℤ_iff (pos 0) i, eqb_ℤ_iff (pos 1) i)

rotation_admitted : Admits scheme keys rotation_signed
unfolding Rotation.canonical_bytes pad
rotation_admitted = record {
  nonce_long = omega arith;
  above = omega arith;
  below = omega arith;
  key_sized = refl;
  key_new = λ i key e d same. elim (keys_cases i key e) [
    | inl (_, k) ↦ ground arith
    | inr (_, k) ↦ ground arith
  ];
  algo_uniform = λ i key e d. elim (keys_cases i key e) [ inl (_, k) ↦ cc | inr (_, k) ↦ cc ];
  signed = both_sign (Rotation.canonical_bytes rotation);
}

rotation_accepted : Rotation.verify scheme keys rotation_signed ≡ accepted
rotation_accepted =
    (rotation_accepted_iff scheme keys rotation_signed keys-UniqueKeys).1 rotation_admitted

reordered-UniqueKeys : UniqueKeys keys_reordered
unfolding lookup
reordered-UniqueKeys = (refl, (refl, tt))

same_entries : (i : ℤ) → lookup i keys ≡ lookup i keys_reordered
unfolding lookup
same_entries i = ground (arith, eqb_ℤ_iff (pos 0) i, eqb_ℤ_iff (pos 1) i)

pub keys-IsRegistry : IsRegistry keys
keys-IsRegistry = record {
  unique = keys-UniqueKeys;
  above = λ i key e. elim (keys_cases i key e) [
    | inl (p, _) ↦ rw p (omega arith)
    | inr (p, _) ↦ rw p (omega arith)
  ];
  below = λ i key e. elim (keys_cases i key e) [
    | inl (p, _) ↦ rw p (omega arith)
    | inr (p, _) ↦ rw p (omega arith)
  ];
  sized = λ i key e. elim (keys_cases i key e) [
    | inl (_, k) ↦ rw (← k) (length-pad 32 alice)
    | inr (_, k) ↦ rw (← k) (length-pad 32 bob)
  ];
  uniform = λ i key e. elim (keys_cases i key e) [ inl (_, k) ↦ cc | inr (_, k) ↦ cc ];
  distinct = λ i j key key' e e' d same. elim (keys_cases i key e) [
    | inl (p, k) ↦ elim (keys_cases j key' e') [
      | inl (q, _) ↦ d (cc (p, q))
      | inr (_, k') ↦ keys_differ (cc (k, k', same))
    ]
    | inr (p, k) ↦ elim (keys_cases j key' e') [
      | inl (_, k') ↦ keys_differ (cc (k, k', same))
      | inr (q, _) ↦ d (cc (p, q))
    ]
  ];
}

rotation_sign_then_verify_example :
    (r' : OperatorRotation) × (Rotation.sign scheme alice bob (pos 0) (pos 1) rotation ≡ some r')
    × (Rotation.verify scheme keys r' ≡ accepted)
rotation_sign_then_verify_example =
    rotation_sign_then_verify scheme keys alice bob (pos 0) (pos 1) alice-Holds bob-Holds
      (λ e. ground arith) keys_differ rotation keys-UniqueKeys (omega arith) algo_named
      (omega arith) refl rotation_admitted.key_new rotation_admitted.algo_uniform

abbrev sent : OperatorTransmission
sent = record sending { sig0 = 1 ∷ pad 63 (pad 32 alice); sig1 = 1 ∷ pad 63 (pad 32 bob) }

sent_accepted : Transmission.verify scheme keys sent ≡ accepted
unfolding Transmission.canonical_bytes
sent_accepted =
    (transmission_accepted_iff scheme keys sent).1
      (omega arith, rw (bytes_equal_refl marked) at (both_sign marked))

operator_no_replay_example : (sent.sig0 ≢ answer_signed.sig0) × (sent.sig0 ≢ rotation_signed.sig0)
unfolding lookup
operator_no_replay_example =
    operator_no_replay scheme keys alice_key sent answer_signed rotation_signed sent_accepted
      answer_accepted rotation_accepted refl refl refl
      (toy-Binds marked (pad 32 alice) (pad 63 (pad 32 alice)))

history_order_example :
    lookup (pos 2) (history scheme keys (rotation_signed ∷ []))
    ≡ lookup (pos 2) (history scheme keys_reordered (rotation_signed ∷ []))
history_order_example =
    history_order scheme keys keys_reordered (rotation_signed ∷ []) keys-UniqueKeys
      reordered-UniqueKeys same_entries (pos 2)

rotation_again_example :
    Rotation.verify scheme
      (history scheme keys (rotation_signed ∷ rotation_signed ∷ []))
      rotation_signed
    ≡ Rotation.verify scheme keys rotation_signed
rotation_again_example =
    rotation_again scheme keys rotation_signed (rotation_signed ∷ rotation_signed ∷ [])
      (λ e. cc, λ e. cc) (refl, (refl, tt))
