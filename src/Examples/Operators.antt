-- ===== src/Examples/Operators.antt =====
-- The theorems on operator messages at a registry of two keys.
use sohocloud_protocol.Prelude.{ℕ, ◌≡◌, ◌≢◌, refl, List, [], ◌∷◌, some, arith, replicate}
use sohocloud_protocol.Prelude.Int.{pos}
use sohocloud_protocol.Prelude.Bytes.{codes, bytes_equal}
use sohocloud_protocol.Golang.Ed25519.{Ed25519}
use sohocloud_protocol.Operator.Keys.{
  KeyMap, KeyRecord, accepted, algo_ed25519, lookup, default_algo,
}
use sohocloud_protocol.Operator.Transmission.{OperatorTransmission}
use sohocloud_protocol.Operator.Transmission
use sohocloud_protocol.Operator.Conformance.{ConformanceResponse}
use sohocloud_protocol.Operator.Conformance
use sohocloud_protocol.Operator.Signers.{PairSigns}
use sohocloud_protocol.Operator.Acceptance.{conformance_accepted_iff}
use sohocloud_protocol.Operator.Signing.{Holds, held_signer, transmission_sign_then_verify}
use sohocloud_protocol.Examples.Toy.{pad, toy, alice, bob}

abbrev pub alice_key : KeyRecord
alice_key = record { public_key = pad 32 alice; algo = algo_ed25519 }

abbrev pub bob_key : KeyRecord
bob_key = record { public_key = pad 32 bob; algo = algo_ed25519 }

abbrev pub keys : KeyMap
keys = (pos 0, alice_key) ∷ (pos 1, bob_key) ∷ []

abbrev pub keys_reordered : KeyMap
keys_reordered = (pos 1, bob_key) ∷ (pos 0, alice_key) ∷ []

abbrev pub nonce : List ℕ
nonce = replicate 16 5

abbrev pub sending : OperatorTransmission
sending = record {
  operator_id = codes "op";
  ts_unix_nano = pos 1700000050500000000;
  nonce = nonce;
  seq = 1;
  algo = algo_ed25519;
  idx0 = pos 0;
  idx1 = pos 1;
  sig0 = [];
  sig1 = [];
}

-- The scheme marks this transmission.
abbrev pub marked : List ℕ
marked = Transmission.canonical_bytes sending

abbrev pub scheme : Ed25519
scheme = toy marked

pub alice-Holds : Holds scheme keys (pos 0) alice
unfolding lookup
alice-Holds = record {
  above = omega arith;
  below = omega arith;
  priv_sized = refl;
  registered = refl;
}

pub bob-Holds : Holds scheme keys (pos 1) bob
unfolding lookup
bob-Holds = record {
  above = omega arith;
  below = omega arith;
  priv_sized = refl;
  registered = refl;
}

pub keys_differ : pad 32 alice ≢ pad 32 bob
unfolding pad
keys_differ e = ground arith

pub both_sign :
    (msg : List ℕ)
    → PairSigns scheme keys
        (pos 0)
        (pos 1)
        algo_ed25519
        msg
        (scheme.sign alice msg)
        (scheme.sign bob msg)
unfolding held_signer
both_sign msg = record {
  first = held_signer scheme keys (pos 0) alice msg alice-Holds;
  second = held_signer scheme keys (pos 1) bob msg bob-Holds;
  indices_differ = λ e. ground arith;
  keys_differ = keys_differ;
}

abbrev pub answer : ConformanceResponse
answer = record {
  operator_id = codes "op";
  challenge = 1 ∷ 2 ∷ 3 ∷ [];
  algo = algo_ed25519;
  idx0 = pos 0;
  idx1 = pos 1;
  sig0 = [];
  sig1 = [];
}

abbrev pub answer_signed : ConformanceResponse
answer_signed =
    let msg = Conformance.canonical_bytes answer in
    record answer { sig0 = scheme.sign alice msg; sig1 = scheme.sign bob msg }

pub answer_accepted : Conformance.verify scheme keys answer_signed ≡ accepted
unfolding Conformance.canonical_bytes
answer_accepted =
    (conformance_accepted_iff scheme keys answer_signed).1
      (both_sign (Conformance.canonical_bytes answer))

-- One key at two indices.
abbrev pub shared : KeyMap
shared = (pos 0, alice_key) ∷ (pos 1, alice_key) ∷ []

pub algo_named : default_algo algo_ed25519 ≡ algo_ed25519
unfolding default_algo bytes_equal
algo_named = refl

transmission_sign_then_verify_example :
    (t' : OperatorTransmission) × (Transmission.sign scheme alice bob (pos 0) (pos 1) sending
      ≡ some t')
    × (Transmission.verify scheme keys t' ≡ accepted)
transmission_sign_then_verify_example =
    transmission_sign_then_verify scheme keys alice bob (pos 0) (pos 1) alice-Holds bob-Holds
      (λ e. ground arith) keys_differ sending (omega arith) algo_named
