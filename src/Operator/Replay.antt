-- ===== src/Operator/Replay.antt =====
-- The operator messages are separated by their domain tags: a signature made for one is none for
-- another.
use sohocloud_protocol.Prelude.{ℕ, ◌≡◌, ◌≢◌, some, List, true}
use sohocloud_protocol.Prelude.Int.{ℤ}
use sohocloud_protocol.Golang.Ed25519.{Ed25519, Binds}
use sohocloud_protocol.Operator.Keys.{KeyMap, KeyRecord, accepted, lookup}
use sohocloud_protocol.Operator.Transmission.{OperatorTransmission}
use sohocloud_protocol.Operator.Transmission
use sohocloud_protocol.Operator.Conformance.{ConformanceResponse}
use sohocloud_protocol.Operator.Conformance
use sohocloud_protocol.Operator.Rotation.{OperatorRotation}
use sohocloud_protocol.Operator.Rotation
use sohocloud_protocol.Operator.Signers.{Signs}
use sohocloud_protocol.Operator.Rotations.{rotation_accepted-Admits}
use sohocloud_protocol.Operator.Acceptance.{transmission_accepted_iff, conformance_accepted_iff}
use sohocloud_protocol.Protocol.{signing_bytes, transmission, conformance, rotation}
use sohocloud_protocol.Protocol.Domains.{kind, signing_bytes_domain}

-- Two endorsements at one index by a key for which the signature binds are of one message.
one_message :
    (c : Ed25519) (keymap : KeyMap) (idx idx' : ℤ) (algo algo' msg msg' sig sig' : List ℕ)
    (key : KeyRecord)
    → Signs c keymap idx algo msg sig
    → Signs c keymap idx' algo' msg' sig'
    → idx ≡ idx'
    → lookup idx keymap ≡ some key
    → Binds c key.public_key sig
    → sig ≡ sig'
    → msg ≡ msg'
one_message c keymap idx idx' algo algo' msg msg' sig sig' key s s' i e b same =
    b msg msg' first second
  where
    first : c.verify key.public_key msg sig ≡ true
    first = cc (s.endorses.signed, s.registered, e)

    second : c.verify key.public_key msg' sig ≡ true
    second = cc (s'.endorses.signed, s'.registered, e, i, same)

-- Where one registry accepts a transmission, a conformance response and a rotation with one first
-- index, and the transmission's first signature is valid for the key at that index on one byte
-- string only, it is the first signature neither of the response nor of the rotation.
pub operator_no_replay :
    (c : Ed25519) (keymap : KeyMap) (key : KeyRecord) (t : OperatorTransmission)
    (s : ConformanceResponse) (r : OperatorRotation)
    → Transmission.verify c keymap t ≡ accepted
    → Conformance.verify c keymap s ≡ accepted
    → Rotation.verify c keymap r ≡ accepted
    → t.idx0 ≡ s.idx0
    → t.idx0 ≡ r.idx0
    → lookup t.idx0 keymap ≡ some key
    → Binds c key.public_key t.sig0
    → (t.sig0 ≢ s.sig0) × (t.sig0 ≢ r.sig0)
unfolding signing_bytes kind
operator_no_replay c keymap key t s r ht hs hr is ir e b =
    let pt = ((transmission_accepted_iff c keymap t).0 ht).1.first in
    let ps = ((conformance_accepted_iff c keymap s).0 hs).first in
    let pr = (rotation_accepted-Admits c keymap r hr).signed.first in
    (
      λ same. cc (
          signing_bytes_domain (transmission t) (conformance s) (
            one_message c keymap t.idx0 s.idx0 t.algo s.algo _ _ t.sig0 s.sig0 key pt ps is e b
              same)),
      λ same. cc (
          signing_bytes_domain (transmission t) (rotation r) (
            one_message c keymap t.idx0 r.idx0 t.algo r.algo _ _ t.sig0 r.sig0 key pt pr ir e b
              same)),
    )
