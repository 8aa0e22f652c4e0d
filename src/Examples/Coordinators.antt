-- ===== src/Examples/Coordinators.antt =====
-- Sequences of calls and of requests at coordinators that keep their promises.
use sohocloud_protocol.Prelude.{ℕ, ◌≡◌, refl, none, some, List, [], ◌∷◌, All, Bool, false}
use sohocloud_protocol.Prelude.Bytes.{codes, bytes_equal}
use sohocloud_protocol.Prelude.Int.{to_u64, to_i64}
use sohocloud_protocol.Golang.Binary.{put_uvarint, put_uint64}
use sohocloud_protocol.Golang.Time.{unix_nano}
use sohocloud_protocol.Golang.Ed25519.{Ed25519, verify as ed25519_verify}
use sohocloud_protocol.Canon
use sohocloud_protocol.Canon.{valid_time, verify_sig}
use sohocloud_protocol.Identity.KeyRotation
use sohocloud_protocol.Identity.KeyRotation.{KeyRotation}
use sohocloud_protocol.Identity.KeyRevocation
use sohocloud_protocol.Identity.KeyRevocation.{KeyRevocation}
use sohocloud_protocol.Coordinator.Trust.{KeyCall, rotate_call, revoke_call, call_node, step}
use sohocloud_protocol.Coordinator.KeyContract.{run}
use sohocloud_protocol.Coordinator.Custody.{Custody, run-Custody, run_unmoved, IsForeign}
use sohocloud_protocol.Examples.KeyBook.{Book, note, key_book, key_book_contract}
use sohocloud_protocol.Examples.Toy.{pad, toy, alice, bob, sent}

abbrev scheme : Ed25519
scheme = toy []

abbrev node : List ℕ
node = codes "node-7"

abbrev unsigned_rotation : KeyRotation
unsigned_rotation = record {
  node_id = node;
  new_public_key = pad 32 bob;
  algo = codes "ed25519";
  rotated_at = sent;
  seq = 3;
  signature = [];
}

-- Alice's key names Bob's.
abbrev rotation : KeyRotation
rotation = record unsigned_rotation {
  signature = scheme.sign alice (KeyRotation.canonical_bytes unsigned_rotation);
}

abbrev unsigned_revocation : KeyRevocation
unsigned_revocation = record {
  node_id = node;
  revoked_public_key = pad 32 alice;
  revoked_at = sent;
  seq = 4;
  signature = [];
}

abbrev revocation : KeyRevocation
revocation = record unsigned_revocation {
  signature = scheme.sign alice (KeyRevocation.canonical_bytes unsigned_revocation);
}

-- Every node has Alice's key.
abbrev enrolled : Book
enrolled n = record { key = some (pad 32 alice); seq = 2 }

rotation_taken : ((key_book scheme).rotate_key enrolled rotation).1 ≡ none
unfolding note step KeyRotation.verify KeyRotation.canonical_bytes verify_sig ed25519_verify
    bytes_equal Canon.new Canon.string Canon.bytes Canon.uint64 Canon.time Canon.sum valid_time
    put_uvarint put_uint64 unix_nano to_u64 to_i64 pad
rotation_taken = refl

revocation_taken : ((key_book scheme).revoke_key enrolled revocation).1 ≡ none
unfolding note step KeyRevocation.verify KeyRevocation.canonical_bytes verify_sig ed25519_verify
    bytes_equal Canon.new Canon.string Canon.bytes Canon.uint64 Canon.time Canon.sum valid_time
    put_uvarint put_uint64 unix_nano to_u64 to_i64 pad
revocation_taken = refl

abbrev calls : List KeyCall
calls = rotate_call rotation ∷ revoke_call revocation ∷ rotate_call unsigned_rotation ∷ []

run-Custody_example :
    Custody scheme
      (λ call. call_node call ≡ node)
      node
      (enrolled node)
      (run scheme (key_book scheme) enrolled calls node)
unfolding key_book_contract
run-Custody_example =
    run-Custody scheme (key_book scheme) (key_book_contract scheme) (λ call. call_node call ≡ node)
      node enrolled calls (refl, (refl, (refl, tt)))

-- Bob, whose key is not trusted for the node, signs both.
abbrev forged_rotation : KeyRotation
forged_rotation = record unsigned_rotation {
  signature = scheme.sign bob (KeyRotation.canonical_bytes unsigned_rotation);
}

abbrev forged_revocation : KeyRevocation
forged_revocation = record unsigned_revocation {
  signature = scheme.sign bob (KeyRevocation.canonical_bytes unsigned_revocation);
}

rotation_forged :
    ◌≡◌ {A = Bool}
      (scheme.verify
        (pad 32 alice)
        (KeyRotation.canonical_bytes forged_rotation)
        forged_rotation.signature)
      false
unfolding KeyRotation.canonical_bytes bytes_equal Canon.new Canon.string Canon.bytes Canon.uint64
    Canon.time Canon.sum valid_time put_uvarint put_uint64 unix_nano to_u64 to_i64 pad
rotation_forged = refl

revocation_forged :
    ◌≡◌ {A = Bool}
      (scheme.verify
        (pad 32 alice)
        (KeyRevocation.canonical_bytes forged_revocation)
        forged_revocation.signature)
      false
unfolding KeyRevocation.canonical_bytes bytes_equal Canon.new Canon.string Canon.bytes Canon.uint64
    Canon.time Canon.sum valid_time put_uvarint put_uint64 unix_nano to_u64 to_i64 pad
revocation_forged = refl

abbrev forgeries : List KeyCall
forgeries = rotate_call forged_rotation ∷ revoke_call forged_revocation ∷ []

forgeries-IsForeign : All (IsForeign scheme node (pad 32 alice)) forgeries
forgeries-IsForeign = (λ _ h. cc (rotation_forged, h), (λ _ h. cc (revocation_forged, h), tt))

run_unmoved_example : run scheme (key_book scheme) enrolled forgeries node ≡ enrolled node
unfolding key_book_contract
run_unmoved_example =
    run_unmoved scheme node (pad 32 alice) (key_book scheme) (key_book_contract scheme) enrolled
      forgeries refl forgeries-IsForeign
