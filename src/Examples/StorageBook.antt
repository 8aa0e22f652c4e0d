-- ===== src/Examples/StorageBook.antt =====
-- A keeper of storage proofs that keeps its promise: the leases and nonces that it has seen. Every
-- node has Alice's key, and no lease is offered.
use sohocloud_protocol.Prelude.{
  ℕ, ◌≡◌, refl, Option, none, some, List, [], ◌∷◌, Bool, true, false, ◌&&◌, ◌||◌, arith,
}
use sohocloud_protocol.Prelude.Bytes.{codes, bytes_equal, bytes_equal_refl}
use sohocloud_protocol.Golang.Ed25519.{Ed25519}
use sohocloud_protocol.Lease.ProofResponse.{ProofResponse, verify}
use sohocloud_protocol.Coordinator.{StorageCoordinator, Error}
use sohocloud_protocol.Coordinator.StorageContract.{
  StorageContract, StorageCall, poll_leases_call, decline_lease_call, release_lease_call,
  submit_proof_call, after,
}
use sohocloud_protocol.Examples.Toy.{pad, alice}

abbrev pub Book : Type 0
Book = List (List ℕ × List ℕ)

unfoldable pub is_seen : List ℕ → List ℕ → Book → Bool
is_seen lease nonce [] = false
is_seen lease nonce ((l, n) ∷ s) =
    (bytes_equal lease l && bytes_equal nonce n) || is_seen lease nonce s

unfoldable pub admit : Book → ProofResponse → Option Bool → Bool → Book × Option Error
admit s p (some true) false = ((p.lease_id, p.nonce) ∷ s, none)
admit s p (some true) true = (s, some (codes "seen before"))
admit s p (some false) b = (s, some (codes "bad signature"))
admit s p none b = (s, some (codes "bad signature"))

abbrev pub storage_book : Ed25519 → StorageCoordinator Book
storage_book c = record {
  poll_leases = λ s id. (s, ([], [], none));
  decline_lease = λ s d. (s, none);
  release_lease = λ s r. (s, none);
  submit_proof = λ s p. admit s p (verify c (pad 32 alice) p) (is_seen p.lease_id p.nonce s);
}

pub admit_signed :
    (s : Book) (p : ProofResponse) (v : Option Bool) (b : Bool)
    → (admit s p v b).1 ≡ none
    → (v ≡ some true) × (b ≡ false) × ((admit s p v b).0 ≡ (p.lease_id, p.nonce) ∷ s)
unfolding admit
admit_signed s p (some true) false e = (refl, refl, refl)
admit_signed s p (some true) true e = absurd cc
admit_signed s p (some false) b e = absurd cc
admit_signed s p none b e = absurd cc

admit_keeps :
    (s : Book) (p : ProofResponse) (v : Option Bool) (b : Bool) (lease nonce : List ℕ)
    → is_seen lease nonce s ≡ true
    → is_seen lease nonce (admit s p v b).0 ≡ true
unfolding admit is_seen
admit_keeps s p (some true) false lease nonce h = ground arith
admit_keeps s p (some true) true lease nonce h = h
admit_keeps s p (some false) b lease nonce h = h
admit_keeps s p none b lease nonce h = h

pub is_seen-noted :
    (lease nonce : List ℕ) (s : Book) → is_seen lease nonce ((lease, nonce) ∷ s) ≡ true
unfolding is_seen
is_seen-noted lease nonce s = rw (bytes_equal_refl lease, bytes_equal_refl nonce) refl

pub after_keeps :
    (c : Ed25519) (s : Book) (call : StorageCall) (lease nonce : List ℕ)
    → is_seen lease nonce s ≡ true
    → is_seen lease nonce (after (storage_book c) s call) ≡ true
after_keeps c s (poll_leases_call id) lease nonce h = h
after_keeps c s (decline_lease_call d) lease nonce h = h
after_keeps c s (release_lease_call r) lease nonce h = h
after_keeps c s (submit_proof_call p) lease nonce h = admit_keeps s p _ _ lease nonce h

unfoldable pub storage_book_contract : (c : Ed25519) → StorageContract c (storage_book c)
storage_book_contract c = record {
  key = λ s n. pad 32 alice;
  Seen = λ s lease nonce. is_seen lease nonce s ≡ true;
  signed = λ s p e. (admit_signed s p _ _ e).0;
  fresh = λ s p e seen. let new = (admit_signed s p _ _ e).1 in absurd cc;
  notes = λ s p e. rw (admit_signed s p _ _ e).2 (is_seen-noted p.lease_id p.nonce s);
  keeps = after_keeps c;
}
