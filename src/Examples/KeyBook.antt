-- ===== src/Examples/KeyBook.antt =====
-- A keeper of node keys that keeps its promise: the trust in each node, as a function.
use sohocloud_protocol.Prelude.{ℕ, ◌≡◌, ◌≢◌, refl, Option, none, some, List, if◌then◌else◌, arith}
use sohocloud_protocol.Prelude.Bytes.{codes, bytes_equal, bytes_equal_iff, bytes_equal_refl}
use sohocloud_protocol.Golang.Ed25519.{Ed25519}
use sohocloud_protocol.Coordinator.{KeyLifecycleCoordinator, Error}
use sohocloud_protocol.Coordinator.Trust.{Trust, KeyCall, rotate_call, revoke_call, call_node, step}
use sohocloud_protocol.Coordinator.KeyContract.{KeyContract, make}

abbrev pub Book : Type 0
Book = List ℕ → Trust

unfoldable pub note : Book → List ℕ → Option Trust → Book × Option Error
note s node (some t) = (λ n. if bytes_equal n node then t else s n, none)
note s node none = (s, some (codes "refused"))

abbrev pub note_call : Ed25519 → Book → KeyCall → Book × Option Error
note_call c s call = note s (call_node call) (step c (s (call_node call)) call)

abbrev pub key_book : Ed25519 → KeyLifecycleCoordinator Book
key_book c = record {
  rotate_key = λ s r. note_call c s (rotate_call r);
  revoke_key = λ s r. note_call c s (revoke_call r);
}

pub make_eq :
    (c : Ed25519) (s : Book) (call : KeyCall) → make c (key_book c) s call ≡ note_call c s call
make_eq c s (rotate_call r) = refl
make_eq c s (revoke_call r) = refl

pub note_other :
    (s : Book) (node n : List ℕ) (o : Option Trust) → n ≢ node → (note s node o).0 n ≡ s n
unfolding note
note_other s node n (some t) d = ground (arith, bytes_equal_iff n node)
note_other s node n none d = refl

pub note_accepted :
    (s : Book) (node : List ℕ) (o : Option Trust)
    → (note s node o).1 ≡ none
    → (t : Trust) × (o ≡ some t) × ((note s node o).0 node ≡ t)
unfolding note
note_accepted s node (some t) e = (t, refl, rw (bytes_equal_refl node) refl)
note_accepted s node none e = absurd cc

pub note_refused :
    (s : Book) (node : List ℕ) (o : Option Trust) (err : Error)
    → (note s node o).1 ≡ some err
    → (note s node o).0 node ≡ s node
unfolding note
note_refused s node (some t) err e = absurd cc
note_refused s node none err e = refl

unfoldable pub key_book_contract : (c : Ed25519) → KeyContract c (key_book c)
unfolding note
key_book_contract c = record {
  trust = λ s. s;
  accepted = λ s call.
      rw (make_eq c s call) (note_accepted s (call_node call) (step c (s (call_node call)) call));
  refused = λ s call.
      rw (make_eq c s call) (note_refused s (call_node call) (step c (s (call_node call)) call));
  frame = λ s call node d.
      rw (make_eq c s call)
        (note_other s (call_node call) node (step c (s (call_node call)) call) d);
}
