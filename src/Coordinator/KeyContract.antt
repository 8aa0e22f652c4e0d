-- ===== src/Coordinator/KeyContract.antt =====
-- What `KeyLifecycleCoordinator` promises of `RotateKey` and `RevokeKey`, and sequences of calls.
use sohocloud_protocol.Prelude.{ℕ, ◌≡◌, ◌≢◌, Option, none, some, List, [], ◌∷◌}
use sohocloud_protocol.Golang.Ed25519.{Ed25519}
use sohocloud_protocol.Coordinator.{KeyLifecycleCoordinator, Error}
use sohocloud_protocol.Coordinator.Trust.{Trust, KeyCall, rotate_call, revoke_call, call_node, step}

module _ {S : Type 0} (c : Ed25519) (k : KeyLifecycleCoordinator S) where
  abbrev pub make : S → KeyCall → S × Option Error
  make s (rotate_call r) = k.rotate_key s r
  make s (revoke_call r) = k.revoke_key s r

  -- The state holds the trust in each node. A call that returns nil did to its node what `step` says,
  -- one that returns an error nothing, and no call does anything to another node.
  pub record KeyContract : Type 0 where
    pub trust : S → List ℕ → Trust
    pub accepted :
        (s : S) (call : KeyCall)
        → (make s call).1 ≡ none
        → (t : Trust) × (step c (trust s (call_node call)) call ≡ some t)
          × (trust (make s call).0 (call_node call) ≡ t)
    pub refused :
        (s : S) (call : KeyCall) (e : Error)
        → (make s call).1 ≡ some e
        → trust (make s call).0 (call_node call) ≡ trust s (call_node call)
    pub frame :
        (s : S) (call : KeyCall) (node : List ℕ)
        → node ≢ call_node call
        → trust (make s call).0 node ≡ trust s node

  -- The state behind a sequence of calls.
  abbrev pub run : S → List KeyCall → S
  run s [] = s
  run s (call ∷ calls) = run (make s call).0 calls
