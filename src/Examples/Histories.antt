-- ===== src/Examples/Histories.antt =====
-- Sequences of rotations at a registry of two keys.
use sohocloud_protocol.Prelude.{
  ℕ, ◌≡◌, ◌≢◌, ◌⊎◌, some, refl, List, [], ◌∷◌, length, arith, replicate, inl, inr,
}
use sohocloud_protocol.Prelude.Int.{ℤ, pos, eqb_ℤ_iff}
use sohocloud_protocol.Prelude.Bytes.{bytes_equal_iff}
use sohocloud_protocol.Operator.Keys.{KeyMap, KeyRecord, lookup}
use sohocloud_protocol.Operator.Rotation.{OperatorRotation, canonical_bytes}
use sohocloud_protocol.Operator.Install.{IsRegistry}
use sohocloud_protocol.Operator.History.{
  history, history-IsRegistry, history_stolen, AtMostOne, ByStolen,
}
use sohocloud_protocol.Operator.Recovery.{Plan, Recovered, IsFresh, recovered}
use sohocloud_protocol.Examples.Operators.{
  alice_key, bob_key, keys, keys_differ, scheme, alice-Holds, bob-Holds, algo_named,
}
use sohocloud_protocol.Examples.Rotations.{keys_cases, keys-IsRegistry, rotation, rotation_signed}
use sohocloud_protocol.Examples.Toy.{pad, alice, bob}

history-IsRegistry_example : IsRegistry (history scheme keys (rotation ∷ rotation_signed ∷ []))
history-IsRegistry_example =
    history-IsRegistry scheme keys (rotation ∷ rotation_signed ∷ []) keys-IsRegistry

-- Bob's key is registered twice, which a rotation cannot bring about.
abbrev twice : KeyMap
twice = (pos 0, alice_key) ∷ (pos 1, bob_key) ∷ (pos 2, bob_key) ∷ []

twice_cases :
    (i : ℤ) (key : KeyRecord) → lookup i twice ≡ some key → (alice_key ≡ key) ⊎ (bob_key ≡ key)
unfolding lookup
twice_cases i key e = ground (arith, eqb_ℤ_iff (pos 0) i, eqb_ℤ_iff (pos 1) i, eqb_ℤ_iff (pos 2) i)

abbrev by_one_key : OperatorRotation
by_one_key = record rotation { idx0 = pos 1; idx1 = pos 2 }

-- It is stolen, and signs for both of its indices.
abbrev forged : OperatorRotation
forged = record by_one_key {
  sig0 = scheme.sign bob (canonical_bytes by_one_key);
  sig1 = scheme.sign bob (canonical_bytes by_one_key);
}

abbrev IsBobs : List ℕ → Type 0
IsBobs key = pad 63 (pad 32 bob) ≡ pad 63 key

alice_safe : pad 63 (pad 32 bob) ≢ pad 63 (pad 32 alice)
unfolding pad
alice_safe e = ground arith

same_tail : (x y : ℕ) (xs ys : List ℕ) → x ∷ xs ≡ y ∷ ys → xs ≡ ys
same_tail x y xs ys e = cc

one_stolen : AtMostOne twice IsBobs
one_stolen i j key key' e e' s s' = elim (twice_cases i key e) [
  | inl q ↦ absurd (alice_safe (cc (q, s)))
  | inr q ↦ elim (twice_cases j key' e') [
    | inl q' ↦ absurd (alice_safe (cc (q', s')))
    | inr q' ↦ cc
  ]
]

by_bob : ByStolen scheme IsBobs forged
by_bob = (
  λ key h. same_tail _ _ _ _ ((bytes_equal_iff _ _).0 h),
  λ key h. same_tail _ _ _ _ ((bytes_equal_iff _ _).0 h),
)

history_stolen_example : history scheme twice (forged ∷ forged ∷ []) ≡ twice
history_stolen_example =
    history_stolen scheme twice (forged ∷ forged ∷ []) IsBobs one_stolen (by_bob, (by_bob, tt))

abbrev plan : Plan
plan = (pos 2, replicate 32 11) ∷ (pos 5, replicate 32 12) ∷ []

fresh :
    (n : ℕ)
    → pad 32 alice ≢ replicate 32 n
    → pad 32 bob ≢ replicate 32 n
    → IsFresh keys (replicate 32 n)
fresh n a b i key e same = elim (keys_cases i key e) [
  | inl (_, q) ↦ a (cc (q, same))
  | inr (_, q) ↦ b (cc (q, same))
]

recovered_example :
    (rs : List OperatorRotation) × (length rs ≡ 2) × Recovered keys (history scheme keys rs) plan
unfolding pad
recovered_example =
    recovered scheme alice bob (pos 0) (pos 1) (λ e. ground arith) keys_differ rotation
      (omega arith) algo_named plan keys keys-IsRegistry alice-Holds bob-Holds
      (
        omega arith,
        (λ e. ground arith, λ e. ground arith),
        refl,
        fresh 11 (λ e. ground arith) (λ e. ground arith),
        ((λ e. ground arith, λ e. ground arith), tt),
        (
          omega arith,
          (λ e. ground arith, λ e. ground arith),
          refl,
          fresh 12 (λ e. ground arith) (λ e. ground arith),
          tt,
          tt,
        ),
      )
