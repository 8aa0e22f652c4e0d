-- ===== src/Operator/Install.antt =====
-- What an accepted rotation keeps of a registry. The swap itself is the coordinator's: here it is
-- the write of a map entry.
use sohocloud_protocol.Prelude.{
  ◌≡◌, ◌≢◌, refl, sym, ◌∙◌, some, [], ◌∷◌, length, arith, Bool-cases, inl, inr, if◌then◌else◌, ◌⊎◌,
}
use sohocloud_protocol.Prelude.Int.{ℤ, pos, ◌≤ℤ◌, ◌<ℤ◌, eqb_ℤ_iff, eqb_ℤ}
use sohocloud_protocol.Golang.Ed25519.{Ed25519}
use sohocloud_protocol.Operator.Keys.{
  KeyMap, KeyRecord, accepted, algo_ed25519, key_index_count, lookup,
}
use sohocloud_protocol.Operator.Rotation.{OperatorRotation, verify}
use sohocloud_protocol.Operator.Registry.{UniqueKeys}
use sohocloud_protocol.Operator.Rotations.{Admits, rotation_accepted_iff}

-- `keymap[idx] = key`
unfoldable pub install : ℤ → KeyRecord → KeyMap → KeyMap
install idx key [] = (idx, key) ∷ []
install idx key ((i, old) ∷ m) =
    if eqb_ℤ i idx then (idx, key) ∷ m else (i, old) ∷ install idx key m

pub lookup-install :
    (idx j : ℤ) (key : KeyRecord) (m : KeyMap)
    → lookup j (install idx key m) ≡ (if eqb_ℤ idx j then some key else lookup j m)
unfolding install lookup
lookup-install idx j key [] = refl
lookup-install idx j key ((i, old) ∷ m) =
    ground (arith, eqb_ℤ_iff i idx, eqb_ℤ_iff i j, eqb_ℤ_iff idx j, lookup-install idx j key m)

pub install-UniqueKeys :
    (idx : ℤ) (key : KeyRecord) (m : KeyMap) → UniqueKeys m → UniqueKeys (install idx key m)
unfolding install lookup
install-UniqueKeys idx key [] u = (refl, tt)
install-UniqueKeys idx key ((i, old) ∷ m) (fresh, u) = elim (Bool-cases (eqb_ℤ i idx)) [
  | inl here ↦ rw here (ground (arith, eqb_ℤ_iff i idx), u)
  | inr there ↦ rw there (
    ground (arith, eqb_ℤ_iff i idx, eqb_ℤ_iff idx i, lookup-install idx i key m),
    install-UniqueKeys idx key m u,
  )
]

-- The registry that SPEC.md §11 asks for: indices 0 to 6, Ed25519 keys of 32 bytes throughout, and no
-- public key at two indices.
pub record IsRegistry (m : KeyMap) : Type 0 where
  pub unique : UniqueKeys m
  pub above : (i : ℤ) (key : KeyRecord) → lookup i m ≡ some key → pos 0 ≤ℤ i
  pub below : (i : ℤ) (key : KeyRecord) → lookup i m ≡ some key → i <ℤ key_index_count
  pub sized : (i : ℤ) (key : KeyRecord) → lookup i m ≡ some key → length key.public_key ≡ 32
  pub uniform : (i : ℤ) (key : KeyRecord) → lookup i m ≡ some key → key.algo ≡ algo_ed25519
  pub distinct :
      (i j : ℤ) (key key' : KeyRecord)
      → lookup i m ≡ some key
      → lookup j m ≡ some key'
      → i ≢ j
      → key.public_key ≢ key'.public_key

abbrev pub new_record : OperatorRotation → KeyRecord
new_record r = record { public_key = r.new_public_key; algo = r.algo }

module _ (c : Ed25519) (m : KeyMap) (r : OperatorRotation) (a : Admits c m r) where
  -- An entry of the new map is the new key at its index, or an old entry at another one.
  install_cases :
      (i : ℤ) (key : KeyRecord)
      → lookup i (install r.key_index (new_record r) m) ≡ some key
      → ((r.key_index ≡ i) × (new_record r ≡ key)) ⊎ ((r.key_index ≢ i) × (lookup i m ≡ some key))
  install_cases i key e = elim (Bool-cases (eqb_ℤ r.key_index i)) [
    | inl here ↦ inl (
      (eqb_ℤ_iff r.key_index i).0 here,
      ground (arith, lookup-install r.key_index i (new_record r) m),
    )
    | inr there ↦ inr (
      ground (arith, eqb_ℤ_iff r.key_index i),
      ground (arith, lookup-install r.key_index i (new_record r) m),
    )
  ]

  installed : IsRegistry m → IsRegistry (install r.key_index (new_record r) m)
  installed w = record {
    unique = install-UniqueKeys r.key_index (new_record r) m w.unique;
    above = λ i key e. elim (install_cases i key e) [
      | inl (here, _) ↦ rw (← here) a.above
      | inr (_, old) ↦ w.above i key old
    ];
    below = λ i key e. elim (install_cases i key e) [
      | inl (here, _) ↦ rw (← here) a.below
      | inr (_, old) ↦ w.below i key old
    ];
    sized = λ i key e. elim (install_cases i key e) [
      | inl (_, same) ↦ rw (← same) a.key_sized
      | inr (_, old) ↦ w.sized i key old
    ];
    uniform = λ i key e. elim (install_cases i key e) [
      | inl (_, same) ↦ rw (← same) a.signed.first.endorses.algo_known
      | inr (_, old) ↦ w.uniform i key old
    ];
    distinct = λ i j key key' e e' d. elim (install_cases i key e) [
      | inl (here, same) ↦ elim (install_cases j key' e') [
        | inl (here', _) ↦ absurd (d (sym here ∙ here'))
        | inr (away, old) ↦ λ p. a.key_new j key' old (λ q. away (sym q)) (cc)
      ]
      | inr (away, old) ↦ elim (install_cases j key' e') [
        | inl (here', same') ↦ λ p. a.key_new i key old (λ q. away (sym q)) (cc)
        | inr (away', old') ↦ w.distinct i j key key' old old' d
      ]
    ];
  }

-- Installing the new key of an accepted rotation at its index keeps a registry well formed: one
-- entry for an index, different public keys at different indices, and all keys of one algorithm.
pub install-IsRegistry :
    (c : Ed25519) (m : KeyMap) (r : OperatorRotation)
    → IsRegistry m
    → verify c m r ≡ accepted
    → IsRegistry (install r.key_index (new_record r) m)
install-IsRegistry c m r w h = installed c m r ((rotation_accepted_iff c m r w.unique).0 h) w
