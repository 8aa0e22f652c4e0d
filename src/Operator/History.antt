-- ===== src/Operator/History.antt =====
-- A coordinator's registry under a sequence of rotation messages: `OperatorRotation.Verify` against the
-- keys of the moment, and the swap where it returns nil.
use sohocloud_protocol.Prelude.{◌≡◌, ◌∙◌, refl, some, true, List, [], ◌∷◌, All, ap, ℕ}
use sohocloud_protocol.Prelude.Int.{ℤ}
use sohocloud_protocol.Golang.Ed25519.{Ed25519}
use sohocloud_protocol.Operator.Keys.{
  KeyMap, KeyRecord, Verdict, accepted, rejected, panicked, lookup,
}
use sohocloud_protocol.Operator.Rotation.{OperatorRotation, verify, canonical_bytes}
use sohocloud_protocol.Operator.Rotations.{rotation_accepted-Admits}
use sohocloud_protocol.Operator.Install.{install, new_record, IsRegistry, install-IsRegistry}

abbrev pub swap : Verdict → KeyMap → OperatorRotation → KeyMap
swap accepted m r = install r.key_index (new_record r) m
swap (rejected e) m r = m
swap panicked m r = m

-- A stranger knows at most one of the registered public keys' private keys, at however many indices that
-- key is registered.
abbrev pub AtMostOne : KeyMap → (List ℕ → Type 0) → Type 0
AtMostOne m IsStolen =
    (i j : ℤ) (key key' : KeyRecord)
    → lookup i m ≡ some key
    → lookup j m ≡ some key'
    → IsStolen key.public_key
    → IsStolen key'.public_key
    → key.public_key ≡ key'.public_key

module _ (c : Ed25519) where
  abbrev pub receive : KeyMap → OperatorRotation → KeyMap
  receive m r = swap (verify c m r) m r

  abbrev pub history : KeyMap → List OperatorRotation → KeyMap
  history m [] = m
  history m (r ∷ rs) = history (receive m r) rs

  pub receive-IsRegistry :
      (m : KeyMap) (r : OperatorRotation) → IsRegistry m → IsRegistry (receive m r)
  receive-IsRegistry m r w = swapped (verify c m r) refl
    where
      swapped : (v : Verdict) → verify c m r ≡ v → IsRegistry (swap v m r)
      swapped accepted e = install-IsRegistry c m r w e
      swapped (rejected _) e = w
      swapped panicked e = w

  -- Whatever sequence of rotation messages a coordinator receives, well formed or not, its registry
  -- stays well formed if it takes the new key of exactly those that `Verify` accepts.
  pub history-IsRegistry :
      (m : KeyMap) (rs : List OperatorRotation) → IsRegistry m → IsRegistry (history m rs)
  history-IsRegistry m [] w = w
  history-IsRegistry m (r ∷ rs) w = history-IsRegistry (receive m r) rs (receive-IsRegistry m r w)

  -- The signatures of the rotation are valid for stolen keys only.
  abbrev pub ByStolen : (List ℕ → Type 0) → OperatorRotation → Type 0
  ByStolen IsStolen r =
      ((key : List ℕ) → c.verify key (canonical_bytes r) r.sig0 ≡ true → IsStolen key)
      × ((key : List ℕ) → c.verify key (canonical_bytes r) r.sig1 ≡ true → IsStolen key)

  receive_stolen :
      (m : KeyMap) (r : OperatorRotation) (IsStolen : List ℕ → Type 0)
      → AtMostOne m IsStolen
      → ByStolen IsStolen r
      → receive m r ≡ m
  receive_stolen m r IsStolen one by = swapped (verify c m r) refl
    where
      swapped : (v : Verdict) → verify c m r ≡ v → swap v m r ≡ m
      swapped accepted e =
          let p = (rotation_accepted-Admits c m r e).signed in
          absurd (
            p.keys_differ (
              one r.idx0 r.idx1 p.first.key p.second.key p.first.registered p.second.registered
                (by.0 p.first.key.public_key p.first.endorses.signed)
                (by.1 p.second.key.public_key p.second.endorses.signed)))
      swapped (rejected _) e = refl
      swapped panicked e = refl

  -- If at most one of the registered public keys is stolen, at however many indices it is registered,
  -- no sequence of rotation messages whose signatures are valid for stolen keys only changes the
  -- registry of a coordinator that takes the new key of exactly those that `Verify` accepts.
  pub history_stolen :
      (m : KeyMap) (rs : List OperatorRotation) (IsStolen : List ℕ → Type 0)
      → AtMostOne m IsStolen
      → All (ByStolen IsStolen) rs
      → history m rs ≡ m
  history_stolen m [] IsStolen one by = refl
  history_stolen m (r ∷ rs) IsStolen one by =
      let same = receive_stolen m r IsStolen one by.0 in
      ap (λ n. history n rs) same ∙ history_stolen m rs IsStolen one by.1
