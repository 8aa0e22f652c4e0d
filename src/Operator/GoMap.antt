-- ===== src/Operator/GoMap.antt =====
-- A registry as Go has it: a map whose entries have no order. It is the quotient of the lists of
-- entries by what they hold at each index.
use sohocloud_protocol.Prelude.{◌≡◌, ◌∙◌, refl, sym, ap, Option, List, [], ◌∷◌, if◌then◌else◌, some}
use sohocloud_protocol.Prelude.Int.{ℤ, eqb_ℤ}
use sohocloud_protocol.Golang.Ed25519.{Ed25519}
use sohocloud_protocol.Operator.Keys.{
  KeyMap, KeyRecord, Verdict, accepted, rejected, panicked, lookup,
}
use sohocloud_protocol.Operator.Rotation.{OperatorRotation, verify}
use sohocloud_protocol.Operator.Registry.{UniqueKeys}
use sohocloud_protocol.Operator.Rotations.{verify_iteration_order}
use sohocloud_protocol.Operator.Install.{install, lookup-install, install-UniqueKeys, new_record}
use sohocloud_protocol.Operator.History.{swap, receive, history}
use mathlib.Core.Quot
use mathlib.Core.Quot.{Quot, Quot-set}
use native.Mathlib.Nat.{ℕ_set}

abbrev pub Entries : Type 0
Entries = (m : KeyMap) × UniqueKeys m

abbrev pub SameEntries : Entries → Entries → Type 0
SameEntries m m' = (i : ℤ) → lookup i m.0 ≡ lookup i m'.0

abbrev pub GoMap : Type 0
GoMap = Quot SameEntries

pub entry-IsSet : IsSet (Option KeyRecord)
entry-IsSet = hlevel ℕ_set

pub verdict-IsSet : IsSet Verdict
verdict-IsSet = hlevel

abbrev pub lookup_map : ℤ → GoMap → Option KeyRecord
lookup_map i = Quot.lift entry-IsSet (λ m. lookup i m.0) (λ m m' h. h i)

pub install-SameEntries :
    (i : ℤ) (key : KeyRecord) (m m' : Entries)
    → SameEntries m m'
    → (j : ℤ) → lookup j (install i key m.0) ≡ lookup j (install i key m'.0)
install-SameEntries i key m m' h j =
    lookup-install i j key m.0
    ∙ ap (λ o. if eqb_ℤ i j then some key else o) (h j)
    ∙ sym (lookup-install i j key m'.0)

-- `keymap[i] = key`
abbrev pub put_map : ℤ → KeyRecord → GoMap → GoMap
put_map i key =
    Quot.lift Quot-set (λ m. Quot.mk (install i key m.0, install-UniqueKeys i key m.0 m.1))
      (λ m m' h. Quot.sound (install-SameEntries i key m m' h))

abbrev pub verify_map : Ed25519 → GoMap → OperatorRotation → Verdict
verify_map c g r =
    Quot.lift verdict-IsSet (λ m. verify c m.0 r)
      (λ m m' h. verify_iteration_order m.0 m'.0 m.1 m'.1 h c r) g

abbrev pub swap_map : Verdict → GoMap → OperatorRotation → GoMap
swap_map accepted g r = put_map r.key_index (new_record r) g
swap_map (rejected e) g r = g
swap_map panicked g r = g

-- The history of a registry on maps.
abbrev pub history_map : Ed25519 → GoMap → List OperatorRotation → GoMap
history_map c g [] = g
history_map c g (r ∷ rs) = history_map c (swap_map (verify_map c g r) g r) rs

module _ (c : Ed25519) where
  swap-UniqueKeys :
      (v : Verdict) (m : KeyMap) (r : OperatorRotation) → UniqueKeys m → UniqueKeys (swap v m r)
  swap-UniqueKeys accepted m r u = install-UniqueKeys r.key_index (new_record r) m u
  swap-UniqueKeys (rejected e) m r u = u
  swap-UniqueKeys panicked m r u = u

  swap_map-mk :
      (v : Verdict) (m : Entries) (r : OperatorRotation)
      → swap_map v (Quot.mk m) r ≡ Quot.mk (swap v m.0 r, swap-UniqueKeys v m.0 r m.1)
  unfolding swap-UniqueKeys
  swap_map-mk accepted m r = refl
  swap_map-mk (rejected e) m r = refl
  swap_map-mk panicked m r = refl

  -- A list of entries goes through a history as the map that it stands for.
  history_map-mk :
      (m : Entries) (rs : List OperatorRotation)
      → (u : UniqueKeys (history c m.0 rs)) × (history_map c (Quot.mk m) rs
          ≡ Quot.mk (history c m.0 rs, u))
  history_map-mk m [] = (m.1, refl)
  history_map-mk m (r ∷ rs) =
      let next : Entries = (receive c m.0 r, swap-UniqueKeys (verify c m.0 r) m.0 r m.1) in
      let (u, e) = history_map-mk next rs in
      (u, ap (λ g. history_map c g rs) (swap_map-mk (verify c m.0 r) m r) ∙ e)

  -- The keys that a registry holds behind a sequence of rotation messages, of which those that
  -- `Verify` accepts are taken, do not depend on the order in which its entries were iterated: two
  -- registries with one entry for an index and the same keys at the same indices have the same keys
  -- at the same indices behind it.
  pub history_order :
      (m m' : KeyMap) (rs : List OperatorRotation)
      → UniqueKeys m
      → UniqueKeys m'
      → ((i : ℤ) → lookup i m ≡ lookup i m')
      → (i : ℤ) → lookup i (history c m rs) ≡ lookup i (history c m' rs)
  history_order m m' rs u u' same i =
      let (w, e) = history_map-mk (m, u) rs in
      let (w', e') = history_map-mk (m', u') rs in
      ap (lookup_map i) (sym e ∙ ap (λ g. history_map c g rs) (Quot.sound same) ∙ e')
