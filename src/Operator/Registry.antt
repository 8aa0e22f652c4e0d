-- ===== src/Operator/Registry.antt =====
-- A key map as a finite function: what the loops of `OperatorRotation.Verify` say of its entries,
-- whatever their order, and what an accepted rotation keeps of a registry.
use sohocloud_protocol.Prelude.{
  ℕ, ◌≡◌, ◌≢◌, refl, none, some, List, [], ◌∷◌, arith, Bool-cases, inl, inr, ◌⊎◌,
}
use sohocloud_protocol.Prelude.Int.{ℤ, eqb_ℤ_iff, eqb_ℤ}
use sohocloud_protocol.Prelude.Bytes.{bytes_equal_iff}
use sohocloud_protocol.Operator.Keys.{
  KeyMap, KeyRecord, accepted, rejected, lookup, duplicate_signing_key, algo_mismatch,
}
use sohocloud_protocol.Operator.Rotation.{check_duplicate, check_algo}

-- A map has each index once.
abbrev pub UniqueKeys : KeyMap → Type 0
UniqueKeys [] = Unit {0}
UniqueKeys ((i, key) ∷ m) = (lookup i m ≡ none) × UniqueKeys m

-- Every key registered at another index has the property.
abbrev pub Others : KeyMap → ℤ → (KeyRecord → Type 0) → Type 0
Others m idx P = (i : ℤ) (key : KeyRecord) → lookup i m ≡ some key → i ≢ idx → P key

abbrev pub KeyDiffers : List ℕ → KeyRecord → Type 0
KeyDiffers new key = key.public_key ≢ new

abbrev pub HasAlgo : List ℕ → KeyRecord → Type 0
HasAlgo algo key = key.algo ≡ algo

Others-tail :
    (i0 : ℤ) (key0 : KeyRecord) (m : KeyMap) (idx : ℤ) (P : KeyRecord → Type 0)
    → lookup i0 m ≡ none
    → Others ((i0, key0) ∷ m) idx P
    → Others m idx P
unfolding lookup
Others-tail i0 key0 m idx P fresh h i key e d = h i key (ground (arith, eqb_ℤ_iff i0 i)) d

Others-head :
    (i0 : ℤ) (key0 : KeyRecord) (m : KeyMap) (idx : ℤ) (P : KeyRecord → Type 0)
    → Others ((i0, key0) ∷ m) idx P
    → i0 ≢ idx
    → P key0
unfolding lookup
Others-head i0 key0 m idx P h d = h i0 key0 (ground (arith, eqb_ℤ_iff i0 i0)) d

pub check_duplicate-Others :
    (m : KeyMap) (idx : ℤ) (new : List ℕ)
    → check_duplicate m idx new ≡ accepted
    → Others m idx (KeyDiffers new)
unfolding check_duplicate lookup
check_duplicate-Others [] idx new h i key e d same = cc
check_duplicate-Others ((i0, key0) ∷ m) idx new h i key e d same = elim (Bool-cases (eqb_ℤ i0 i)) [
  | inl here ↦ ground (arith, eqb_ℤ_iff i0 i, eqb_ℤ_iff i0 idx, bytes_equal_iff key0.public_key new)
  | inr there ↦ check_duplicate-Others m idx new (ground arith) i key (ground arith) d same
]

pub Others-check_duplicate :
    (m : KeyMap) (idx : ℤ) (new : List ℕ)
    → UniqueKeys m
    → Others m idx (KeyDiffers new)
    → check_duplicate m idx new ≡ accepted
unfolding check_duplicate
Others-check_duplicate [] idx new u h = refl
Others-check_duplicate ((i0, key0) ∷ m) idx new (fresh, u) h = ground (
  arith,
  eqb_ℤ_iff i0 idx,
  bytes_equal_iff key0.public_key new,
  λ (d : i0 ≢ idx). Others-head i0 key0 m idx (KeyDiffers new) h d,
  Others-check_duplicate m idx new u (Others-tail i0 key0 m idx (KeyDiffers new) fresh h),
)

pub check_algo-Others :
    (m : KeyMap) (idx : ℤ) (algo : List ℕ)
    → check_algo m idx algo ≡ accepted
    → Others m idx (HasAlgo algo)
unfolding check_algo lookup
check_algo-Others [] idx algo h i key e d = cc
check_algo-Others ((i0, key0) ∷ m) idx algo h i key e d = elim (Bool-cases (eqb_ℤ i0 i)) [
  | inl here ↦ ground (arith, eqb_ℤ_iff i0 i, eqb_ℤ_iff i0 idx, bytes_equal_iff key0.algo algo)
  | inr there ↦ check_algo-Others m idx algo (ground arith) i key (ground arith) d
]

pub Others-check_algo :
    (m : KeyMap) (idx : ℤ) (algo : List ℕ)
    → UniqueKeys m
    → Others m idx (HasAlgo algo)
    → check_algo m idx algo ≡ accepted
unfolding check_algo
Others-check_algo [] idx algo u h = refl
Others-check_algo ((i0, key0) ∷ m) idx algo (fresh, u) h = ground (
  arith,
  eqb_ℤ_iff i0 idx,
  bytes_equal_iff key0.algo algo,
  λ (d : i0 ≢ idx). Others-head i0 key0 m idx (HasAlgo algo) h d,
  Others-check_algo m idx algo u (Others-tail i0 key0 m idx (HasAlgo algo) fresh h),
)

-- A loop returns nil or its one error.
pub check_duplicate_cases :
    (m : KeyMap) (idx : ℤ) (new : List ℕ)
    → (check_duplicate m idx new ≡ accepted)
      ⊎ (check_duplicate m idx new ≡ rejected duplicate_signing_key)
unfolding check_duplicate
check_duplicate_cases [] idx new = inl refl
check_duplicate_cases ((i0, key0) ∷ m) idx new = ground (arith, check_duplicate_cases m idx new)

pub check_algo_cases :
    (m : KeyMap) (idx : ℤ) (algo : List ℕ)
    → (check_algo m idx algo ≡ accepted) ⊎ (check_algo m idx algo ≡ rejected algo_mismatch)
unfolding check_algo
check_algo_cases [] idx algo = inl refl
check_algo_cases ((i0, key0) ∷ m) idx algo = ground (arith, check_algo_cases m idx algo)
