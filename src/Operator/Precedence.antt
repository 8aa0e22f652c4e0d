-- ===== src/Operator/Precedence.antt =====
-- Which error `Verify` of an operator message returns: the order of the checks.
use sohocloud_protocol.Prelude.{
  ℕ, ◌≡◌, ◌≢◌, ◌↔◌, refl, Bool, true, false, Option, none, some, List, [], ◌∷◌, ◌++◌, length, arith,
  ◌==◌, ==_iff, ◌||◌,
}
use sohocloud_protocol.Prelude.Int.{ℤ, pos, ◌≤ℤ◌, ◌<ℤ◌, eqb_ℤ, eqb_ℤ_iff}
use sohocloud_protocol.Prelude.Bytes.{bytes_equal, bytes_equal_iff}
use sohocloud_protocol.Golang.Ed25519.{Ed25519, verify as ed25519_verify}
use sohocloud_protocol.Operator.Keys.{
  KeyMap, KeyRecord, accepted, algo_ed25519, key_index_count, lookup, expected_sig_len,
  expected_pub_len, verifier_verify, signature_verdict, verify_record, verify_at, distinct_keys_at,
  verify_pair, same_index, algo_mismatch, key_missing, bad_signature, bad_sig_length, index_range,
  duplicate_signing_key, out_of_range, same_public_key,
}
use mathlib.Core.Bool.{not}
use sohocloud_protocol.Operator.Rules.{Rules, Judged, guard-Judged, and_then-Judged, no_rules}

abbrev pub IsIndex : ℤ → Type 0
IsIndex idx = (pos 0 ≤ℤ idx) × (idx <ℤ key_index_count)

abbrev pub IsRegistered : Option KeyRecord → Type 0
IsRegistered none = ⊥
IsRegistered (some key) = Unit {0}

-- The property of the key, if there is one.
abbrev pub OfKey : Option KeyRecord → (KeyRecord → Type 0) → Type 0
OfKey none P = Unit {0}
OfKey (some key) P = P key

-- What is asked of one signature and the entry at its index.
abbrev pub signature_rules : Ed25519 → Option KeyRecord → List ℕ → List ℕ → List ℕ → Rules
signature_rules c entry algo msg sig =
    (IsRegistered entry, key_missing)
    ∷ (OfKey entry (λ key. key.algo ≡ algo), algo_mismatch)
    ∷ (length sig ≡ 64, bad_sig_length)
    ∷ (OfKey entry (λ key. length key.public_key ≡ 32), key_missing)
    ∷ (OfKey entry (λ key. c.verify key.public_key msg sig ≡ true), bad_signature)
    ∷ []

-- What is asked of the two signatures of a message.
abbrev pub pair_rules : Ed25519 → KeyMap → ℤ → ℤ → List ℕ → List ℕ → List ℕ → List ℕ → Rules
pair_rules c keymap idx0 idx1 algo msg sig0 sig1 =
    (idx0 ≢ idx1, same_index)
    ∷ (IsIndex idx0 × IsIndex idx1, index_range)
    ∷ (
      OfKey (lookup idx0 keymap)
          (λ key0. OfKey (lookup idx1 keymap) (λ key1. key0.public_key ≢ key1.public_key)),
      duplicate_signing_key,
    )
    ∷ (signature_rules c (lookup idx0 keymap) algo msg sig0
        ++ signature_rules c (lookup idx1 keymap) algo msg sig1)

pub not_iff : (b : Bool) (P : Type 0) → (b ≡ true) ↔ P → (not b ≡ false) ↔ P
not_iff true P h = (λ e. h.0 refl, λ p. refl)
not_iff false P h = (λ e. cc, λ p. cc (h.1 p))

signature_verdict-Judged :
    (b : Bool) → Judged (signature_verdict (some b)) ((b ≡ true, bad_signature) ∷ [])
signature_verdict-Judged true =
    guard-Judged false (true ≡ true) bad_signature accepted [] (λ e. refl, λ p. refl)
      (λ p. no_rules)
signature_verdict-Judged false =
    guard-Judged true (false ≡ true) bad_signature accepted [] (λ e. cc, λ p. cc) (λ p. no_rules)

module _ (algo : List ℕ) (known : algo ≡ algo_ed25519) (n : ℕ) where
  expected_sig : (n == expected_sig_len algo ≡ true) ↔ (n ≡ 64)
  unfolding expected_sig_len bytes_equal
  expected_sig = rw known (==_iff n 64)

  pub expected_pub : (n == expected_pub_len algo ≡ true) ↔ (n ≡ 32)
  unfolding expected_pub_len bytes_equal
  expected_pub = rw known (==_iff n 32)

module _ (c : Ed25519) (algo msg sig : List ℕ) (known : algo ≡ algo_ed25519) where
  sized_verdict :
      (key : KeyRecord)
      → length sig ≡ 64
      → length key.public_key ≡ 32
      → verifier_verify c key.public_key msg sig ≡ some (c.verify key.public_key msg sig)
  unfolding verifier_verify ed25519_verify
  sized_verdict key ls lk = ground (arith, ls, lk)

  verify_record-Judged :
      (entry : Option KeyRecord)
      → Judged (verify_record c entry algo msg sig) (signature_rules c entry algo msg sig)
  unfolding verify_record
  verify_record-Judged none =
      guard-Judged true ⊥ key_missing accepted _ (λ e. cc, λ p. absurd p) (λ p. absurd p)
  verify_record-Judged (some key) =
      guard-Judged false (Unit {0}) key_missing _ _ (λ e. tt, λ p. refl)
        (λ p.
          guard-Judged (not (bytes_equal key.algo algo)) (key.algo ≡ algo) algo_mismatch _ _
            (not_iff _ _ (bytes_equal_iff key.algo algo))
            (λ p.
              guard-Judged (not (length sig == expected_sig_len algo)) (length sig ≡ 64)
                bad_sig_length _ _ (not_iff _ _ (expected_sig algo known (length sig)))
                (λ ls.
                  guard-Judged (not (length key.public_key == expected_pub_len algo))
                    (length key.public_key ≡ 32) key_missing _ _
                    (not_iff _ _ (expected_pub algo known (length key.public_key)))
                    (λ lk.
                      rw (sized_verdict key ls lk)
                        (signature_verdict-Judged (c.verify key.public_key msg sig))))))

pub out_of_range_iff : (idx : ℤ) → (out_of_range idx ≡ false) ↔ IsIndex idx
out_of_range_iff idx = ground arith

in_range_iff : (i j : ℤ) → (out_of_range i || out_of_range j ≡ false) ↔ (IsIndex i × IsIndex j)
in_range_iff i j = ground arith

apart_iff :
    (entry0 entry1 : Option KeyRecord)
    → (same_public_key entry0 entry1 ≡ false)
      ↔ OfKey entry0 (λ key0. OfKey entry1 (λ key1. key0.public_key ≢ key1.public_key))
apart_iff none entry1 = (λ e. tt, λ p. refl)
apart_iff (some key0) none = (λ e. tt, λ p. refl)
apart_iff (some key0) (some key1) = ground (arith, bytes_equal_iff key0.public_key key1.public_key)

distinct-Judged :
    (keymap : KeyMap) (idx0 idx1 : ℤ)
    → Judged (distinct_keys_at keymap idx0 idx1) (
        (IsIndex idx0 × IsIndex idx1, index_range)
        ∷ (
          OfKey
              (lookup idx0 keymap)
              (λ key0. OfKey (lookup idx1 keymap) (λ key1. key0.public_key ≢ key1.public_key)),
          duplicate_signing_key,
        )
        ∷ [])
unfolding distinct_keys_at
distinct-Judged keymap idx0 idx1 =
    guard-Judged (out_of_range idx0 || out_of_range idx1) _ index_range _ _ (in_range_iff idx0 idx1)
      (λ p.
        guard-Judged (same_public_key (lookup idx0 keymap) (lookup idx1 keymap)) _
          duplicate_signing_key accepted [] (apart_iff (lookup idx0 keymap) (lookup idx1 keymap))
          (λ q. no_rules))

verify_at-Judged :
    (c : Ed25519) (keymap : KeyMap) (idx : ℤ) (algo msg sig : List ℕ)
    → algo ≡ algo_ed25519
    → IsIndex idx
    → Judged
        (verify_at c keymap idx algo msg sig)
        (signature_rules c (lookup idx keymap) algo msg sig)
unfolding verify_at
verify_at-Judged c keymap idx algo msg sig known p =
    rw ((out_of_range_iff idx).1 p) (verify_record-Judged c algo msg sig known (lookup idx keymap))

differ_iff : (i j : ℤ) → (eqb_ℤ i j ≡ false) ↔ (i ≢ j)
differ_iff i j = ground (arith, eqb_ℤ_iff i j)

pub pair-Judged :
    (c : Ed25519) (keymap : KeyMap) (idx0 idx1 : ℤ) (algo msg sig0 sig1 : List ℕ)
    → algo ≡ algo_ed25519
    → Judged
        (verify_pair c keymap idx0 idx1 algo msg sig0 sig1)
        (pair_rules c keymap idx0 idx1 algo msg sig0 sig1)
unfolding verify_pair
pair-Judged c keymap idx0 idx1 algo msg sig0 sig1 known =
    guard-Judged (eqb_ℤ idx0 idx1) (idx0 ≢ idx1) same_index _ _ (differ_iff idx0 idx1) (λ d.
      and_then-Judged (distinct_keys_at keymap idx0 idx1) _ _ _ (distinct-Judged keymap idx0 idx1)
        (λ all.
          and_then-Judged (verify_at c keymap idx0 algo msg sig0) _ _ _
            (verify_at-Judged c keymap idx0 algo msg sig0 known all.0.0)
            (λ first.
              and_then-Judged (verify_at c keymap idx1 algo msg sig1) accepted _ []
                (verify_at-Judged c keymap idx1 algo msg sig1 known all.0.1) (λ second. no_rules))))
