-- ===== src/Operator/Recovery.antt =====
-- Two holders of registered keys replace the keys at other indices, one rotation for each.
use sohocloud_protocol.Prelude.{
  ℕ, suc, ◌≡◌, ◌≢◌, ◌≤◌, ◌∙◌, refl, sym, ap, some, List, [], ◌∷◌, length, arith, Bool-cases, inl,
  inr, All,
}
use sohocloud_protocol.Prelude.Int.{ℤ, pos, ◌≤ℤ◌, ◌<ℤ◌, eqb_ℤ, eqb_ℤ_iff}
use sohocloud_protocol.Golang.Ed25519.{Ed25519, sign as ed25519_sign}
use sohocloud_protocol.Operator.Keys.{
  KeyMap, KeyRecord, algo_ed25519, default_algo, key_index_count, lookup,
}
use sohocloud_protocol.Operator.Rotation.{OperatorRotation, sign}
use sohocloud_protocol.Operator.Install.{install, new_record, IsRegistry, lookup-install}
use sohocloud_protocol.Operator.Signing.{Holds, rotation_sign_then_verify}
use sohocloud_protocol.Operator.History.{history, receive, swap, receive-IsRegistry}

-- An index and the public key that it shall have.
abbrev pub Plan : Type 0
Plan = List (ℤ × List ℕ)

-- The key is at no index of the registry.
abbrev pub IsFresh : KeyMap → List ℕ → Type 0
IsFresh m new = (i : ℤ) (key : KeyRecord) → lookup i m ≡ some key → key.public_key ≢ new

abbrev pub Apart : ℤ → List ℕ → Plan → Type 0
Apart i new = All (λ (p : ℤ × List ℕ). (p.0 ≢ i) × (p.1 ≢ new))

-- The plan names indices other than two, each once, with fresh keys of 32 bytes, each once.
abbrev pub Feasible : ℤ → ℤ → KeyMap → Plan → Type 0
Feasible a b m [] = Unit {0}
Feasible a b m ((i, new) ∷ plan) =
    ((pos 0 ≤ℤ i) × (i <ℤ key_index_count))
    × ((i ≢ a) × (i ≢ b))
    × (length new ≡ 32)
    × IsFresh m new
    × Apart i new plan
    × Feasible a b m plan

abbrev pub new_key : List ℕ → KeyRecord
new_key new = record { public_key = new; algo = algo_ed25519 }

-- The keys of the plan are at their indices, and all other indices have the keys that they had.
pub record Recovered (before after : KeyMap) (plan : Plan) : Type 0 where
  pub replaced : All (λ (p : ℤ × List ℕ). lookup p.0 after ≡ some (new_key p.1)) plan
  pub others : (j : ℤ) → All (λ (p : ℤ × List ℕ). p.0 ≢ j) plan → lookup j after ≡ lookup j before

sign_fields :
    (c : Ed25519) (priv0 priv1 : List ℕ) (a b : ℤ) (r r' : OperatorRotation)
    → length priv0 ≡ 64
    → length priv1 ≡ 64
    → sign c priv0 priv1 a b r ≡ some r'
    → (r.key_index ≡ r'.key_index)
      × (r.new_public_key ≡ r'.new_public_key)
      × (default_algo r.algo ≡ r'.algo)
unfolding sign ed25519_sign
sign_fields c priv0 priv1 a b r r' l0 l1 h = ground (arith, l0, l1)

module _ (m : KeyMap) (i : ℤ) (key : KeyRecord) where
  lookup-installed : lookup i (install i key m) ≡ some key
  lookup-installed = lookup-install i i key m ∙ rw ((eqb_ℤ_iff i i).1 refl) refl

  lookup-away : (j : ℤ) → i ≢ j → lookup j (install i key m) ≡ lookup j m
  lookup-away j d = ground (arith, lookup-install i j key m, eqb_ℤ_iff i j)

  Holds-installed :
      (c : Ed25519) (j : ℤ) (priv : List ℕ)
      → i ≢ j
      → Holds c m j priv
      → Holds c (install i key m) j priv
  Holds-installed c j priv d h = record {
    above = h.above;
    below = h.below;
    priv_sized = h.priv_sized;
    registered = lookup-away j d ∙ h.registered;
  }

  IsFresh-installed :
      (new : List ℕ) → IsFresh m new → key.public_key ≢ new → IsFresh (install i key m) new
  IsFresh-installed new fresh d j old e = elim (Bool-cases (eqb_ℤ i j)) [
    | inl here ↦ λ same. d (cc (lookup-install i j key m, here, e, same))
    | inr there ↦ fresh j old (ground (arith, lookup-install i j key m))
  ]

Feasible-installed :
    (a b : ℤ) (m : KeyMap) (i : ℤ) (new : List ℕ) (plan : Plan)
    → Apart i new plan
    → Feasible a b m plan
    → Feasible a b (install i (new_key new) m) plan
Feasible-installed a b m i new [] apart f = tt
Feasible-installed a b m i new ((j, next) ∷ plan) (apart, rest)
      (range, signers, sized, fresh, away, f) =
    (
      range,
      signers,
      sized,
      IsFresh-installed m i (new_key new) next fresh (λ e. apart.1 (sym e)),
      away,
      Feasible-installed a b m i new plan rest f,
    )

installed_same :
    (m : KeyMap) (r : OperatorRotation) (i : ℤ) (new : List ℕ)
    → i ≡ r.key_index
    → new ≡ r.new_public_key
    → algo_ed25519 ≡ r.algo
    → install r.key_index (new_record r) m ≡ install i (new_key new) m
installed_same m r i new e f g = cc

All-fst :
    (i : ℤ) (new : List ℕ) (plan : Plan) → Apart i new plan → All (λ (p : ℤ × List ℕ). p.0 ≢ i) plan
All-fst i new [] h = tt
All-fst i new (p ∷ plan) h = (h.0.0, All-fst i new plan h.1)

module _ (c : Ed25519) (priv0 priv1 : List ℕ) (a b : ℤ) (d : a ≢ b)
    (k : c.public priv0 ≢ c.public priv1) (draft : OperatorRotation) (n : 16 ≤ length draft.nonce)
    (named : default_algo draft.algo ≡ algo_ed25519) where
  -- One rotation that the coordinator takes.
  replaces :
      (m : KeyMap) (i : ℤ) (new : List ℕ)
      → IsRegistry m
      → Holds c m a priv0
      → Holds c m b priv1
      → (pos 0 ≤ℤ i) × (i <ℤ key_index_count)
      → length new ≡ 32
      → IsFresh m new
      → (r : OperatorRotation) × (receive c m r ≡ install i (new_key new) m)
  replaces m i new w h0 h1 range sized fresh =
      let r : OperatorRotation = record draft { key_index = i; new_public_key = new } in
      let (r', made, taken) =
        rotation_sign_then_verify c m priv0 priv1 a b h0 h1 d k r w.unique n named range sized
          (λ j key e _. fresh j key e) (λ j key e _. w.uniform j key e) in
      let same = sign_fields c priv0 priv1 a b r r' h0.priv_sized h1.priv_sized made in
      (
        r',
        ap (λ v. swap v m r') taken ∙ installed_same m r' i new same.0 same.1 (sym named ∙ same.2),
      )

  -- Two holders of different registered "ed25519" keys can always recover a registry: for every plan
  -- that gives fresh keys of 32 bytes, each once, to indices of 0 to 6 other than their two, each
  -- once, there are rotations, as many as the plan has entries, behind which a coordinator that takes
  -- what `Verify` accepts has the keys of the plan at their indices and the old keys at all others.
  pub recovered :
      (plan : Plan) (m : KeyMap)
      → IsRegistry m
      → Holds c m a priv0
      → Holds c m b priv1
      → Feasible a b m plan
      → (rs : List OperatorRotation) × (length rs ≡ length plan) × Recovered m (history c m rs) plan
  recovered [] m w h0 h1 f = ([], refl, record { replaced = tt; others = λ j _. refl })
  recovered ((i, new) ∷ plan) m w h0 h1 (range, (off0, off1), sized, fresh, apart, f) =
      let (r, e) = replaces m i new w h0 h1 range sized fresh in
      let next = install i (new_key new) m in
      let (rs, count, done) =
        recovered plan next (rw (← e) (receive-IsRegistry c m r w))
          (Holds-installed m i (new_key new) c a priv0 off0 h0)
          (Holds-installed m i (new_key new) c b priv1 off1 h1)
          (Feasible-installed a b m i new plan apart f) in
      (
        r ∷ rs,
        ap suc count,
        rw e (record {
          replaced = (
            done.others i (All-fst i new plan apart) ∙ lookup-installed m i (new_key new),
            done.replaced,
          );
          others = λ j away. done.others j away.1 ∙ lookup-away m i (new_key new) j away.0;
        }),
      )
