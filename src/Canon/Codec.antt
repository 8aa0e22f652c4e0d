-- ===== src/Canon/Codec.antt =====
-- Prefix codes: an encoder and a reader of one format, with the law that the reader gives back the
-- value and leaves whatever follows it. A message's format is put together from these.
use sohocloud_protocol.Prelude.{
  ℕ, zero, suc, ◌≡◌, refl, ap, sym, ◌∙◌, Option, none, some, List, [], ◌∷◌, ◌++◌, append_assoc,
  length, All,
}
use sohocloud_protocol.Prelude.Int.{IsU64}
use sohocloud_protocol.Golang.Binary.{put_uvarint, get_uvarint, get_uvarint-put_uvarint}

infixl 5 ◌>>=◌
abbrev pub ◌>>=◌ : {A B : Type 0} → Option A → (A → Option B) → Option B
none >>= f = none
some a >>= f = f a

pub record Codec (A : Type 0) : Type 1 where
  pub encode : A → List ℕ
  pub decode : List ℕ → Option (A × List ℕ)
  pub Fits : A → Type 0
  pub decode-encode : (a : A) (rest : List ℕ) → Fits a → decode (encode a ++ rest) ≡ some (a, rest)

-- One format behind another.
module _ {A B : Type 0} (c : Codec A) (d : Codec B) where
  abbrev pair_encode : A × B → List ℕ
  pair_encode p = c.encode p.0 ++ d.encode p.1

  abbrev pair_decode : List ℕ → Option ((A × B) × List ℕ)
  pair_decode l = do (a, r) ← c.decode l; (b, r') ← d.decode r; some ((a, b), r')

  pub pair_decode-encode :
      (p : A × B) (rest : List ℕ)
      → c.Fits p.0 × d.Fits p.1
      → pair_decode (pair_encode p ++ rest) ≡ some (p, rest)
  pair_decode-encode p rest (h, k) =
      rw append_assoc
        (rw (c.decode-encode p.0 (d.encode p.1 ++ rest) h) (rw (d.decode-encode p.1 rest k)))

infixr 60 ◌⊗◌
abbrev pub ◌⊗◌ : {A B : Type 0} → Codec A → Codec B → Codec (A × B)
c ⊗ d = record {
  encode = pair_encode c d;
  decode = pair_decode c d;
  Fits = λ p. c.Fits p.0 × d.Fits p.1;
  decode-encode = pair_decode-encode c d;
}

-- A count and then that many elements, one behind the other.
module _ {A : Type 0} (c : Codec A) where
  abbrev pub encode_all : List A → List ℕ
  encode_all [] = []
  encode_all (x ∷ xs) = c.encode x ++ encode_all xs

  abbrev decode_all : ℕ → List ℕ → Option (List A × List ℕ)
  decode_all zero l = some ([], l)
  decode_all (suc n) l = do (x, r) ← c.decode l; (xs, r') ← decode_all n r; some (x ∷ xs, r')

  decode_all-encode_all :
      (xs : List A) (rest : List ℕ)
      → All c.Fits xs
      → decode_all (length xs) (encode_all xs ++ rest) ≡ some (xs, rest)
  decode_all-encode_all [] rest h = refl
  decode_all-encode_all (x ∷ xs) rest (h, hs) =
      rw append_assoc
        (rw (c.decode-encode x (encode_all xs ++ rest) h) (rw (decode_all-encode_all xs rest hs)))

  abbrev counted_encode : List A → List ℕ
  counted_encode xs = put_uvarint (length xs) ++ encode_all xs

  abbrev counted_decode : List ℕ → Option (List A × List ℕ)
  counted_decode l = do (n, r) ← get_uvarint l; decode_all n r

  pub counted_decode-encode :
      (xs : List A) (rest : List ℕ)
      → IsU64 (length xs) × All c.Fits xs
      → counted_decode (counted_encode xs ++ rest) ≡ some (xs, rest)
  counted_decode-encode xs rest (h, hs) = rw append_assoc (
      rw (get_uvarint-put_uvarint (length xs) (encode_all xs ++ rest) h)
        (decode_all-encode_all xs rest hs))

abbrev pub counted : {A : Type 0} → Codec A → Codec (List A)
counted c = record {
  encode = counted_encode c;
  decode = counted_decode c;
  Fits = λ xs. IsU64 (length xs) × All c.Fits xs;
  decode-encode = counted_decode-encode c;
}

some_pair :
    {A B : Type 0} {a b : A} {r s : B}
    → ◌≡◌ {A = Option (A × B)} (some (a, r)) (some (b, s))
    → (a ≡ b) × (r ≡ s)
some_pair h = (cc, cc)

-- No value's code is the beginning of another's.
pub encode-cancel :
    {A : Type 0} (c : Codec A) (a b : A) (r s : List ℕ)
    → c.Fits a
    → c.Fits b
    → c.encode a ++ r ≡ c.encode b ++ s
    → (a ≡ b) × (r ≡ s)
encode-cancel c a b r s h k e =
    some_pair (sym (c.decode-encode a r h) ∙ ap c.decode e ∙ c.decode-encode b s k)
