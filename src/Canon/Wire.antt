-- ===== src/Canon/Wire.antt =====
-- The primitive formats of SPEC.md §3 as prefix codes, read independently of the buffer.
use sohocloud_protocol.Prelude.{
  ℕ, ◌≡◌, refl, Option, none, some, Bool, true, false, List, [], ◌∷◌, ◌++◌, append_assoc, length,
  take, drop, take-length_append, drop-length_append, arith, leb, ◌==◌, if◌then◌else◌,
  length-append,
}
use sohocloud_protocol.Prelude.Int.{ℤ, IsI64, IsU64, to_u64, to_i64, to_u64-IsU64, to_i64-to_u64}
use sohocloud_protocol.Prelude.Bytes.{bytes_equal, bytes_equal_refl}
use sohocloud_protocol.Golang.Binary.{
  put_uvarint, get_uvarint, get_uvarint-put_uvarint, put_uint64, get_uint64, get_uint64-put_uint64,
}
use sohocloud_protocol.Canon.Codec.{Codec, ◌>>=◌}

-- `string` and `bytes`: the length, then that many bytes. A short input is refused.
abbrev pub text_encode : List ℕ → List ℕ
text_encode s = put_uvarint (length s) ++ s

abbrev pub text_decode : List ℕ → Option (List ℕ × List ℕ)
text_decode l = do
  (n, r) ← get_uvarint l
  if leb n (length r) then some (take n r, drop n r) else none

pub text_decode-encode :
    (s rest : List ℕ) → IsU64 (length s) → text_decode (text_encode s ++ rest) ≡ some (s, rest)
text_decode-encode s rest h = rw append_assoc (
    rw (get_uvarint-put_uvarint (length s) (s ++ rest) h)
      (rw (fits, take-length_append s rest, drop-length_append s rest)))
  where
    fits : leb (length s) (length (s ++ rest)) ≡ true
    fits = ground (arith, length-append s rest)

abbrev pub text : Codec (List ℕ)
text = record {
  encode = text_encode;
  decode = text_decode;
  Fits = λ s. IsU64 (length s);
  decode-encode = text_decode-encode;
}

abbrev pub u64 : Codec ℕ
u64 = record {
  encode = put_uint64;
  decode = get_uint64;
  Fits = IsU64;
  decode-encode = get_uint64-put_uint64;
}

abbrev pub i64_encode : ℤ → List ℕ
i64_encode z = put_uint64 (to_u64 z)

abbrev pub i64_decode : List ℕ → Option (ℤ × List ℕ)
i64_decode l = do (n, r) ← get_uint64 l; some (to_i64 n, r)

pub i64_decode-encode :
    (z : ℤ) (rest : List ℕ) → IsI64 z → i64_decode (i64_encode z ++ rest) ≡ some (z, rest)
i64_decode-encode z rest h =
    rw (get_uint64-put_uint64 (to_u64 z) rest (to_u64-IsU64 z)) (rw (to_i64-to_u64 z h))

-- `int64`, and the nanoseconds of a `time`.
abbrev pub i64 : Codec ℤ
i64 = record {
  encode = i64_encode;
  decode = i64_decode;
  Fits = IsI64;
  decode-encode = i64_decode-encode;
}

abbrev pub flag_encode : Bool → List ℕ
flag_encode true = 1 ∷ []
flag_encode false = 0 ∷ []

-- No byte but 0 and 1 is a `bool`.
abbrev pub flag_decode : List ℕ → Option (Bool × List ℕ)
flag_decode [] = none
flag_decode (b ∷ r) = if b == 1 then some (true, r) else if b == 0 then some (false, r) else none

pub flag_decode-encode :
    (v : Bool) (rest : List ℕ) → Unit {0} → flag_decode (flag_encode v ++ rest) ≡ some (v, rest)
flag_decode-encode true rest _ = refl
flag_decode-encode false rest _ = refl

abbrev pub flag : Codec Bool
flag = record {
  encode = flag_encode;
  decode = flag_decode;
  Fits = λ v. Unit {0};
  decode-encode = flag_decode-encode;
}

-- A message: its domain tag as a string, then its fields. Another tag is refused.
module _ {A : Type 0} (tag : List ℕ) (c : Codec A) where
  abbrev pub tagged_encode : A → List ℕ
  tagged_encode a = text_encode tag ++ c.encode a

  abbrev pub tagged_decode : List ℕ → Option (A × List ℕ)
  tagged_decode l = do (t, r) ← text_decode l; if bytes_equal t tag then c.decode r else none

  pub tagged_decode-encode :
      (a : A) (rest : List ℕ)
      → IsU64 (length tag) × c.Fits a
      → tagged_decode (tagged_encode a ++ rest) ≡ some (a, rest)
  tagged_decode-encode a rest (h, k) = rw append_assoc (
      rw (text_decode-encode tag (c.encode a ++ rest) h)
        (rw (bytes_equal_refl tag) (c.decode-encode a rest k)))

abbrev pub tagged : {A : Type 0} → List ℕ → Codec A → Codec A
tagged tag c = record {
  encode = tagged_encode tag c;
  decode = tagged_decode tag c;
  Fits = λ a. IsU64 (length tag) × c.Fits a;
  decode-encode = tagged_decode-encode tag c;
}
