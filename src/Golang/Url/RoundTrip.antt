-- ===== src/Golang/Url/RoundTrip.antt =====
-- What `Query().Get` reads of a query that `QueryEscape` wrote.
use sohocloud_protocol.Prelude.{
  ℕ, ◌/◌, ◌%◌, ◌<◌, ◌≡◌, ◌≢◌, ◌∙◌, refl, ap, sym, true, false, Option, none, some, inl, inr, List,
  [], ◌∷◌, ◌++◌, ◌==◌, arith, All, Bool-cases,
}
use sohocloud_protocol.Prelude.Bytes.{codes, bytes_equal, IsBytes}
use sohocloud_protocol.Golang.Url.{
  unreserved, upper_hex, escape_byte, query_escape, unhex, push_hex, push_byte, next, emit, start,
  unescape_from, query_unescape, cut, parts, contains, value_of, part_value, first_value, query_get,
}

unhex-upper_hex : (d : ℕ) → d < 16 → unhex (upper_hex d) ≡ some d
unfolding unhex upper_hex
unhex-upper_hex d h = ground arith

kept-plain : (b : ℕ) → unreserved b ≡ true → (b ≢ 37) × (b ≢ 43) × (b ≢ 38) × (b ≢ 59) × (b ≢ 61)
unfolding unreserved
kept-plain b u = (ground arith, ground arith, ground arith, ground arith, ground arith)

unescape_kept :
    (b : ℕ) (s : List ℕ)
    → b ≢ 37
    → b ≢ 43
    → unescape_from start (b ∷ s) ≡ push_byte b (unescape_from start s)
unfolding unescape_from
unescape_kept b s h k = ground arith

push_hex-byte :
    (b : ℕ) (r : Option (List ℕ)) → push_hex (some (b / 16)) (some (b % 16)) r ≡ push_byte b r
unfolding push_hex push_byte
push_hex-byte b none = refl
push_hex-byte b (some s) = ap (λ n. some (n ∷ s)) (omega arith)

unescape_digits :
    (b : ℕ) (s : List ℕ)
    → b < 256
    → unescape_from start (37 ∷ upper_hex (b / 16) ∷ upper_hex (b % 16) ∷ s)
      ≡ push_byte b (unescape_from start s)
unfolding unescape_from next emit
unescape_digits b s h = rw (
  unhex-upper_hex (b / 16) (omega arith),
  unhex-upper_hex (b % 16) (omega arith),
  push_hex-byte b (unescape_from start s),
)

space_byte :
    (b : ℕ) (s : List ℕ)
    → b ≡ 32
    → unescape_from start (43 ∷ s) ≡ push_byte b (unescape_from start s)
unfolding unescape_from
space_byte b s e = ap (λ n. push_byte n (unescape_from start s)) (sym e)

unescape-escape_byte :
    (b : ℕ) (s : List ℕ)
    → b < 256
    → unescape_from start (escape_byte b ++ s) ≡ push_byte b (unescape_from start s)
unfolding escape_byte
unescape-escape_byte b s h = elim (Bool-cases (unreserved b)) [
  | inl u ↦ rw u (unescape_kept b s (kept-plain b u).0 (kept-plain b u).1)
  | inr u ↦ elim (Bool-cases (b == 32)) [
    | inl e ↦ rw (u, e) (space_byte b s (ground arith))
    | inr e ↦ rw (u, e) (unescape_digits b s h)
  ]
]

-- Not one of `&`, `;` and `=`.
abbrev pub IsPlain : ℕ → Type 0
IsPlain c = (c ≢ 38) × (c ≢ 59) × (c ≢ 61)

upper_hex-IsPlain : (d : ℕ) → d < 16 → IsPlain (upper_hex d)
unfolding upper_hex
upper_hex-IsPlain d h = ground arith

escape_byte-IsPlain : (b : ℕ) → b < 256 → All IsPlain (escape_byte b)
unfolding escape_byte
escape_byte-IsPlain b h = elim (Bool-cases (unreserved b)) [
  | inl u ↦ rw u (((kept-plain b u).2, (kept-plain b u).3, (kept-plain b u).4), tt)
  | inr u ↦ elim (Bool-cases (b == 32)) [
    | inl e ↦ rw (u, e) (ground arith, tt)
    | inr e ↦
        rw (u, e)
          (
            ground arith,
            (
              upper_hex-IsPlain (b / 16) (omega arith),
              (upper_hex-IsPlain (b % 16) (omega arith), tt),
            ),
          )
  ]
]

unescape-escape : (s : List ℕ) → IsBytes s → query_unescape (query_escape s) ≡ some s
unfolding query_unescape query_escape
unescape-escape [] h = unfold unescape_from in refl
unescape-escape (b ∷ s) h =
    unescape-escape_byte b (query_escape s) h.0
    ∙ ap (push_byte b) (unescape-escape s h.1)
    ∙ unfold push_byte in refl

All-append : (P : ℕ → Type 0) (xs ys : List ℕ) → All P xs → All P ys → All P (xs ++ ys)
All-append P [] ys h k = k
All-append P (x ∷ xs) ys h k = (h.0, All-append P xs ys h.1 k)

escape-IsPlain : (s : List ℕ) → IsBytes s → All IsPlain (query_escape s)
unfolding query_escape
escape-IsPlain [] h = tt
escape-IsPlain (b ∷ s) h =
    All-append IsPlain (escape_byte b) (query_escape s) (escape_byte-IsPlain b h.0)
      (escape-IsPlain s h.1)

parts-plain : (s : List ℕ) → All IsPlain s → parts s ≡ s ∷ []
unfolding parts
parts-plain [] h = refl
parts-plain (c ∷ s) h = rw (parts-plain s h.1) (ground (arith, h.0))

contains-plain : (s : List ℕ) → All IsPlain s → contains 59 s ≡ false
unfolding contains
contains-plain [] h = refl
contains-plain (c ∷ s) h = ground (arith, h.0, contains-plain s h.1)

query_parts :
    (e : List ℕ) → All IsPlain e → parts (codes "node_id=" ++ e) ≡ (codes "node_id=" ++ e) ∷ []
unfolding parts
query_parts e h = rw (parts-plain e h) refl

query_value :
    (e s : List ℕ)
    → All IsPlain e
    → query_unescape e ≡ some s
    → part_value (codes "node_id") (codes "node_id=" ++ e) ≡ some s
unfolding part_value contains cut value_of query_unescape unescape_from next emit push_byte
    bytes_equal
query_value e s h k = rw (contains-plain e h, k) refl

-- `Query().Get("node_id")` gives back the bytes that `QueryEscape` wrote behind "node_id=".
pub get-escape :
    (s : List ℕ) → IsBytes s → query_get (codes "node_id=" ++ query_escape s) (codes "node_id") ≡ s
unfolding query_get first_value
get-escape s h =
    let plain = escape-IsPlain s h in
    rw (
      query_parts (query_escape s) plain,
      query_value (query_escape s) s plain (unescape-escape s h),
    )
