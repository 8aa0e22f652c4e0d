-- ===== src/Golang/Url.antt =====
-- `net/url` as the program uses it: `QueryEscape`, and `Get` on the result of `URL.Query`.
pub mod RoundTrip
use sohocloud_protocol.Prelude.{
  ℕ, ◌+◌, ◌-◌, ◌*◌, ◌/◌, ◌%◌, Bool, false, ◌&&◌, ◌||◌, Option, none, some, List, [], ◌∷◌, ◌++◌,
  ◌==◌, leb, if◌then◌else◌,
}
use sohocloud_protocol.Prelude.Bytes.{bytes_equal}

between : ℕ → ℕ → ℕ → Bool
between lo hi b = leb lo b && leb b hi

-- Letters, digits and `-`, `.`, `_`, `~`.
unfoldable pub unreserved : ℕ → Bool
unfolding between
unreserved b =
    between 97 122 b
    || between 65 90 b
    || between 48 57 b
    || b == 45
    || b == 46
    || b == 95
    || b == 126

upper_hex : ℕ → ℕ
upper_hex d = if leb d 9 then 48 + d else 55 + d

-- A space is `+`, and any other reserved byte is `%` and two digits.
unfoldable pub escape_byte : ℕ → List ℕ
unfolding unreserved upper_hex
escape_byte b =
    if unreserved b
    then b ∷ []
    else if b == 32
    then 43 ∷ []
    else 37 ∷ upper_hex (b / 16) ∷ upper_hex (b % 16) ∷ []

unfoldable pub query_escape : List ℕ → List ℕ
unfolding escape_byte
query_escape [] = []
query_escape (b ∷ s) = escape_byte b ++ query_escape s

unfoldable pub unhex : ℕ → Option ℕ
unfolding between
unhex c =
    if between 48 57 c
    then some (c - 48)
    else if between 97 102 c
    then some (c - 87)
    else if between 65 70 c
    then some (c - 55)
    else none

unfoldable pub push_hex : Option ℕ → Option ℕ → Option (List ℕ) → Option (List ℕ)
push_hex (some h) (some l) (some s) = some ((16 * h + l) ∷ s)
push_hex (some h) (some l) none = none
push_hex (some h) none s = none
push_hex none _ s = none

unfoldable pub push_byte : ℕ → Option (List ℕ) → Option (List ℕ)
push_byte b (some s) = some (b ∷ s)
push_byte b none = none

-- Where `QueryUnescape` stands: between bytes, behind a `%`, or behind a `%` and a digit.
pub data Pending : Type 0 where
  start percent : Pending
  digit : ℕ → Pending

unfoldable pub next : Pending → ℕ → Pending
next start c = if c == 37 then percent else start
next percent h = digit h
next (digit h) l = start

unfoldable pub emit : Pending → ℕ → Option (List ℕ) → Option (List ℕ)
unfolding unhex push_hex push_byte
emit start c rest = if c == 37 then rest else push_byte (if c == 43 then 32 else c) rest
emit percent h rest = rest
emit (digit h) l rest = push_hex (unhex h) (unhex l) rest

-- `none` where two digits do not follow a `%`.
unfoldable pub unescape_from : Pending → List ℕ → Option (List ℕ)
unfolding next emit
unescape_from start [] = some []
unescape_from percent [] = none
unescape_from (digit h) [] = none
unescape_from p (c ∷ s) = let rest = unescape_from (next p c) s in emit p c rest

unfoldable pub query_unescape : List ℕ → Option (List ℕ)
unfolding unescape_from
query_unescape s = unescape_from start s

-- `strings.Cut` at a byte.
unfoldable pub cut : ℕ → List ℕ → List ℕ × List ℕ
cut sep [] = ([], [])
cut sep (c ∷ s) =
    let (before, after) = cut sep s in if c == sep then ([], s) else (c ∷ before, after)

-- The parts between the `&`s. An empty part has no value, as the end of the query has none.
unfoldable pub parts : List ℕ → List (List ℕ)
parts [] = [] ∷ []
parts (c ∷ s) = add (parts s)
  where
    add : List (List ℕ) → List (List ℕ)
    add [] = (c ∷ []) ∷ []
    add (p ∷ ps) = if c == 38 then [] ∷ p ∷ ps else (c ∷ p) ∷ ps

unfoldable pub contains : ℕ → List ℕ → Bool
contains sep [] = false
contains sep (c ∷ s) = c == sep || contains sep s

-- The value of a part, where it parses and its key is the one asked for.
unfoldable pub value_of : List ℕ → Option (List ℕ) → Option (List ℕ) → Option (List ℕ)
value_of key (some k) (some v) = if bytes_equal k key then some v else none
value_of key (some k) none = none
value_of key none _ = none

unfoldable pub part_value : List ℕ → List ℕ → Option (List ℕ)
unfolding contains cut query_unescape value_of
part_value key part =
    if contains 59 part || bytes_equal part []
    then none
    else (let (k, v) = cut 61 part in value_of key (query_unescape k) (query_unescape v))

unfoldable pub first_value : List ℕ → List (List ℕ) → List ℕ
unfolding part_value
first_value key [] = []
first_value key (p ∷ ps) = or_rest (part_value key p) (first_value key ps)
  where
    or_rest : Option (List ℕ) → List ℕ → List ℕ
    or_rest (some v) rest = v
    or_rest none rest = rest

-- `r.URL.Query().Get(key)`, on the raw query.
unfoldable pub query_get : List ℕ → List ℕ → List ℕ
unfolding parts first_value
query_get query key = first_value key (parts query)
