-- ===== src/Golang/Binary.antt =====
-- `encoding/binary`: `PutUvarint` and `BigEndian.PutUint64`, with readers for what they write.
use sohocloud_protocol.Prelude.{
  ℕ, zero, suc, ◌+◌, ◌-◌, ◌*◌, ◌/◌, ◌%◌, ◌^◌, ◌<◌, ◌≤◌, ◌≡◌, ◌⊎◌, inl, inr, refl, ap, length,
  Bool-cases, Option, none, some, List, [], ◌∷◌, ◌++◌, arith, ltb, if◌then◌else◌,
}
use sohocloud_protocol.Prelude.Int.{IsU64}
use sohocloud_protocol.Prelude.Bytes.{IsBytes}
use mathlib.Core.Option

-- `for x >= 0x80 { buf[i] = byte(x) | 0x80; x >>= 7; i++ }; buf[i] = byte(x)`, a round for each unit
-- of fuel. `byte(x) | 0x80` is `x % 128 + 128`.
put_uvarint_loop : ℕ → ℕ → List ℕ
put_uvarint_loop zero x = []
put_uvarint_loop (suc fuel) x =
    let rest = put_uvarint_loop fuel (x / 128) in
    if ltb x 128 then x ∷ [] else (x % 128 + 128) ∷ rest

-- The program hands `PutUvarint` a buffer of `MaxVarintLen64` = 10 bytes.
unfoldable pub put_uvarint : ℕ → List ℕ
unfolding put_uvarint_loop
put_uvarint x = put_uvarint_loop 10 x

-- A reader of unsigned LEB128: seven bits a byte, least significant group first.
unfoldable pub get_uvarint : List ℕ → Option (ℕ × List ℕ)
get_uvarint [] = none
get_uvarint (b ∷ bs) =
    let more = Option.map (λ (p : ℕ × List ℕ). (b - 128 + 128 * p.0, p.1)) (get_uvarint bs) in
    if ltb b 128 then some (b, bs) else more

get_uvarint-put_uvarint_loop :
    (k x : ℕ) (rest : List ℕ)
    → x < 128 ^ suc k
    → get_uvarint (put_uvarint_loop (suc k) x ++ rest) ≡ some (x, rest)
unfolding get_uvarint put_uvarint_loop
get_uvarint-put_uvarint_loop zero x rest h = ground arith
get_uvarint-put_uvarint_loop (suc k) x rest h =
    ground (arith, get_uvarint-put_uvarint_loop k (x / 128) rest (omega arith))

pub get_uvarint-put_uvarint :
    (x : ℕ) (rest : List ℕ) → IsU64 x → get_uvarint (put_uvarint x ++ rest) ≡ some (x, rest)
unfolding put_uvarint
get_uvarint-put_uvarint x rest h = get_uvarint-put_uvarint_loop 9 x rest (omega arith)

put_uvarint_loop-IsBytes : (fuel x : ℕ) → IsBytes (put_uvarint_loop fuel x)
unfolding put_uvarint_loop
put_uvarint_loop-IsBytes zero x = tt
put_uvarint_loop-IsBytes (suc fuel) x = ground (arith, put_uvarint_loop-IsBytes fuel (x / 128))

pub put_uvarint-IsBytes : (x : ℕ) → IsBytes (put_uvarint x)
unfolding put_uvarint
put_uvarint-IsBytes x = put_uvarint_loop-IsBytes 10 x

-- The loop ended by its own test: only the last byte is below 128.
abbrev pub IsVarint : List ℕ → Type 0
IsVarint [] = ⊥
IsVarint (b ∷ bs) = ((b < 128) × (bs ≡ [])) ⊎ ((128 ≤ b) × (b < 256) × IsVarint bs)

-- With a round for every seven bits the fuel does not run out.
put_uvarint_loop-IsVarint :
    (k x : ℕ)
    → x < 128 ^ suc k
    → IsVarint (put_uvarint_loop (suc k) x) × (length (put_uvarint_loop (suc k) x) ≤ suc k)
unfolding put_uvarint_loop
put_uvarint_loop-IsVarint zero x h = ground arith
put_uvarint_loop-IsVarint (suc k) x h = elim (Bool-cases (ltb x 128)) [
  | inl small ↦ rw small (inl (ground arith, refl), omega arith)
  | inr large ↦
      let rest = put_uvarint_loop-IsVarint k (x / 128) (omega arith) in
      rw large (inr (omega arith, omega arith, rest.0), omega (arith, rest.1))
]

pub put_uvarint-IsVarint :
    (x : ℕ) → IsU64 x → IsVarint (put_uvarint x) × (length (put_uvarint x) ≤ 10)
unfolding put_uvarint
put_uvarint-IsVarint x h = put_uvarint_loop-IsVarint 9 x (omega arith)

-- `b[0] = byte(v >> 56)` and so on down to `b[7] = byte(v)`.
unfoldable pub put_uint64 : ℕ → List ℕ
put_uint64 v =
    (v / 2 ^ 56 % 256)
    ∷ (v / 2 ^ 48 % 256)
    ∷ (v / 2 ^ 40 % 256)
    ∷ (v / 2 ^ 32 % 256)
    ∷ (v / 2 ^ 24 % 256)
    ∷ (v / 2 ^ 16 % 256)
    ∷ (v / 2 ^ 8 % 256)
    ∷ (v % 256)
    ∷ []

-- A reader of eight bytes, most significant first.
unfoldable pub get_uint64 : List ℕ → Option (ℕ × List ℕ)
get_uint64 (a ∷ b ∷ c ∷ d ∷ e ∷ f ∷ g ∷ h ∷ rest) = some (
  a * 2 ^ 56 + b * 2 ^ 48 + c * 2 ^ 40 + d * 2 ^ 32 + e * 2 ^ 24 + f * 2 ^ 16 + g * 2 ^ 8 + h,
  rest,
)
get_uint64 _ = none

pub get_uint64-put_uint64 :
    (v : ℕ) (rest : List ℕ) → IsU64 v → get_uint64 (put_uint64 v ++ rest) ≡ some (v, rest)
unfolding get_uint64 put_uint64
get_uint64-put_uint64 v rest h = ap (λ n. some (n, rest)) (omega arith)
