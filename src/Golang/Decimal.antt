-- ===== src/Golang/Decimal.antt =====
-- `fmt`: the verb `%d` for an `int` that is not negative.
use sohocloud_protocol.Prelude.{
  ℕ, zero, suc, ◌+◌, ◌-◌, ◌*◌, ◌/◌, ◌%◌, ◌^◌, ◌<◌, ◌≡◌, refl, List, [], ◌∷◌, ◌++◌, arith, ltb,
  if◌then◌else◌,
}

-- The digits of `n`, most significant first, a round for each unit of fuel.
decimal_loop : ℕ → ℕ → List ℕ
decimal_loop zero n = []
decimal_loop (suc fuel) n =
    let front = decimal_loop fuel (n / 10) in
    if ltb n 10 then (48 + n) ∷ [] else front ++ (48 + n % 10) ∷ []

-- An `int` has at most nineteen digits.
unfoldable pub decimal : ℕ → List ℕ
unfolding decimal_loop
decimal n = decimal_loop 19 n

-- The number that digits stand for, behind the number of the digits before.
abbrev pub read_digits : ℕ → List ℕ → ℕ
read_digits acc [] = acc
read_digits acc (d ∷ ds) = read_digits (10 * acc + (d - 48)) ds

read_digits-append :
    (acc : ℕ) (ds es : List ℕ) → read_digits acc (ds ++ es) ≡ read_digits (read_digits acc ds) es
read_digits-append acc [] es = refl
read_digits-append acc (d ∷ ds) es = read_digits-append (10 * acc + (d - 48)) ds es

read_digits-decimal_loop : (k n : ℕ) → n < 10 ^ suc k → read_digits 0 (decimal_loop (suc k) n) ≡ n
unfolding decimal_loop
read_digits-decimal_loop zero n h = ground arith
read_digits-decimal_loop (suc k) n h =
    let front = decimal_loop (suc k) (n / 10) in
    ground (
      arith,
      read_digits-decimal_loop k (n / 10) (omega arith),
      read_digits-append 0 front ((48 + n % 10) ∷ []),
    )

-- The digits of a number below 10^19 stand for it.
pub read_digits-decimal : (n : ℕ) → n < 10 ^ 19 → read_digits 0 (decimal n) ≡ n
unfolding decimal
read_digits-decimal n h = read_digits-decimal_loop 18 n h
