-- ===== src/Examples/Hex.antt =====
-- Bytes as pairs of digits, as `testdata/vectors.json` writes them.
use sohocloud_protocol.Prelude.{ℕ, ◌+◌, ◌-◌, ◌*◌, none, List, [], ◌∷◌, leb, if◌then◌else◌}
use sohocloud_protocol.Prelude.Int.{pos}
use sohocloud_protocol.Prelude.Bytes.{codes}
use sohocloud_protocol.Golang.Time.{Time}
use Prim.Native.String.{String}

hex_digit : ℕ → ℕ
hex_digit c = if leb c 57 then c - 48 else c - 87

unfoldable pub hex_bytes : List ℕ → List ℕ
unfolding hex_digit
hex_bytes [] = []
hex_bytes (h ∷ []) = []
hex_bytes (h ∷ l ∷ s) = (16 * hex_digit h + hex_digit l) ∷ hex_bytes s

abbrev pub hex : String → List ℕ
hex s = hex_bytes (codes s)

-- An instant by its nanoseconds since 1970, in the zone UTC.
abbrev pub instant : ℕ → Time
instant n = record { nanos = pos n; zone = pos 0; monotonic = none }
