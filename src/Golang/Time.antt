-- ===== src/Golang/Time.antt =====
-- `time.Time` as the program uses it.
use sohocloud_protocol.Prelude.{Bool, Option, none, some}
use sohocloud_protocol.Prelude.Int.{ℤ, pos, ltb_ℤ, to_u64, to_i64}

-- An instant in nanoseconds since the Unix epoch, which may lie outside `int64`; the offset of the
-- location in seconds; and the reading of the monotonic clock, which a parsed or built time lacks.
pub record Time : Type 0 where
  pub nanos : ℤ
  pub zone : ℤ
  pub monotonic : Option ℤ

-- `t.UTC()` changes the location and strips the monotonic reading.
unfoldable pub utc : Time → Time
utc t = record t { zone = pos 0; monotonic = none }

-- `time.Unix(0, nsec)`. It sets the local zone, which no caller reads.
unfoldable pub unix : ℤ → Time
unix nsec = record { nanos = nsec; zone = pos 0; monotonic = none }

-- `t.UnixNano()`: an `int64`, wrapped where the instant does not fit.
unfoldable pub unix_nano : Time → ℤ
unix_nano t = to_i64 (to_u64 t.nanos)

-- The monotonic readings decide where both times have one.
before_by : Option ℤ → Option ℤ → Time → Time → Bool
before_by (some m) (some n) t u = ltb_ℤ m n
before_by _ _ t u = ltb_ℤ t.nanos u.nanos

unfoldable pub before : Time → Time → Bool
unfolding before_by
before t u = before_by t.monotonic u.monotonic t u

unfoldable pub after : Time → Time → Bool
unfolding before
after t u = before u t
