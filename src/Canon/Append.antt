-- ===== src/Canon/Append.antt =====
-- What each operation of the buffer appends, in terms of the formats of `Canon.Wire`, and what it
-- does to the latched error.
use sohocloud_protocol.Prelude.{
  ℕ, ◌≡◌, refl, ap, ◌↔◌, Bool, true, false, none, List, [], ◌++◌, append_assoc, length, arith,
}
use sohocloud_protocol.Prelude.Int.{ℤ, pos, IsI64, IsU64, to_u64, to_u64-IsU64, to_u64-to_i64}
use sohocloud_protocol.Golang.Binary.{put_uvarint, put_uint64}
use sohocloud_protocol.Golang.Time.{Time, unix_nano, utc}
use sohocloud_protocol.Canon.{
  Buffer, valid_time, new, count, string, bytes, bool, uint64, int64, time,
}
use sohocloud_protocol.Canon.Wire.{text_encode, i64_encode, flag_encode}

to_u64-pos : (n : ℕ) → IsU64 n → to_u64 (pos n) ≡ n
unfolding to_u64
to_u64-pos n h = omega arith

-- `ValidTime` holds exactly for the instants whose nanoseconds since 1970 fit an int64.
pub valid_time_iff : (t : Time) → (valid_time t ≡ true) ↔ IsI64 t.nanos
unfolding valid_time
valid_time_iff t = ground arith

pub b-count : (buf : Buffer) (n : ℕ) → IsU64 n → (count buf (pos n)).b ≡ buf.b ++ put_uvarint n
unfolding count
b-count buf n h = rw (to_u64-pos n h)

pub b-string :
    (buf : Buffer) (s : List ℕ) → IsU64 (length s) → (string buf s).b ≡ buf.b ++ text_encode s
unfolding string
b-string buf s h = rw (to_u64-pos (length s) h) (append_assoc buf.b (put_uvarint (length s)) s)

pub b-bytes :
    (buf : Buffer) (s : List ℕ) → IsU64 (length s) → (bytes buf s).b ≡ buf.b ++ text_encode s
unfolding bytes
b-bytes buf s h = rw (to_u64-pos (length s) h) (append_assoc buf.b (put_uvarint (length s)) s)

pub b-bool : (buf : Buffer) (v : Bool) → (bool buf v).b ≡ buf.b ++ flag_encode v
unfolding bool
b-bool buf true = refl
b-bool buf false = refl

pub b-uint64 : (buf : Buffer) (n : ℕ) → (uint64 buf n).b ≡ buf.b ++ put_uint64 n
unfolding uint64
b-uint64 buf n = refl

pub b-int64 : (buf : Buffer) (z : ℤ) → (int64 buf z).b ≡ buf.b ++ i64_encode z
unfolding int64
b-int64 buf z = refl

unix_nano-utc : (t : Time) → to_u64 (unix_nano (utc t)) ≡ to_u64 t.nanos
unfolding unix_nano utc
unix_nano-utc t = to_u64-to_i64 (to_u64 t.nanos) (to_u64-IsU64 t.nanos)

pub b-time :
    (buf : Buffer) (t : Time) → IsI64 t.nanos → (time buf t).b ≡ buf.b ++ i64_encode t.nanos
unfolding time
b-time buf t h = rw ((valid_time_iff t).1 h) (ap (λ n. buf.b ++ put_uint64 n) (unix_nano-utc t))

pub b-new : (tag : List ℕ) → IsU64 (length tag) → (new tag).b ≡ text_encode tag
unfolding new
b-new tag h = b-string (record { b = []; err = none }) tag h

-- An instant out of range: nothing is appended and an error is latched.
pub time_invalid : (buf : Buffer) (t : Time) → valid_time t ≡ false → (time buf t).b ≡ buf.b
unfolding time
time_invalid buf t h = rw h
