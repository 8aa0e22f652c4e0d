-- ===== src/Canon.antt =====
-- `canon/canon.go`: the buffer over which every signature of the protocol is computed, and the
-- panic-safe check of a signature. The `New`, `Count`, ... of the source are the functions `new`,
-- `count`, ... from buffer to buffer.
pub mod Codec
pub mod Wire
pub mod Append
pub mod Chain
pub mod Collisions
pub mod Count
pub mod Extends
pub mod Signature
use sohocloud_protocol.Prelude.{
  ℕ, Bool, false, ◌&&◌, Option, none, some, List, [], ◌∷◌, ◌++◌, length, ◌==◌, if◌then◌else◌,
}
use sohocloud_protocol.Prelude.Int.{ℤ, pos, min_int64, max_int64, to_u64}
use sohocloud_protocol.Golang.Binary.{put_uvarint, put_uint64}
use sohocloud_protocol.Golang.Time.{Time, utc, unix, unix_nano, before, after}
use sohocloud_protocol.Golang.Ed25519.{
  Ed25519, public_key_size, signature_size, verify as ed25519_verify,
}
use mathlib.Core.Bool.{not}

-- `ErrTimeOutOfRange`, the only error of the encoder.
pub data CanonError : Type 0 where
  time_out_of_range : CanonError

abbrev pub min_representable_unix_nano : Time
unfolding unix
min_representable_unix_nano = unix min_int64

abbrev pub max_representable_unix_nano : Time
unfolding unix
max_representable_unix_nano = unix max_int64

unfoldable pub valid_time : Time → Bool
unfolding utc unix before after
valid_time t =
    let u = utc t in
    not (before u min_representable_unix_nano) && not (after u max_representable_unix_nano)

pub record Buffer : Type 0 where
  pub b : List ℕ
  pub err : Option CanonError

append_bytes : Buffer → List ℕ → Buffer
append_bytes buf p = record buf { b = buf.b ++ p }

-- `uint64(n)` of an `int` that may be negative.
unfoldable pub count : Buffer → ℤ → Buffer
unfolding append_bytes
count buf n = append_bytes buf (put_uvarint (to_u64 n))

unfoldable pub string : Buffer → List ℕ → Buffer
unfolding count append_bytes
string buf s = let buf = count buf (pos (length s)) in append_bytes buf s

unfoldable pub bytes : Buffer → List ℕ → Buffer
unfolding count append_bytes
bytes buf p = let buf = count buf (pos (length p)) in append_bytes buf p

unfoldable pub bool : Buffer → Bool → Buffer
unfolding append_bytes
bool buf v = if v then append_bytes buf (1 ∷ []) else append_bytes buf (0 ∷ [])

unfoldable pub uint64 : Buffer → ℕ → Buffer
unfolding append_bytes
uint64 buf v = append_bytes buf (put_uint64 v)

unfoldable pub int64 : Buffer → ℤ → Buffer
unfolding uint64
int64 buf v = uint64 buf (to_u64 v)

-- The first error stays.
latch : Option CanonError → Option CanonError
latch none = some time_out_of_range
latch (some e) = some e

unfoldable pub time : Buffer → Time → Buffer
unfolding int64 latch
time buf t =
    if valid_time t then int64 buf (unix_nano (utc t)) else record buf { err = latch buf.err }

unfoldable pub new : List ℕ → Buffer
unfolding string
new domain_tag = string (record { b = []; err = none }) domain_tag

unfoldable pub err : Buffer → Option CanonError
err buf = buf.err

-- A copy of the bytes, which the error does not change.
unfoldable pub sum : Buffer → List ℕ
sum buf = buf.b

-- `&&` reads its right side only where the left one holds, so `ed25519.Verify` is not reached with
-- a key or a signature of the wrong size. `none` is a panic.
unfoldable pub verify_sig : Ed25519 → List ℕ → List ℕ → List ℕ → Option Bool
verify_sig c key msg sig =
    if length key == public_key_size
    then (if length sig == signature_size then ed25519_verify c key msg sig else some false)
    else some false
