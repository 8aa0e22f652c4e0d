-- ===== src/Canon/Extends.antt =====
-- The operations of the buffer only append, whatever the values: also where a length does not fit, or
-- an instant is out of range.
use sohocloud_protocol.Prelude.{
  ℕ, ◌≡◌, sym, List, [], ◌∷◌, ◌++◌, append_assoc, append-nil, Bool, true, false, length, Bool-cases,
  inl, inr,
}
use sohocloud_protocol.Prelude.Int.{ℤ, to_u64, pos}
use sohocloud_protocol.Golang.Binary.{put_uvarint, put_uint64}
use sohocloud_protocol.Golang.Time.{Time, unix_nano, utc}
use sohocloud_protocol.Canon.{Buffer, valid_time, count, string, bytes, bool, uint64, int64, time}

-- The second byte string begins with the first.
pub data Extends (l : List ℕ) : List ℕ → Type 0 where
  extends : {l' : List ℕ} (r : List ℕ) → l' ≡ l ++ r → Extends l l'

pub Extends-refl : (l : List ℕ) → Extends l l
Extends-refl l = extends [] (sym (append-nil l))

Extends-append : {l l' : List ℕ} (p : List ℕ) → Extends l l' → Extends l (l' ++ p)
Extends-append {l} p (extends r e) = extends (r ++ p) (rw (e, append_assoc))

module _ {l : List ℕ} (buf : Buffer) where
  pub Extends-count : (n : ℤ) → Extends l buf.b → Extends l (count buf n).b
  unfolding count
  Extends-count n h = Extends-append (put_uvarint (to_u64 n)) h

  pub Extends-string : (s : List ℕ) → Extends l buf.b → Extends l (string buf s).b
  unfolding string
  Extends-string s h = Extends-append s (Extends-append (put_uvarint (to_u64 (pos (length s)))) h)

  pub Extends-bytes : (s : List ℕ) → Extends l buf.b → Extends l (bytes buf s).b
  unfolding bytes
  Extends-bytes s h = Extends-append s (Extends-append (put_uvarint (to_u64 (pos (length s)))) h)

  pub Extends-bool : (v : Bool) → Extends l buf.b → Extends l (bool buf v).b
  unfolding bool
  Extends-bool true h = Extends-append (1 ∷ []) h
  Extends-bool false h = Extends-append (0 ∷ []) h

  pub Extends-uint64 : (n : ℕ) → Extends l buf.b → Extends l (uint64 buf n).b
  unfolding uint64
  Extends-uint64 n h = Extends-append (put_uint64 n) h

  pub Extends-int64 : (z : ℤ) → Extends l buf.b → Extends l (int64 buf z).b
  unfolding int64
  Extends-int64 z h = Extends-append (put_uint64 (to_u64 z)) h

  pub Extends-time : (t : Time) → Extends l buf.b → Extends l (time buf t).b
  unfolding time
  Extends-time t h = elim (Bool-cases (valid_time t)) [
    | inl v ↦ rw v (Extends-append (put_uint64 (to_u64 (unix_nano (utc t)))) h)
    | inr v ↦ rw v h
  ]

pub ruleset appending = (
  Extends-refl, Extends-count, Extends-string, Extends-bytes, Extends-bool, Extends-uint64,
  Extends-int64, Extends-time,
)
