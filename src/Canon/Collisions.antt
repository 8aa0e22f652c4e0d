-- ===== src/Canon/Collisions.antt =====
-- Which calls on a buffer give the same bytes: what the package comment of `canon/canon.go` promises of
-- the length prefixes and the domain tag.
use sohocloud_protocol.Prelude.{
  ℕ, Option, some, ◌≡◌, ◌↔◌, refl, sym, ap, ◌∙◌, List, [], ◌∷◌, ◌++◌, append_assoc, append-nil,
  Bool, All, length,
}
use sohocloud_protocol.Prelude.Int.{ℤ, IsI64, IsU64, to_u64, to_u64-IsU64, to_i64, to_i64-to_u64}
use sohocloud_protocol.Golang.Binary.{put_uvarint, put_uint64, get_uvarint, get_uvarint-put_uvarint}
use sohocloud_protocol.Golang.Time.{Time}
use sohocloud_protocol.Canon.{Buffer, sum, new, count}
use sohocloud_protocol.Canon.Codec.{Codec, ◌>>=◌, encode-cancel}
use sohocloud_protocol.Canon.Wire.{text, text_encode, u64, i64, i64_encode, flag, flag_encode}
use sohocloud_protocol.Canon.Append.{b-bool, b-bytes, b-int64, b-new, b-string, b-time, b-uint64}
use sohocloud_protocol.Canon.Chain.{
  Call, count_call, string_call, bytes_call, bool_call, uint64_call, int64_call, time_call, call,
  chain,
}

-- The value is one that a Go program can pass, and an instant is in the range of `ValidTime`.
abbrev pub Fits : Call → Type 0
Fits (count_call n) = IsI64 n
Fits (string_call s) = IsU64 (length s)
Fits (bytes_call p) = IsU64 (length p)
Fits (bool_call v) = Unit {0}
Fits (uint64_call v) = IsU64 v
Fits (int64_call v) = IsI64 v
Fits (time_call t) = IsI64 t.nanos

-- Two calls of one operation.
pub data Paired : Call → Call → Type 0 where
  counts : (m n : ℤ) → Paired (count_call m) (count_call n)
  strings : (s t : List ℕ) → Paired (string_call s) (string_call t)
  byte_slices : (p q : List ℕ) → Paired (bytes_call p) (bytes_call q)
  bools : (v w : Bool) → Paired (bool_call v) (bool_call w)
  uint64s : (m n : ℕ) → Paired (uint64_call m) (uint64_call n)
  int64s : (m n : ℤ) → Paired (int64_call m) (int64_call n)
  times : (t u : Time) → Paired (time_call t) (time_call u)

-- Of an instant only its nanoseconds count.
abbrev pub SameValue : {c d : Call} → Paired c d → Type 0
SameValue (counts m n) = m ≡ n
SameValue (strings s t) = s ≡ t
SameValue (byte_slices p q) = p ≡ q
SameValue (bools v w) = v ≡ w
SameValue (uint64s m n) = m ≡ n
SameValue (int64s m n) = m ≡ n
SameValue (times t u) = t.nanos ≡ u.nanos

-- The same operations in the same order, on whatever values.
pub data Alike : List Call → List Call → Type 0 where
  ends : Alike [] []
  then_ : {c d : Call} {cs ds : List Call} → Paired c d → Alike cs ds → Alike (c ∷ cs) (d ∷ ds)

abbrev pub SameValues : {cs ds : List Call} → Alike cs ds → Type 0
SameValues ends = Unit {0}
SameValues (then_ p a) = SameValue p × SameValues a

layout_call : Call → List ℕ
layout_call (count_call n) = put_uvarint (to_u64 n)
layout_call (string_call s) = text_encode s
layout_call (bytes_call p) = text_encode p
layout_call (bool_call v) = flag_encode v
layout_call (uint64_call v) = put_uint64 v
layout_call (int64_call v) = i64_encode v
layout_call (time_call t) = i64_encode t.nanos

layout : List Call → List ℕ
layout [] = []
layout (c ∷ cs) = layout_call c ++ layout cs

b-call : (buf : Buffer) (c : Call) → Fits c → (call buf c).b ≡ buf.b ++ layout_call c
unfolding call layout_call count
b-call buf (count_call n) h = refl
b-call buf (string_call s) h = b-string buf s h
b-call buf (bytes_call p) h = b-bytes buf p h
b-call buf (bool_call v) h = b-bool buf v
b-call buf (uint64_call v) h = b-uint64 buf v
b-call buf (int64_call v) h = b-int64 buf v
b-call buf (time_call t) h = b-time buf t h

b-chain : (buf : Buffer) (cs : List Call) → All Fits cs → (chain buf cs).b ≡ buf.b ++ layout cs
unfolding chain layout
b-chain buf [] h = sym (append-nil buf.b)
b-chain buf (c ∷ cs) h =
    b-chain (call buf c) cs h.1
    ∙ ap (λ (l : List ℕ). l ++ layout cs) (b-call buf c h.0)
    ∙ append_assoc buf.b (layout_call c) (layout cs)

abbrev varint_decode : List ℕ → Option (ℤ × List ℕ)
varint_decode l = do (n, r) ← get_uvarint l; some (to_i64 n, r)

varint_decode-encode :
    (n : ℤ) (rest : List ℕ)
    → IsI64 n
    → varint_decode (put_uvarint (to_u64 n) ++ rest) ≡ some (n, rest)
varint_decode-encode n rest h =
    rw (get_uvarint-put_uvarint (to_u64 n) rest (to_u64-IsU64 n)) (rw (to_i64-to_u64 n h))

-- An `int` as `Count` writes it.
abbrev varint : Codec ℤ
varint = record {
  encode = λ n. put_uvarint (to_u64 n);
  decode = varint_decode;
  Fits = IsI64;
  decode-encode = varint_decode-encode;
}

-- Whatever follows: no layout is the beginning of another with another value.
call-cancel :
    {c d : Call} (p : Paired c d) (r s : List ℕ)
    → Fits c
    → Fits d
    → layout_call c ++ r ≡ layout_call d ++ s
    → SameValue p × (r ≡ s)
unfolding layout_call
call-cancel (counts m n) r s = encode-cancel varint m n r s
call-cancel (strings t u) r s = encode-cancel text t u r s
call-cancel (byte_slices p q) r s = encode-cancel text p q r s
call-cancel (bools v w) r s = encode-cancel flag v w r s
call-cancel (uint64s m n) r s = encode-cancel u64 m n r s
call-cancel (int64s m n) r s = encode-cancel i64 m n r s
call-cancel (times t u) r s = encode-cancel i64 t.nanos u.nanos r s

call-same : {c d : Call} (p : Paired c d) → SameValue p → layout_call c ≡ layout_call d
unfolding layout_call
call-same (counts m n) e = rw e refl
call-same (strings t u) e = rw e refl
call-same (byte_slices p q) e = rw e refl
call-same (bools v w) e = rw e refl
call-same (uint64s m n) e = rw e refl
call-same (int64s m n) e = rw e refl
call-same (times t u) e = rw e refl

layout-cancel :
    {cs ds : List Call} (a : Alike cs ds)
    → All Fits cs
    → All Fits ds
    → layout cs ≡ layout ds
    → SameValues a
unfolding layout
layout-cancel ends f g e = tt
layout-cancel (then_ p a) f g e =
    let (same, rest) = call-cancel p _ _ f.0 g.0 e in (same, layout-cancel a f.1 g.1 rest)

layout-same : {cs ds : List Call} (a : Alike cs ds) → SameValues a → layout cs ≡ layout ds
unfolding layout
layout-same ends v = refl
layout-same (then_ p a) v = rw (call-same p v.0, layout-same a v.1) refl

-- Two chains of the same calls in the same order behind `New`, on values that a Go program can pass and
-- instants in the range of `ValidTime`, give the same bytes exactly if the domain tags are the same
-- and every call has the same value, for an instant the same nanoseconds: no two distinct sequences of
-- fields collide, wherever the one ends and the next begins.
pub sum-chain_iff :
    (tag tag' : List ℕ) (cs ds : List Call) (a : Alike cs ds)
    → IsU64 (length tag)
    → IsU64 (length tag')
    → All Fits cs
    → All Fits ds
    → (sum (chain (new tag) cs) ≡ sum (chain (new tag') ds)) ↔ ((tag ≡ tag') × SameValues a)
unfolding sum
sum-chain_iff tag tag' cs ds a t t' f g =
    let left = bytes_of tag cs t f in
    let right = bytes_of tag' ds t' g in
    (
      λ e.
          let (same, rest) =
            encode-cancel text tag tag' (layout cs) (layout ds) t t' (sym left ∙ e ∙ right) in
          (same, layout-cancel a f g rest),
      λ p. left ∙ rw (p.0, layout-same a p.1) refl ∙ sym right,
    )
  where
    bytes_of :
        (tag : List ℕ) (cs : List Call)
        → IsU64 (length tag)
        → All Fits cs
        → (chain (new tag) cs).b ≡ text_encode tag ++ layout cs
    bytes_of tag cs t f = b-chain (new tag) cs f ∙ ap (λ (l : List ℕ). l ++ layout cs) (b-new tag t)
