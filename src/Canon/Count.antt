-- ===== src/Canon/Count.antt =====
-- `Buffer.Count` and the buffer of ten bytes on its stack.
use sohocloud_protocol.Prelude.{ℕ, ◌≡◌, ◌≤◌, refl, some, List, ◌++◌, length}
use sohocloud_protocol.Prelude.Int.{ℤ, to_u64, to_u64-IsU64}
use sohocloud_protocol.Golang.Binary.{
  IsVarint, get_uvarint, get_uvarint-put_uvarint, put_uvarint, put_uvarint-IsVarint,
}
use sohocloud_protocol.Canon.{Buffer, count}

-- The bytes that `Count` appends.
pub record Counted (before after : Buffer) (n : ℤ) : Type 0 where
  pub groups : List ℕ
  pub appended : after.b ≡ before.b ++ groups
  pub same_err : after.err ≡ before.err
  pub ended : IsVarint groups
  pub fits : length groups ≤ 10
  pub read : (rest : List ℕ) → get_uvarint (groups ++ rest) ≡ some (to_u64 n, rest)

-- Whatever the `int`, negative ones included, the loop of `Count` ends by its own test within the ten
-- bytes of `tmp`, so that `PutUvarint` does not index behind them: it appends at most ten bytes, of
-- which only the last is below 128, and a reader of them gets the `int` modulo 2^64 and leaves
-- whatever follows.
pub count-Counted : (buf : Buffer) (n : ℤ) → Counted buf (count buf n) n
unfolding count
count-Counted buf n =
    let u = to_u64-IsU64 n in
    let varint = put_uvarint-IsVarint (to_u64 n) u in
    record {
      groups = put_uvarint (to_u64 n);
      appended = refl;
      same_err = refl;
      ended = varint.0;
      fits = varint.1;
      read = λ rest. get_uvarint-put_uvarint (to_u64 n) rest u;
    }
