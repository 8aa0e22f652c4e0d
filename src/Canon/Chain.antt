-- ===== src/Canon/Chain.antt =====
-- Chains of calls on a buffer, as the `CanonicalBytes` methods write them: what `Sum` and `Err` give at
-- the end.
use sohocloud_protocol.Prelude.{
  ℕ, ◌≡◌, ◌↔◌, refl, List, [], ◌∷◌, Bool, true, false, Bool-cases, inl, inr, none, some, ◌⊎◌, All,
  arith,
}
use sohocloud_protocol.Prelude.Int.{ℤ, IsI64}
use sohocloud_protocol.Golang.Time.{Time}
use sohocloud_protocol.Canon.{
  Buffer, time_out_of_range, valid_time, new, count, string, bytes, bool, uint64, int64, time, err,
}
use sohocloud_protocol.Canon.Append.{valid_time_iff}

pub data Call : Type 0 where
  count_call : ℤ → Call
  string_call bytes_call : List ℕ → Call
  bool_call : Bool → Call
  uint64_call : ℕ → Call
  int64_call : ℤ → Call
  time_call : Time → Call

unfoldable pub call : Buffer → Call → Buffer
call buf (count_call n) = count buf n
call buf (string_call s) = string buf s
call buf (bytes_call p) = bytes buf p
call buf (bool_call v) = bool buf v
call buf (uint64_call v) = uint64 buf v
call buf (int64_call v) = int64 buf v
call buf (time_call t) = time buf t

-- `buf.A(x).B(y)…`
unfoldable pub chain : Buffer → List Call → Buffer
chain buf [] = buf
chain buf (c ∷ cs) = chain (call buf c) cs

-- The instant of the call, if it has one, is representable.
abbrev pub IsRepresentable : Call → Type 0
IsRepresentable (time_call t) = IsI64 t.nanos
IsRepresentable (count_call n) = Unit {0}
IsRepresentable (string_call s) = Unit {0}
IsRepresentable (bytes_call p) = Unit {0}
IsRepresentable (bool_call v) = Unit {0}
IsRepresentable (uint64_call v) = Unit {0}
IsRepresentable (int64_call v) = Unit {0}

err-call-some :
    (buf : Buffer) (c : Call)
    → (buf.err ≡ some time_out_of_range)
    → (call buf c).err ≡ some time_out_of_range
unfolding call count string bytes bool uint64 int64 time
err-call-some buf (count_call n) h = h
err-call-some buf (string_call s) h = h
err-call-some buf (bytes_call p) h = h
err-call-some buf (bool_call true) h = h
err-call-some buf (bool_call false) h = h
err-call-some buf (uint64_call v) h = h
err-call-some buf (int64_call v) h = h
err-call-some buf (time_call t) h = ground arith

err-chain-some :
    (buf : Buffer) (cs : List Call)
    → buf.err ≡ some time_out_of_range
    → (chain buf cs).err ≡ some time_out_of_range
unfolding chain
err-chain-some buf [] h = h
err-chain-some buf (c ∷ cs) h = err-chain-some (call buf c) cs (err-call-some buf c h)

-- From a buffer without an error a call latches one exactly if its instant is not representable.
err-call-none :
    (buf : Buffer) (c : Call)
    → buf.err ≡ none
    → (IsRepresentable c × ((call buf c).err ≡ none))
      ⊎ (¬ (IsRepresentable c) × ((call buf c).err ≡ some time_out_of_range))
unfolding call count string bytes bool uint64 int64 time
err-call-none buf (count_call n) h = inl (tt, h)
err-call-none buf (string_call s) h = inl (tt, h)
err-call-none buf (bytes_call p) h = inl (tt, h)
err-call-none buf (bool_call true) h = inl (tt, h)
err-call-none buf (bool_call false) h = inl (tt, h)
err-call-none buf (uint64_call v) h = inl (tt, h)
err-call-none buf (int64_call v) h = inl (tt, h)
err-call-none buf (time_call t) h = elim (Bool-cases (valid_time t)) [
  | inl v ↦ inl ((valid_time_iff t).0 v, rw v h)
  | inr v ↦ inr ((λ r. ground (arith, (valid_time_iff t).1 r)), rw (v, h))
]

err-chain-none :
    (buf : Buffer) (cs : List Call)
    → buf.err ≡ none
    → ((chain buf cs).err ≡ none) ↔ All IsRepresentable cs
unfolding chain
err-chain-none buf [] h = ((λ _. tt), (λ _. h))
err-chain-none buf (c ∷ cs) h = elim (err-call-none buf c h) [
  | inl (r, e) ↦ (
    (λ n. (r, (err-chain-none (call buf c) cs e).0 n)),
    (λ a. (err-chain-none (call buf c) cs e).1 a.1),
  )
  | inr (r, e) ↦
      let stuck = err-chain-some (call buf c) cs e in
      ((λ n. absurd (ground (arith, stuck))), (λ a. absurd (r a.0)))
]

-- `Err()` at the end of a chain of calls behind `New` is nil exactly if every instant that the
-- chain encodes is in the range of int64 nanoseconds, wherever in the chain it stands.
pub err-chain_iff :
    (tag : List ℕ) (cs : List Call) → (err (chain (new tag) cs) ≡ none) ↔ All IsRepresentable cs
unfolding err new
err-chain_iff tag cs = err-chain-none (new tag) cs refl
