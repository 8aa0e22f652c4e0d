-- ===== src/Examples/Toy.antt =====
-- A signature scheme and a hash that meet the laws of the interfaces and can be evaluated. A public key
-- is the first 32 bytes of the private key, and the first byte of a signature marks one message.
use sohocloud_protocol.Prelude.{
  ℕ, zero, suc, ◌≡◌, ◌∙◌, sym, refl, ap, List, [], ◌∷◌, drop, true, length, if◌then◌else◌,
  replicate, arith,
}
use sohocloud_protocol.Prelude.Int.{pos}
use sohocloud_protocol.Prelude.Bytes.{bytes_equal, bytes_equal_iff, bytes_equal_refl}
use sohocloud_protocol.Golang.Ed25519.{Ed25519, Binds}
use sohocloud_protocol.Golang.Slice.{Sha256}
use sohocloud_protocol.Golang.Time.{Time}
use sohocloud_protocol.Protocol.{CoreMessage, core_bytes, signature}
use sohocloud_protocol.Canon.Signature.{Valid}
use mathlib.Core.Option.{none}

unfoldable pub pad : ℕ → List ℕ → List ℕ
pad zero l = []
pad (suc n) [] = 0 ∷ pad n []
pad (suc n) (x ∷ xs) = x ∷ pad n xs

pub length-pad : (n : ℕ) (l : List ℕ) → length (pad n l) ≡ n
unfolding pad
length-pad zero l = refl
length-pad (suc n) [] = ap suc (length-pad n [])
length-pad (suc n) (x ∷ xs) = ap suc (length-pad n xs)

-- The byte 1 marks the message `marked`.
abbrev pub toy_sign : List ℕ → List ℕ → List ℕ → List ℕ
toy_sign marked pub_key msg = (if bytes_equal msg marked then 1 else 0) ∷ pad 63 pub_key

pub toy_verify-sign :
    (marked key msg : List ℕ)
    → bytes_equal (toy_sign marked (pad 32 key) msg) (toy_sign marked (pad 32 key) msg) ≡ true
toy_verify-sign marked key msg = bytes_equal_refl (toy_sign marked (pad 32 key) msg)

pub toy_length-sign : (marked key msg : List ℕ) → length (toy_sign marked (pad 32 key) msg) ≡ 64
toy_length-sign marked key msg = ap suc (length-pad 63 (pad 32 key))

abbrev pub toy : List ℕ → Ed25519
toy marked = record {
  public = pad 32;
  sign = λ key msg. toy_sign marked (pad 32 key) msg;
  verify = λ key msg sig. bytes_equal sig (toy_sign marked key msg);
  length-public = length-pad 32;
  length-sign = toy_length-sign marked;
  verify-sign = toy_verify-sign marked;
}

toy_marked :
    (marked key msg : List ℕ) (tail : List ℕ)
    → bytes_equal (1 ∷ tail) (toy_sign marked key msg) ≡ true
    → msg ≡ marked
toy_marked marked key msg tail h =
    ground (arith, bytes_equal_iff (1 ∷ tail) (toy_sign marked key msg), bytes_equal_iff msg marked)

-- A signature with the mark binds its message.
pub toy-Binds : (marked key tail : List ℕ) → Binds (toy marked) key (1 ∷ tail)
toy-Binds marked key tail m m' h h' =
    toy_marked marked key m tail h ∙ sym (toy_marked marked key m' tail h')

abbrev pub toy_hash : Sha256
toy_hash = record { digest = pad 32; length-digest = length-pad 32 }

-- A digest that starts at the length of the window.
abbrev pub tail_hash : Sha256
tail_hash = record {
  digest = λ l. pad 32 (drop 24 l);
  length-digest = λ l. length-pad 32 (drop 24 l);
}

abbrev pub alice : List ℕ
alice = replicate 64 7

abbrev pub bob : List ℕ
bob = replicate 64 9

-- 2023-11-14 22:14:10.5 UTC, and an instant that an `int64` of nanoseconds cannot hold.
abbrev pub sent : Time
sent = record { nanos = pos 1700000050500000000; zone = pos 3600; monotonic = none }

abbrev pub far_future : Time
far_future = record { nanos = pos 99999999999999999999; zone = pos 0; monotonic = none }

-- Alice's signature with the mark.
abbrev pub alice_signature : List ℕ
alice_signature = 1 ∷ pad 63 (pad 32 alice)

pub toy_signed :
    (marked : List ℕ) (m : CoreMessage)
    → core_bytes m ≡ marked
    → signature m ≡ alice_signature
    → Valid (toy marked) (pad 32 alice) (core_bytes m) (signature m)
toy_signed marked m e f = record {
  key_sized = length-pad 32 alice;
  sig_sized = rw f (omega (arith, length-pad 63 (pad 32 alice)));
  verified = rw (e, f) (ground (arith, bytes_equal_refl marked, bytes_equal_refl alice_signature));
}
