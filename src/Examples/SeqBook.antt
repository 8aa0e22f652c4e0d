-- ===== src/Examples/SeqBook.antt =====
-- A coordinator that keeps its promise on Seq: it holds, for each node, the least listing and the least
-- heartbeat that it would still take.
use sohocloud_protocol.Prelude.{
  ℕ, suc, ◌≡◌, ◌≤◌, ◌<◌, refl, Option, none, some, Bool, true, false, ◌&&◌, List, [], leb,
  if◌then◌else◌, arith, Bool-cases, inl, inr,
}
use sohocloud_protocol.Prelude.Bytes.{codes, bytes_equal, bytes_equal_iff, bytes_equal_refl}
use sohocloud_protocol.Golang.Ed25519.{Ed25519}
use sohocloud_protocol.Fees.{FeeDeclaration}
use sohocloud_protocol.Coordinator.{Coordinator, Error}
use sohocloud_protocol.Coordinator.SeqContract.{
  SeqContract, Series, listings, heartbeats, Signal, listing_signal, heartbeat_signal, series,
  signal_node, signal_seq, signal_verify, submit,
}

abbrev pub Floors : Type 0
Floors = Series → List ℕ → ℕ

abbrev same_series : Series → Series → Bool
same_series listings listings = true
same_series heartbeats heartbeats = true
same_series listings heartbeats = false
same_series heartbeats listings = false

abbrev is_yes : Option Bool → Bool
is_yes (some true) = true
is_yes (some false) = false
is_yes none = false

unfoldable pub raise : Floors → Signal → Floors
raise s g q node =
    if same_series q (series g) && bytes_equal node (signal_node g)
    then suc (signal_seq g)
    else s q node

-- All nodes have one key, for a small example.
unfoldable pub take_signal : Ed25519 → List ℕ → Floors → Signal → Floors × Option Error
unfolding raise
take_signal c key s g =
    if is_yes (signal_verify c key g) && leb (s (series g) (signal_node g)) (signal_seq g)
    then (raise s g, none)
    else (s, some (codes "refused"))

abbrev pub seq_book : Ed25519 → List ℕ → FeeDeclaration → Coordinator Floors
seq_book c key declaration = record {
  submit_listing = λ s l. take_signal c key s (listing_signal l);
  heartbeat = λ s h. take_signal c key s (heartbeat_signal h);
  poll_jobs = λ s id. (s, ([], none));
  decline = λ s d. (s, none);
  report_job = λ s r. (s, none);
  fees = λ s. (s, (declaration, none));
}

is_yes_eq : (o : Option Bool) → is_yes o ≡ true → o ≡ some true
is_yes_eq (some true) h = refl
is_yes_eq (some false) h = cc
is_yes_eq none h = cc

same_series_eq : (q q' : Series) → same_series q q' ≡ true → q ≡ q'
same_series_eq listings listings h = refl
same_series_eq heartbeats heartbeats h = refl
same_series_eq listings heartbeats h = cc
same_series_eq heartbeats listings h = cc

same_series_refl : (q : Series) → same_series q q ≡ true
same_series_refl listings = refl
same_series_refl heartbeats = refl

module _ (c : Ed25519) (key : List ℕ) (s : Floors) (g : Signal) where
  abbrev guard : Bool
  guard = is_yes (signal_verify c key g) && leb (s (series g) (signal_node g)) (signal_seq g)

  guard_above : guard ≡ true → s (series g) (signal_node g) ≤ signal_seq g
  guard_above t = ground arith

  guard-taken : (take_signal c key s g).1 ≡ none → guard ≡ true
  unfolding take_signal
  guard-taken h = elim (Bool-cases guard) [ inl t ↦ t | inr t ↦ absurd (ground (arith, t)) ]

  raised : (q : Series) (node : List ℕ) → guard ≡ true → s q node ≤ raise s g q node
  unfolding raise
  raised q node t =
      elim (Bool-cases (same_series q (series g) && bytes_equal node (signal_node g))) [
        | inl same ↦
            let e = same_series_eq q (series g) (ground arith) in
            let n = (bytes_equal_iff node (signal_node g)).0 (ground arith) in
            rw (same, e, n) (omega (arith, guard_above t))
        | inr other ↦ rw other (omega arith)
      ]

  taken-signed : (take_signal c key s g).1 ≡ none → signal_verify c key g ≡ some true
  unfolding take_signal
  taken-signed h = is_yes_eq (signal_verify c key g) (ground arith)

  taken-above :
      (take_signal c key s g).1 ≡ none
      → (s (series g) (signal_node g) ≤ signal_seq g)
        × (signal_seq g < (take_signal c key s g).0 (series g) (signal_node g))
  unfolding take_signal
  taken-above h =
      let t = guard-taken h in
      (
        guard_above t,
        rw (t, same_series_refl (series g), bytes_equal_refl (signal_node g)) (omega arith),
      )

  taken_keeps : (q : Series) (node : List ℕ) → s q node ≤ (take_signal c key s g).0 q node
  unfolding take_signal
  taken_keeps q node = elim (Bool-cases guard) [
    | inl t ↦ rw t (raised q node t)
    | inr t ↦ rw t (omega arith)
  ]

pub seq_book-SeqContract :
    (c : Ed25519) (key : List ℕ) (declaration : FeeDeclaration)
    → SeqContract c (seq_book c key declaration)
seq_book-SeqContract c key declaration = record {
  key = λ s node. key;
  floor = λ s. s;
  signed = signed;
  above = above;
  submit_keeps = keeps;
  poll_keeps = λ s id q node. omega arith;
  decline_keeps = λ s d q node. omega arith;
  report_keeps = λ s r q node. omega arith;
  fees_keeps = λ s q node. omega arith;
}
  where
    book : Coordinator Floors
    book = seq_book c key declaration

    signed :
        (s : Floors) (g : Signal) → (submit book s g).1 ≡ none → signal_verify c key g ≡ some true
    signed s (listing_signal l) = taken-signed c key s (listing_signal l)
    signed s (heartbeat_signal b) = taken-signed c key s (heartbeat_signal b)

    above :
        (s : Floors) (g : Signal)
        → (submit book s g).1 ≡ none
        → (s (series g) (signal_node g) ≤ signal_seq g)
          × (signal_seq g < (submit book s g).0 (series g) (signal_node g))
    above s (listing_signal l) = taken-above c key s (listing_signal l)
    above s (heartbeat_signal b) = taken-above c key s (heartbeat_signal b)

    keeps :
        (s : Floors) (g : Signal) (q : Series) (node : List ℕ)
        → s q node ≤ (submit book s g).0 q node
    keeps s (listing_signal l) = taken_keeps c key s (listing_signal l)
    keeps s (heartbeat_signal b) = taken_keeps c key s (heartbeat_signal b)
