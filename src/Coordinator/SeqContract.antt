-- ===== src/Coordinator/SeqContract.antt =====
-- What `Coordinator` promises of listings and heartbeats: the node's signature is verified, and a Seq
-- that is not above the last one seen for that node is rejected.
use sohocloud_protocol.Prelude.{ℕ, ◌≡◌, ◌≤◌, ◌<◌, Option, none, some, Bool, true, List}
use sohocloud_protocol.Golang.Ed25519.{Ed25519}
use sohocloud_protocol.Listing
use sohocloud_protocol.Listing.{CapabilityListing}
use sohocloud_protocol.Liveness
use sohocloud_protocol.Liveness.{Heartbeat}
use sohocloud_protocol.Employment.Decline.{Decline}
use sohocloud_protocol.Employment.JobReport.{JobReport}
use sohocloud_protocol.Coordinator.{Coordinator, Error}

pub data Series : Type 0 where
  listings heartbeats : Series

-- The two messages of a node that carry a Seq.
pub data Signal : Type 0 where
  listing_signal : CapabilityListing → Signal
  heartbeat_signal : Heartbeat → Signal

abbrev pub series : Signal → Series
series (listing_signal _) = listings
series (heartbeat_signal _) = heartbeats

abbrev pub signal_node : Signal → List ℕ
signal_node (listing_signal l) = l.node_id
signal_node (heartbeat_signal h) = h.node_id

abbrev pub signal_seq : Signal → ℕ
signal_seq (listing_signal l) = l.seq
signal_seq (heartbeat_signal h) = h.seq

abbrev pub signal_verify : Ed25519 → List ℕ → Signal → Option Bool
signal_verify c key (listing_signal l) = Listing.verify c key l
signal_verify c key (heartbeat_signal h) = Liveness.verify c key h

abbrev pub submit : {S : Type 0} → Coordinator S → S → Signal → S × Option Error
submit k s (listing_signal l) = k.submit_listing s l
submit k s (heartbeat_signal h) = k.heartbeat s h

module _ {S : Type 0} (c : Ed25519) (k : Coordinator S) where
  -- The state holds the node's key and, for each series of a node, the least Seq that is still above
  -- all that were seen. No operation lowers it.
  pub record SeqContract : Type 0 where
    pub key : S → List ℕ → List ℕ
    pub floor : S → Series → List ℕ → ℕ
    pub signed :
        (s : S) (g : Signal)
        → (submit k s g).1 ≡ none
        → signal_verify c (key s (signal_node g)) g ≡ some true
    pub above :
        (s : S) (g : Signal)
        → (submit k s g).1 ≡ none
        → (floor s (series g) (signal_node g) ≤ signal_seq g)
          × (signal_seq g < floor (submit k s g).0 (series g) (signal_node g))
    pub submit_keeps :
        (s : S) (g : Signal) (q : Series) (node : List ℕ)
        → floor s q node ≤ floor (submit k s g).0 q node
    pub poll_keeps :
        (s : S) (id : List ℕ) (q : Series) (node : List ℕ)
        → floor s q node ≤ floor (k.poll_jobs s id).0 q node
    pub decline_keeps :
        (s : S) (d : Decline) (q : Series) (node : List ℕ)
        → floor s q node ≤ floor (k.decline s d).0 q node
    pub report_keeps :
        (s : S) (r : JobReport) (q : Series) (node : List ℕ)
        → floor s q node ≤ floor (k.report_job s r).0 q node
    pub fees_keeps :
        (s : S) (q : Series) (node : List ℕ) → floor s q node ≤ floor (k.fees s).0 q node
