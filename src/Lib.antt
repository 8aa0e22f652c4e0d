-- ===== src/Lib.antt =====
-- Verification of the substrate coordination protocol: the signed messages that nodes, coordinators
-- and operators of a cloud of contributed machines exchange, how they are encoded, signed and
-- verified, the two-of-seven scheme of operators, and the proof that a node holds a shard.
--
-- The program and its model. Paths are from the repository's root.
--
--   canon/canon.go is under every message. A `Buffer` holds the bytes written so far and the first
--   error; `New`, `Count`, `String`, `Bytes`, `Bool`, `Uint64`, `Int64`, `Time` append to it, `Sum`
--   takes the bytes, `Err` the error, and `VerifySig` checks a signature without a panic. Canon
--   models them as functions from buffer to buffer; Canon/Append, Chain, Extends,
--   Count, Collisions and Signature are about them. Canon/Codec and Canon/Wire are an independent
--   description of the encoding: a codec is an encoder, a decoder and the values it is for.
--   identity/identity.go (`SPIFFEPathForNode`, `BindsTo`) is in Identity, with Identity/Binding; the
--   rotation and the revocation of a node's key (identity/keylife.go) are in Identity/KeyRotation and
--   Identity/KeyRevocation.
--   liveness/liveness.go (Heartbeat) is in Liveness, fees/fees.go (Terms, `Balanced`,
--   FeeDeclaration) in Fees, listing/listing.go (CapabilityListing) in Listing.
--   employment/employment.go is in Employment/Assignment, Decline and JobReport.
--   lease/lease.go is in Lease/StorageLease, LeaseDecline, LeaseRelease and ProofResponse; the
--   challenge and its answer (ProofChallenge, `ProofDigest`, `ProofOverShard`) are in Lease, and
--   Lease/Audit is about answers to several challenges, and Lease/Metering about signed answers.
--   The two-of-seven check of operator/operator.go (`verifyPair`, `verifyAt`, `distinctKeysAt`), with
--   the lengths and the verifier of operator/signer.go, is in Operator/Keys, its three messages in
--   Operator/Transmission, Operator/Rotation and Operator/Conformance, and the signing half of
--   operator/signer.go with its interfaces in Operator/Signer.
--   coordinator/coordinator.go (the interfaces `Coordinator`, `StorageCoordinator` and
--   `KeyLifecycleCoordinator`) is in Coordinator, as records over the state of an implementation. The
--   repository has no implementation, and the comments of the interfaces say what one has to do:
--   Coordinator/SeqContract states that for listings and heartbeats, Coordinator/Trust and
--   Coordinator/KeyContract for the rotation and the revocation of a node's key, whose history is a
--   step relation in Coordinator/Custody, and Coordinator/StorageContract for the proofs of possession
--   that a coordinator meters. The contracts are hypotheses on a coordinator, and Examples/SeqBook,
--   KeyBook and StorageBook fill them.
--   transport/httpjson is in Transport: server.go (`Handler`, `post`, `decode`) in
--   Transport/Server, client.go (`Client`, `postJSON`, `getJSON`, `do`) in Transport/Client. Routes
--   is about the handler alone, Exchange and EndToEnd are about the client over the handler, Replay
--   about a coordinator behind them that keeps SeqContract, Delivery about signed messages on
--   their way, Unmarshalled about an answer that JSON cannot express. A client is a coordinator as
--   well: Relay is about clients behind the handlers of other clients, with Agreement.
--   version.go is in Version.
--
-- Each message module declares the message's record with the fields of the Go struct, its domain
-- tag, `canonical_bytes` (`CanonicalBytes`), `sign` (`Sign`) and `verify` (`Verify`); its Wire child
-- gives the message's field table as a codec, and relates `canonical_bytes` to it. Protocol is the
-- sum of all messages (twelve with one signature, and three of operators with two), with a reader
-- for them; its children are about all messages at once. Under Operator, Signers and Duplicate say
-- what the two-of-seven check asks, Registry and Rotations what a rotation asks, Install what a
-- registry is after it, History and Recovery what it is after a sequence of rotations, GoMap a
-- registry without an order of its entries, Locality the keys that a message depends on, Acceptance,
-- Signing and Replay what the three messages share. Rules is an ordered list of conditions with an
-- error each; Precedence and Verdicts give the list of each operator message. Prelude has the
-- helpers that all parts share; Examples has one use of every result at concrete messages, keys,
-- registries and shards, and in Primitives, CoreVectors and LeaseVectors runs of the encoder on the
-- cases of testdata/vectors.json.
--
-- Go in the model. A string or a byte slice is a list of bytes, an `int` or `int64` an integer with
-- the range of 64 bits stated where it matters, a `uint64` a natural number; conversions and sums
-- wrap as Go's do (Prelude/Int). A panic is `none`, or a constructor of the result's type. An `error`
-- result is a data type with the source's error values. A slice has no capacity beyond its length. A
-- `map[int]KeyRecord` is a list of entries in an order of iteration.
-- `encoding/binary` is in Golang/Binary: `PutUvarint` runs on a fuel of 10, since a `uint64` has
-- at most ten groups of seven bits. `time.Time` is in Golang/Time: nanoseconds since 1970 that may
-- lie outside of int64, the location and the monotonic reading. The zero time, and every other
-- instant that int64 nanoseconds cannot represent, is out of range there as in the source.
-- `crypto/ed25519` and `crypto/sha256` are parameters, in Golang/Ed25519 and Golang/Slice: the sizes
-- of keys, signatures and digests, and that a signature made with a private key verifies under its
-- public key. That forging is hard is not an assumption about all keys. Where a theorem needs it,
-- its hypothesis `Binds` says of one signature and one key that the key accepts it for one byte
-- string only. "Encodable" means that the lengths of strings and lists are below 2^64, that numbers
-- are in the range of their Go types and that instants are in the range of `ValidTime`, which every
-- value that a Go program can build fulfils but for the instants.
--
-- `net/url` is in Golang/Url: `QueryEscape`, and `Get` on a parsed query, one pass over the bytes
-- each. `%d` is in Golang/Decimal, on a fuel of 19, the digits of the largest `int`.
-- `encoding/json`, `url.Parse`, the exchange over the network and what the mux does off its six
-- paths are parameters; a network takes a state and a request to a state and a response or an error,
-- and a client's own one, or `http.DefaultClient`, is one of them. A request and a response have the
-- parts that the code reads; the request's context and headers are left out, and a body arrives
-- whole or not at all.
--
-- Not modelled: anchor/doc.go, which is a comment; the Go tests, among them the audits of the
-- repository's imports and listeners. Replay windows, the bookkeeping of nonces and the storage of
-- registries are the duty of the program that uses the library, and no code of the repository does
-- them.
pub mod Prelude
pub mod Version
pub mod Golang
pub mod Canon
pub mod Identity
pub mod Liveness
pub mod Fees
pub mod Listing
pub mod Employment
pub mod Lease
pub mod Operator
pub mod Protocol
pub mod Coordinator
pub mod Transport
pub mod Examples
