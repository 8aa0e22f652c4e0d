-- ===== src/Operator.antt =====
-- `operator/operator.go` and `operator/signer.go`: the operator identity layer.
pub mod Keys
pub mod Signer
pub mod Transmission
pub mod Rotation
pub mod Conformance
pub mod Rules
pub mod Signers
pub mod Duplicate
pub mod Registry
pub mod Rotations
pub mod Install
pub mod History
pub mod GoMap
pub mod Locality
pub mod Recovery
pub mod Replay
pub mod Signing
pub mod Acceptance
pub mod Precedence
pub mod Verdicts
