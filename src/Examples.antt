-- ===== src/Examples.antt =====
-- Concrete runs of the model, and the theorems at concrete inputs.
mod Toy
mod Messages
mod Operators
mod Rotations
mod Leases
mod Transport
mod Hex
mod Primitives
mod CoreVectors
mod LeaseVectors
mod SeqBook
mod KeyBook
mod StorageBook
mod Metering
mod Coordinators
mod Replay
mod Relays
mod Delivery
mod Verdicts
mod Histories
