-- ===== src/Identity.antt =====
-- `identity/identity.go`: a node's identifier and the canonical binding of a workload identity to
-- it. The children model `identity/keylife.go`.
pub mod Binding
pub mod KeyRotation
pub mod KeyRevocation
use sohocloud_protocol.Prelude.{ℕ, Bool, List, ◌++◌}
use sohocloud_protocol.Prelude.Bytes.{codes, bytes_equal}

abbrev pub NodeId : Type 0
NodeId = List ℕ

unfoldable pub spiffe_path_for_node : NodeId → List ℕ
spiffe_path_for_node n = codes "/node/" ++ n

unfoldable pub binds_to : List ℕ → NodeId → Bool
binds_to spiffe_path n = bytes_equal spiffe_path (spiffe_path_for_node n)
