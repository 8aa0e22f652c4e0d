-- ===== src/Identity/Binding.antt =====
-- The canonical binding of a workload identity to a node.
use sohocloud_protocol.Prelude.{
  ℕ, ◌≡◌, ◌↔◌, refl, sym, ◌∙◌, true, false, Option, none, some, List, [], ◌∷◌, ◌++◌, arith, ◌==◌,
  if◌then◌else◌, append_inj,
}
use sohocloud_protocol.Prelude.Bytes.{codes, bytes_equal, bytes_equal_iff}
use sohocloud_protocol.Identity.{NodeId, spiffe_path_for_node, binds_to}

-- A path binds to a node exactly if it is "/node/" and then the node's identifier, byte for byte.
pub binds_to_iff : (path n : List ℕ) → (binds_to path n ≡ true) ↔ (path ≡ codes "/node/" ++ n)
unfolding binds_to spiffe_path_for_node
binds_to_iff path n = bytes_equal_iff path (codes "/node/" ++ n)

-- No SPIFFE path binds to two different node identifiers.
pub binds_to_unique :
    (path n n' : List ℕ) → binds_to path n ≡ true → binds_to path n' ≡ true → n ≡ n'
binds_to_unique path n n' h h' =
    (append_inj (codes "/node/") (codes "/node/") n n' refl
      (sym ((binds_to_iff path n).0 h) ∙ (binds_to_iff path n').0 h')).1

-- A caller without an identity, whose path is empty, binds to no node.
pub binds_to_empty : (n : List ℕ) → binds_to [] n ≡ false
unfolding binds_to spiffe_path_for_node bytes_equal
binds_to_empty n = refl

-- What follows a prefix in a text that starts with it.
abbrev pub behind : List ℕ → List ℕ → Option (List ℕ)
behind [] text = some text
behind (x ∷ prefix) [] = none
behind (x ∷ prefix) (y ∷ text) = let rest = behind prefix text in if x == y then rest else none

-- The node that a path names, read off the path as SPEC.md §2 describes it.
abbrev pub node_of : List ℕ → Option NodeId
node_of path = behind (codes "/node/") path

behind-append : (prefix rest : List ℕ) → behind prefix (prefix ++ rest) ≡ some rest
behind-append [] rest = refl
behind-append (x ∷ prefix) rest = ground (arith, behind-append prefix rest)

behind-some : (prefix text rest : List ℕ) → behind prefix text ≡ some rest → text ≡ prefix ++ rest
behind-some [] text rest h = let same : text ≡ rest = cc in same
behind-some (x ∷ prefix) [] rest h = absurd cc
behind-some (x ∷ prefix) (y ∷ text) rest h =
    let same : (x ≡ y) × (behind prefix text ≡ some rest) = ground arith in
    let tail = behind-some prefix text rest same.1 in rw (same.0, tail) refl

-- `BindsTo` holds for a path and a node exactly if the node is the one that is read off the path: what
-- follows "/node/" at its start, byte for byte. So a path binds to one node at most, and one that
-- does not start so, the empty path of a caller without an identity included, to none.
pub binds_to-node_of : (path n : List ℕ) → (binds_to path n ≡ true) ↔ (node_of path ≡ some n)
binds_to-node_of path n = (
  λ h. let path_eq = (binds_to_iff path n).0 h in rw path_eq (behind-append (codes "/node/") n),
  λ h. (binds_to_iff path n).1 (behind-some (codes "/node/") path n h),
)
