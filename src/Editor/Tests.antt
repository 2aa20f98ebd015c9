-- ===== src/Editor/Tests.antt =====
-- Small batches and keys, and the theorems at them.
use network_topology_map.Prelude.{ℕ, ◌≡◌, refl, false, some, List, [], ◌∷◌, Text, codes}
use network_topology_map.Types.{NodeRecord}
use network_topology_map.Sample.{node_at}
use network_topology_map.Editor.{
  NodePositionChange, position_change, other_change, completed_node_position_changes,
}

abbrev nodes : List (NodeRecord ℕ)
nodes = node_at (codes "a") 10 20 ∷ node_at (codes "b") 30 40 ∷ []

abbrev to : Text → ℕ → ℕ → NodePositionChange ℕ
to id x y = record { id = id; position = some (record { x = x; y = y }); dragging = some false }

abbrev batch : List (NodePositionChange ℕ)
batch = to (codes "b") 1 1 ∷ to (codes "a") 10 20 ∷ to (codes "b") 5 6 ∷ []

abbrev revision : ℕ
revision = 12

finished :
    completed_node_position_changes (other_change ∷ position_change (to (codes "b") 5 6) ∷ [])
    ≡ to (codes "b") 5 6 ∷ []
unfolding completed_node_position_changes
finished = refl
