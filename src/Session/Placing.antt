-- ===== src/Session/Placing.antt =====
-- frontend/src/app/App.tsx: where the form of a new node or group starts.
use network_topology_map.Prelude.{
  ℕ, ◌+◌, ◌*◌, ◌/◌, ◌%◌, ◌≤◌, ◌≢◌, ◌⊎◌, Option, none, some, length, arith,
}
use network_topology_map.Types.{Snapshot}
use network_topology_map.Editor.{Point}
use network_topology_map.Canvas.{node_width, node_height}

abbrev pub node_count : {N : Type 0} → Option (Snapshot N) → ℕ
node_count none = 0
node_count (some snapshot) = length snapshot.nodes

abbrev group_count : {N : Type 0} → Option (Snapshot N) → ℕ
group_count none = 0
group_count (some snapshot) = length snapshot.groups

abbrev node_cell : ℕ → Point ℕ
node_cell count = record { x = 120 + (count % 4) * 220; y = 120 + (count / 4) * 150 }

abbrev group_cell : ℕ → Point ℕ
group_cell count = record { x = 90 + (count % 3) * 110; y = 90 + (count / 3) * 90 }

pub default_position : {N : Type 0} → Option (Snapshot N) → Point ℕ
default_position snapshot = node_cell (node_count snapshot)

pub default_group_position : {N : Type 0} → Option (Snapshot N) → Point ℕ
default_group_position snapshot = group_cell (group_count snapshot)

-- The second place is a node's width beside the first, or a node's height below it.
abbrev pub IsClearOf : ℕ → ℕ → ℕ → ℕ → Type 0
IsClearOf x y x' y' =
    (x + node_width ≤ x') ⊎ (x' + node_width ≤ x) ⊎ (y + node_height ≤ y') ⊎ (y' + node_height ≤ y)

cells-IsClearOf :
    (m n : ℕ) → m ≢ n → IsClearOf (node_cell m).x (node_cell m).y (node_cell n).x (node_cell n).y
cells-IsClearOf m n h = omega arith

-- The forms of new nodes, opened on snapshots with different numbers of nodes, start at places that
-- are at least a node's width or height apart.
pub default_position-IsClearOf :
    {N : Type 0} (a b : Option (Snapshot N))
    → node_count a ≢ node_count b
    → let p = default_position a in let q = default_position b in IsClearOf p.x p.y q.x q.y
unfolding default_position
default_position-IsClearOf a b h = cells-IsClearOf (node_count a) (node_count b) h
