-- ===== src/Session/Dragging.antt =====
-- frontend/src/app/App.tsx: what the canvas reports of dragged nodes (onNodesChange, persistPosition).
use network_topology_map.Prelude.{
  Bool, false, not, ◌&&◌, Option, none, some, List, [], ◌∷◌, map, Text, text_eq, id_eq, any,
  if◌then◌else◌,
}
use network_topology_map.Numbers.{Comparison, Arithmetic}
use network_topology_map.Types.{NodeRecord, Snapshot}
use network_topology_map.Editor.{
  Point, NodePositionChange, NodeChange, completed_node_position_changes,
  apply_node_position_changes,
}
use network_topology_map.Canvas.{group_drop_position}
use network_topology_map.Session.State.{Session}

module _ {N : Type 0} (n : Comparison N) where
  abbrev with_snapshot : (Snapshot N → Snapshot N) → Session N → Session N
  with_snapshot f s = elim s.view.snapshot [
    | none ↦ s
    | some snapshot ↦ record s { view = record s.view { snapshot = some (f snapshot) } }
  ]

  abbrev with_nodes : Snapshot N → List (NodeRecord N) × Bool → Snapshot N
  with_nodes snapshot (nodes, changed) =
      if changed then record snapshot { nodes = nodes } else snapshot

  abbrev commit : List (NodePositionChange N) → Session N → Session N
  commit [] s = s
  commit (c ∷ cs) s =
      with_snapshot
        (λ snapshot. with_nodes snapshot (apply_node_position_changes n snapshot.nodes (c ∷ cs))) s

  unfoldable pub on_nodes_change : List (NodeChange N) → Session N → Session N
  on_nodes_change changes s = commit (completed_node_position_changes changes) s

  abbrev pub drop_change : Text → Point N → List (NodePositionChange N)
  drop_change id position = record { id = id; position = some position; dragging = some false } ∷ []

  -- the callback of the last `map`: the node joins the group that it was dropped in
  abbrev pub join_group : Text → Option Text → NodeRecord N → NodeRecord N
  join_group id group node = if text_eq node.id id then record node { group_id = group } else node

  abbrev pub leaves_group : Text → Option Text → NodeRecord N → Bool
  leaves_group id group node = text_eq node.id id && not (id_eq node.group_id group)

  abbrev pub drop_result :
      Text → Option Text → List (NodeRecord N) → List (NodeRecord N) × Bool → List (NodeRecord N)
  drop_result id group old (nodes, changed) =
      if not changed && not (any (leaves_group id group) old)
      then old
      else map (join_group id group) nodes

  -- The nodes after the update of the snapshot, for the place that `groupDropPosition` gave.
  unfoldable pub dropped_nodes :
      Text → Option Text × Point N → List (NodeRecord N) → List (NodeRecord N)
  dropped_nodes id (group, position) nodes =
      drop_result id group nodes (apply_node_position_changes n nodes (drop_change id position))

  module _ (a : Arithmetic N) where
    abbrev pub place : Option (Snapshot N) → Point N → Option Text × Point N
    place none position = (none, position)
    place (some snapshot) position = group_drop_position a snapshot.groups position

    -- `persistPosition` for a node; with the state, the place that is scheduled for the node
    unfoldable pub persist_position :
        Text → Point N → Session N → Session N × (Text × Option Text × Point N)
    unfolding dropped_nodes
    persist_position id position s =
        let dropped = place s.view.snapshot position in
        (
          with_snapshot
              (λ snapshot. record snapshot { nodes = dropped_nodes id dropped snapshot.nodes })
              (record s { error = none }),
          (id, dropped.0, dropped.1),
        )
