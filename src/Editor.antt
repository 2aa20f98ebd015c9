-- ===== src/Editor.antt =====
-- frontend/src/app/editorState.ts: positions that the canvas reports, merged into records and
-- drafts. `N` is the type of coordinates.
pub mod Moves
pub mod Keys
mod Tests
use network_topology_map.Prelude.{
  ℕ, Bool, true, false, not, ◌&&◌, ◌||◌, Option, none, some, List, [], ◌∷◌, ◌++◌, map, Text, codes,
  text_eq, get_or, is_some, any, if◌then◌else◌,
}
use network_topology_map.Numbers.{Comparison}
use network_topology_map.Types.{NodeRecord, NodePayload}
use network_topology_map.Monitor.Decimal.{to_string}

pub record Point (N : Type 0) : Type 0 where
  pub x : N
  pub y : N

-- A position change of the canvas; either of its last two fields may be absent.
pub record NodePositionChange (N : Type 0) : Type 0 where
  pub id : Text
  pub position : Option (Point N)
  pub dragging : Option Bool

-- React Flow's other changes (selection, dimensions, …) are one constructor.
pub data NodeChange (N : Type 0) : Type 0 where
  position_change : NodePositionChange N → NodeChange N
  other_change : NodeChange N

-- `change.dragging === false`
abbrev is_done : Option Bool → Bool
is_done (some false) = true
is_done _ = false

unfoldable pub completed_node_position_changes :
    {N : Type 0} → List (NodeChange N) → List (NodePositionChange N)
completed_node_position_changes [] = []
completed_node_position_changes (other_change ∷ cs) = completed_node_position_changes cs
completed_node_position_changes (position_change c ∷ cs) =
    if is_done c.dragging
    then c ∷ completed_node_position_changes cs
    else completed_node_position_changes cs

-- JavaScript's Map with texts as keys; the program reads it by `get` and `size` alone.
abbrev pub Table : Type 0 → Type 0
Table V = List (Text × V)

unfoldable pub get : {V : Type 0} → Text → Table V → Option V
get k [] = none
get k ((j, v) ∷ t) = if text_eq j k then some v else get k t

unfoldable pub set : {V : Type 0} → Text → V → Table V → Table V
set k v [] = (k, v) ∷ []
set k v ((j, w) ∷ t) = if text_eq j k then (j, v) ∷ t else (j, w) ∷ set k v t

-- `positions.size === 0`
abbrev pub is_empty_table : {V : Type 0} → Table V → Bool
is_empty_table [] = true
is_empty_table (e ∷ t) = false

module _ {N : Type 0} (n : Comparison N) where
  abbrev pub finite_point : Point N → Bool
  finite_point p = n.finite p.x && n.finite p.y

  -- the loop over the changes, from its test on
  abbrev record_position : Text → Option (Point N) → Table (Point N) → Table (Point N)
  record_position id none t = t
  record_position id (some p) t = if finite_point p then set id p t else t

  pub positions_of : Table (Point N) → List (NodePositionChange N) → Table (Point N)
  positions_of t [] = t
  positions_of t (c ∷ cs) = positions_of (record_position c.id c.position t) cs

  abbrev pub is_at : NodeRecord N → Point N → Bool
  is_at node p = n.same node.x p.x && n.same node.y p.y

  -- the callback of `map`: the node, and whether it set `changed`
  abbrev pub move_to : Option (Point N) → NodeRecord N → NodeRecord N × Bool
  move_to none node = (node, false)
  move_to (some p) node =
      if is_at node p then (node, false) else (record node { x = p.x; y = p.y }, true)

  -- the loop of `map`
  pub move_all : Table (Point N) → List (NodeRecord N) → List (NodeRecord N) × Bool
  move_all t [] = ([], false)
  move_all t (node ∷ nodes) =
      let (moved, changed) = move_to (get node.id t) node in
      let (rest, more) = move_all t nodes in (moved ∷ rest, changed || more)

  -- `return changed ? updated : nodes`
  abbrev pub new_or_old :
      List (NodeRecord N) → List (NodeRecord N) × Bool → List (NodeRecord N) × Bool
  new_or_old nodes (updated, changed) = if changed then (updated, true) else (nodes, false)

  -- from the test of the map's size on
  abbrev pub apply_table : Table (Point N) → List (NodeRecord N) → List (NodeRecord N) × Bool
  apply_table positions nodes =
      if is_empty_table positions
      then (nodes, false)
      else new_or_old nodes (move_all positions nodes)

  -- The records, and whether they are a new array: `false` means that the very array that was
  -- given is returned.
  pub apply_node_position_changes :
      List (NodeRecord N) → List (NodePositionChange N) → List (NodeRecord N) × Bool
  apply_node_position_changes nodes changes = apply_table (positions_of [] changes) nodes

  unfoldable pub merge_external_position : NodePayload N → Point N → NodePayload N
  merge_external_position draft p =
      if n.same draft.x p.x && n.same draft.y p.y then draft else record draft { x = p.x; y = p.y }

-- `${entityId ?? "new"}:${revision}`
unfoldable pub draft_reset_key : Option Text → ℕ → Text
draft_reset_key entity_id revision = get_or entity_id (codes "new") ++ (b':' ∷ to_string revision)
