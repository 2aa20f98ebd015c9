-- ===== src/Canvas/Tests.antt =====
-- A small map, and the theorems at it.
use network_topology_map.Prelude.{
  ℕ, ◌≡◌, ◌⊎◌, refl, false, none, some, List, [], ◌∷◌, map, any, find, Text, codes, split, text_eq,
}
use network_topology_map.Types.{Snapshot, GroupRecord, LinkRecord, LinkKind, local, virtual}
use network_topology_map.Sample.{plane, snapshot_at}
use network_topology_map.Editor.{Point, get, set}
use network_topology_map.Canvas.{
  to_flow_edges, plain_edges, edge_of, nodes_by_id, group_drop_position, holds_center,
  visible_handle, FlowEdge, attachment_key, attachment_counts, nearest_handle,
}
use network_topology_map.Canvas.Edges.{spread, to_flow_edges_lem, HasNoColon}
use network_topology_map.Canvas.Drop.{IsRoomy, LandsIn, group_drop_position_lem}

abbrev rack : GroupRecord ℕ
rack = record {
  id = codes "g";
  map_id = codes "home";
  name = codes "Rack";
  x = 0;
  y = 0;
  width = 600;
  height = 400;
  created_at = [];
  updated_at = [];
}

abbrev link : Text → LinkKind → LinkRecord
link id kind = record {
  id = id;
  map_id = codes "home";
  source_node_id = codes "a";
  target_node_id = codes "b";
  kind = kind;
  source_handle = none;
  target_handle = some (codes "left-target");
  created_at = [];
}

abbrev links : List LinkRecord
links = link (codes "l1") local ∷ link (codes "l2") virtual ∷ []

abbrev drawn : Snapshot ℕ
drawn = record (snapshot_at 1) { links = links; groups = rack ∷ [] }

abbrev offsets : List FlowEdge → List ℕ
offsets [] = []
offsets (e ∷ es) = e.parallel_offset ∷ offsets es

apart : offsets (to_flow_edges plane drawn none) ≡ 0 ∷ 28 ∷ []
unfolding to_flow_edges edge_of attachment_counts attachment_key get set visible_handle
    nearest_handle split text_eq
apart = refl

abbrev edge : FlowEdge
edge = edge_of plane (nodes_by_id plane drawn.nodes) none (link (codes "l1") local)

to_flow_edges_lem_example :
    let edges = plain_edges plane drawn none in
    to_flow_edges plane drawn none
    ≡ map
        (λ (l : LinkRecord).
          spread plane edges l (edge_of plane (nodes_by_id plane drawn.nodes) none l))
        links
to_flow_edges_lem_example = to_flow_edges_lem plane drawn none

no_colon_a : HasNoColon edge.source
unfolding edge_of
no_colon_a = refl

no_colon_b : HasNoColon edge.target
unfolding edge_of
no_colon_b = refl

rack-IsRoomy : IsRoomy plane rack
rack-IsRoomy = record {
  left_finite = refl;
  right_finite = refl;
  top_finite = refl;
  bottom_finite = refl;
  wide = refl;
  high = refl;
}

abbrev spot : Point ℕ
spot = record { x = 500; y = 10 }

group_drop_position_lem_example :
    ((any (holds_center plane spot) (rack ∷ []) ≡ false)
      × (group_drop_position plane (rack ∷ []) spot ≡ (none, spot)))
    ⊎ ((group : GroupRecord ℕ) × (find (holds_center plane spot) (rack ∷ []) ≡ some group)
        × LandsIn plane spot (group_drop_position plane (rack ∷ []) spot) group)
group_drop_position_lem_example =
    group_drop_position_lem plane (rack ∷ []) spot refl refl (rack-IsRoomy, tt)

abbrev same_case : Text → Text
same_case t = t
