-- ===== src/Session/Dropping.antt =====
-- What a drop does to the records.
use network_topology_map.Prelude.{
  ◌≡◌, refl, ap, sym, ◌∙◌, true, false, Option, some, List, [], ◌∷◌, map, Text, text_eq,
  text_eq_iff, id_eq_iff, any, arith, Bool-cases, inl, inr, if◌then◌else◌,
}
use network_topology_map.Numbers.{Comparison, Arithmetic}
use network_topology_map.Types.{NodeRecord, Snapshot}
use network_topology_map.Editor.{Point, is_at, apply_node_position_changes, finite_point}
use network_topology_map.Editor.Moves.{moved, apply_node_position_changes_lem}
use network_topology_map.Session.State.{Session}
use network_topology_map.Session.Dragging.{
  drop_change, join_group, leaves_group, dropped_nodes, place, persist_position,
}

module _ {N : Type 0} (n : Comparison N) where
  -- The record of a node after the drop of the node `id`: itself, or at the place and in the group.
  abbrev pub dropped_node : Text → Option Text × Point N → NodeRecord N → NodeRecord N
  dropped_node id (group, p) node =
      if text_eq node.id id
      then (if is_at n node p
          then record node { group_id = group }
          else record node { x = p.x; y = p.y; group_id = group })
      else node

  join_moved :
      (id : Text) (group : Option Text) (p : Point N) (node : NodeRecord N)
      → finite_point n p ≡ true
      → join_group n id group (moved n (drop_change n id p) node).0
        ≡ dropped_node id (group, p) node
  join_moved id group p node f = ground (arith, text_eq_iff id node.id, text_eq_iff node.id id)

  join_all :
      (id : Text) (group : Option Text) (p : Point N) (nodes : List (NodeRecord N))
      → finite_point n p ≡ true
      → map (join_group n id group) (map (λ node. (moved n (drop_change n id p) node).0) nodes)
        ≡ map (dropped_node id (group, p)) nodes
  join_all id group p [] f = refl
  join_all id group p (node ∷ nodes) f =
      cc (join_moved id group p node f, join_all id group p nodes f)

  stays :
      (id : Text) (group : Option Text) (p : Point N) (node : NodeRecord N)
      → finite_point n p ≡ true
      → (moved n (drop_change n id p) node).1 ≡ false
      → leaves_group n id group node ≡ false
      → dropped_node id (group, p) node ≡ node
  stays id group p node f still here =
      ground (arith, text_eq_iff id node.id, text_eq_iff node.id id, id_eq_iff node.group_id group)

  all_stay :
      (id : Text) (group : Option Text) (p : Point N) (nodes : List (NodeRecord N))
      → finite_point n p ≡ true
      → any (λ node. (moved n (drop_change n id p) node).1) nodes ≡ false
      → any (leaves_group n id group) nodes ≡ false
      → nodes ≡ map (dropped_node id (group, p)) nodes
  all_stay id group p [] f still here = refl
  all_stay id group p (node ∷ nodes) f still here = cc (
    stays id group p node f (ground arith) (ground arith),
    all_stay id group p nodes f (ground arith) (ground arith),
  )

  dropped_nodes_lem :
      (id : Text) (group : Option Text) (p : Point N) (nodes : List (NodeRecord N))
      → finite_point n p ≡ true
      → dropped_nodes n id (group, p) nodes ≡ map (dropped_node id (group, p)) nodes
  unfolding dropped_nodes
  dropped_nodes_lem id group p nodes f =
      let (same, flag) = apply_node_position_changes_lem n nodes (drop_change n id p) in
      let (updated, changed) = apply_node_position_changes n nodes (drop_change n id p) in
      let joined = ap (map (join_group n id group)) same ∙ join_all id group p nodes f in
      elim (Bool-cases changed) [
        | inl new ↦ rw new joined
        | inr old ↦ elim (Bool-cases (any (leaves_group n id group) nodes)) [
          | inl leaves ↦ rw (old, leaves) joined
          | inr stay ↦ rw (old, stay) (all_stay id group p nodes f (sym flag ∙ old) stay)
        ]
      ]

  abbrev pub with_dropped : Text → Option Text × Point N → Snapshot N → Snapshot N
  with_dropped id dropped snapshot = record snapshot {
    nodes = map (dropped_node id dropped) snapshot.nodes;
  }

  -- A node dropped on a drawn map where `groupDropPosition` finds a finite place: that place and its
  -- group are scheduled for the node, its record is at that place and in that group, and all other
  -- records, and the rest of the map, are as they were.
  pub persist_position_lem :
      (a : Arithmetic N) (s : Session N) (snapshot : Snapshot N) (id : Text) (p : Point N)
      → s.view.snapshot ≡ some snapshot
      → let dropped = place n a (some snapshot) p in
        finite_point n dropped.1 ≡ true
        → ((persist_position n a id p s).1 ≡ (id, dropped.0, dropped.1))
          × ((persist_position n a id p s).0.view.snapshot
              ≡ some (with_dropped id dropped snapshot))
  unfolding persist_position
  persist_position_lem a s snapshot id p shown f =
      let dropped = place n a (some snapshot) p in
      let nodes = dropped_nodes_lem id dropped.0 dropped.1 snapshot.nodes f in
      rw (shown, nodes) (refl, refl)
