-- ===== src/Canvas/Search.antt =====
-- What the search shows.
use network_topology_map.Prelude.{
  ◌≡◌, refl, ◌∙◌, Bool, true, false, not, ◌&&◌, Option, List, [], ◌∷◌, ◌++◌, map, Text, every, keep,
  is_empty, trim, arith, if◌then◌else◌, Bool-cases, inl, inr,
}
use network_topology_map.Types.{Snapshot, NodeRecord, GroupRecord, Status}
use network_topology_map.Editor.{Table}
use network_topology_map.Canvas.{
  FlowNode, topology, topology_group, flow_group, flow_topology, status_by_node, to_flow_nodes,
  search_results, is_dimmed, shows_no_match, normalize_search_query, matches_search_query,
}

abbrev pub is_none : {A : Type 0} → List A → Bool
is_none [] = true
is_none (x ∷ xs) = false

module _ {N : Type 0} (lower : Text → Text) where
  -- the records of the nodes that are not dimmed
  abbrev pub bright : List (FlowNode N) → List (NodeRecord N)
  bright [] = []
  bright (topology_group g ∷ ns) = bright ns
  bright (topology n ∷ ns) = if n.dimmed then bright ns else n.node ∷ bright ns

  bright_groups :
      (groups : List (GroupRecord N)) (ns : List (FlowNode N))
      → bright (map (λ (group : GroupRecord N). topology_group (flow_group group)) groups ++ ns)
        ≡ bright ns
  bright_groups [] ns = refl
  bright_groups (g ∷ groups) ns = bright_groups groups ns

  bright_nodes :
      (statuses : Table Status) (query : Text) (highlighted : Option Text)
      (nodes : List (NodeRecord N))
      → is_empty query ≡ false
      → bright (
          map
            (λ (node : NodeRecord N).
              topology (flow_topology lower statuses query highlighted node))
            nodes)
        ≡ keep (λ node. matches_search_query lower node query) nodes
  bright_nodes statuses query highlighted [] h = refl
  bright_nodes statuses query highlighted (node ∷ nodes) h =
      ground (arith, bright_nodes statuses query highlighted nodes h)

  -- With a query, the nodes that the canvas does not dim are the search results, in their order.
  pub to_flow_nodes-search_results :
      (snapshot : Snapshot N) (query : Text) (highlighted : Option Text)
      → is_empty query ≡ false
      → bright (to_flow_nodes lower snapshot query highlighted)
        ≡ search_results lower snapshot query
  unfolding to_flow_nodes search_results
  to_flow_nodes-search_results snapshot query highlighted h =
      rw
        (
          bright_groups,
          bright_nodes (status_by_node snapshot.statuses) query highlighted snapshot.nodes h,
          h,
        )
        refl

  all_dimmed :
      (statuses : Table Status) (query : Text) (highlighted : Option Text)
      (nodes : List (NodeRecord N))
      → is_empty query ≡ false
      → every is_dimmed (
          map
            (λ (node : NodeRecord N).
              topology (flow_topology lower statuses query highlighted node))
            nodes)
        ≡ is_none (keep (λ node. matches_search_query lower node query) nodes)
  all_dimmed statuses query highlighted [] h = refl
  all_dimmed statuses query highlighted (node ∷ nodes) h =
      ground (arith, all_dimmed statuses query highlighted nodes h)

  groups_bright :
      (groups : List (GroupRecord N)) (ns : List (FlowNode N))
      → every is_dimmed
          (map (λ (group : GroupRecord N). topology_group (flow_group group)) groups ++ ns)
        ≡ (is_none groups && every is_dimmed ns)
  groups_bright [] ns = refl
  groups_bright (g ∷ groups) ns = refl

  -- Where lower case leaves no text empty that was not, "No matching nodes" shows exactly if there is
  -- a query, the search has no result, and the map has no group.
  pub shows_no_match_lem :
      (snapshot : Snapshot N) (query : Text) (highlighted : Option Text)
      → ((t : Text) → is_empty (lower t) ≡ is_empty t)
      → shows_no_match lower snapshot query highlighted ≡ (
          not (is_empty (trim query))
          && is_none (search_results lower snapshot (normalize_search_query lower query))
          && is_none snapshot.groups)
  unfolding shows_no_match to_flow_nodes search_results normalize_search_query
  shows_no_match_lem snapshot query highlighted law =
      let t = lower (trim query) in
      elim (Bool-cases (is_empty (trim query))) [
        | inl blank ↦ rw blank refl
        | inr text ↦
            let filled = law (trim query) ∙ text in
            ground (
              arith,
              groups_bright snapshot.groups (
                  map
                    (λ (node : NodeRecord N).
                      topology
                        (flow_topology lower (status_by_node snapshot.statuses) t highlighted node))
                    snapshot.nodes),
              all_dimmed (status_by_node snapshot.statuses) t highlighted snapshot.nodes filled,
            )
      ]
