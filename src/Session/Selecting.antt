-- ===== src/Session/Selecting.antt =====
-- frontend/src/app/App.tsx: the handlers that select a record or begin a new one.
use network_topology_map.Prelude.{
  ◌+◌, Bool, true, false, Option, none, some, Text, ltb, length, if◌then◌else◌,
}
use network_topology_map.Types.{NodeRecord, Snapshot}
use network_topology_map.Session.State.{Session}

module _ {N : Type 0} where
  -- `setCenter` moves the canvas, which is not part of the state.
  unfoldable pub select_search_result : NodeRecord N → Session N → Session N
  select_search_result node s = record s {
    selected_node_id = some node.id;
    selected_link_id = none;
    adding_node = false;
    adding_link = false;
    search_focused_node_id = some node.id;
  }

  unfoldable pub begin_adding_node : Session N → Session N
  begin_adding_node s = record s {
    selected_node_id = none;
    selected_link_id = none;
    selected_group_id = none;
    adding_link = false;
    adding_group = false;
    adding_node = true;
    node_draft_revision = s.node_draft_revision + 1;
  }

  unfoldable pub begin_adding_link : Session N → Session N
  begin_adding_link s = record s {
    selected_node_id = none;
    selected_link_id = none;
    selected_group_id = none;
    adding_node = false;
    adding_group = false;
    adding_link = true;
    link_draft_revision = s.link_draft_revision + 1;
  }

  unfoldable pub select_saved_link : Text → Session N → Session N
  select_saved_link link_id s = record s {
    selected_link_id = some link_id;
    selected_node_id = none;
    selected_group_id = none;
    adding_node = false;
    adding_link = false;
    adding_group = false;
  }

  unfoldable pub begin_adding_group : Session N → Session N
  begin_adding_group s = record s {
    selected_node_id = none;
    selected_link_id = none;
    selected_group_id = none;
    adding_node = false;
    adding_link = false;
    adding_group = true;
    group_draft_revision = s.group_draft_revision + 1;
  }

  -- `onNodeClick`, on a group and on a node
  unfoldable pub click_group : Text → Session N → Session N
  click_group id s = record s {
    selected_group_id = some id;
    selected_node_id = none;
    selected_link_id = none;
    adding_group = false;
  }

  unfoldable pub click_node : Text → Session N → Session N
  click_node id s = record s {
    selected_node_id = some id;
    selected_group_id = none;
    adding_node = false;
    selected_link_id = none;
    adding_link = false;
    adding_group = false;
  }

  unfoldable pub click_pane : Session N → Session N
  click_pane s = record s {
    selected_node_id = none;
    selected_link_id = none;
    selected_group_id = none;
    adding_node = false;
    adding_link = false;
    adding_group = false;
  }

  -- `onCancel` of the three inspectors
  unfoldable pub cancel_link : Session N → Session N
  cancel_link s = record s { selected_link_id = none; adding_link = false }

  unfoldable pub cancel_node : Session N → Session N
  cancel_node s = record s { selected_node_id = none; adding_node = false }

  unfoldable pub cancel_group : Session N → Session N
  cancel_group s = record s { selected_group_id = none; adding_group = false }

  abbrev few_nodes : Option (Snapshot N) → Bool
  few_nodes none = true
  few_nodes (some snapshot) = ltb (length snapshot.nodes) 2

  -- The button "Add link", which is disabled on a map of fewer than two nodes.
  unfoldable pub press_add_link : Session N → Session N
  unfolding begin_adding_link
  press_add_link s = if few_nodes s.view.snapshot then s else begin_adding_link s
