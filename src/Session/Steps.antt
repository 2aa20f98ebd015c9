-- ===== src/Session/Steps.antt =====
-- frontend/src/app/App.tsx: what may happen to the page, in any order. The steps that continue a
-- handler carry what the handler closed over; any of them may come at any time.
use network_topology_map.Prelude.{ℕ, Bool, Option, List, [], ◌∷◌, Text}
use network_topology_map.Types.{NodeRecord, NodePayload, LinkPayload, GroupPayload, Snapshot}
use network_topology_map.Snapshot.{SnapshotLoadResult}
use network_topology_map.Client.Endpoints.{Call}
use network_topology_map.Session.State.{
  Session, LoadOutcome, dismiss_notice, notice_timeout, load_snapshot, snapshot_loaded,
  live_snapshot, live_request,
}
use network_topology_map.Session.Selecting.{
  select_search_result, begin_adding_node, press_add_link, select_saved_link, begin_adding_group,
  click_group, click_node, click_pane, cancel_link, cancel_node, cancel_group,
}
use network_topology_map.Session.Saving.{
  saved, save_failed, save_node, node_saved, save_group, group_saved, save_link, link_saved,
  delete_selected_node, delete_selected_group, delete_selected_link, node_deleted, group_deleted,
  link_deleted, change_noticed, on_key_down, connect_nodes, link_connected, connect_failed,
  change_monitor, refresh_monitor_snapshot, persist_group_position, group_moved, group_not_moved,
}

pub data Act (N : Type 0) : Type 0 where
  -- selection
  result_chosen : NodeRecord N → Act N
  add_node_pressed : Act N
  add_link_pressed : Act N
  add_group_pressed : Act N
  group_clicked : Text → Act N
  node_clicked : Text → Act N
  edge_clicked : Text → Act N
  pane_clicked : Act N
  link_cancelled : Act N
  node_cancelled : Act N
  group_cancelled : Act N
  -- loading and notices
  load_asked : Bool → Act N
  load_answered : Bool → LoadOutcome N → Act N
  live_asked : Act N
  live_answered : SnapshotLoadResult N → Act N
  notice_clicked : Act N
  notice_due : ℕ → Act N
  -- saving
  node_submitted : NodePayload N → Act N
  node_stored : Text → Bool → Act N
  group_submitted : GroupPayload N → Act N
  group_stored : Text → Bool → Act N
  link_submitted : LinkPayload → Act N
  link_stored : Text → Bool → Bool → Act N
  save_refused : Text → Option Text → Act N
  save_over : Act N
  -- deleting
  key_pressed : Text → Bool → Bool → Act N
  node_delete_pressed : Bool → Act N
  group_delete_pressed : Bool → Act N
  link_delete_pressed : Bool → Act N
  node_gone : Act N
  group_gone : Act N
  link_gone : Act N
  change_done : Text → Act N
  -- connecting and monitors
  ends_connected : Text → Text → Option Text → Option Text → Act N
  connection_stored : Text → Bool → Act N
  connection_refused : Option (Snapshot N) → Text → Text → Option Text → Act N
  monitor_submitted : Call N → Act N
  monitor_stored : Act N
  -- a group is dropped
  group_dropped : Text → N → N → Act N
  group_settled : Act N
  group_refused : Option Text → Act N

module _ {N : Type 0} where
  abbrev pub step : Act N → Session N → Session N
  step (result_chosen node) s = select_search_result node s
  step add_node_pressed s = begin_adding_node s
  step add_link_pressed s = press_add_link s
  step add_group_pressed s = begin_adding_group s
  step (group_clicked id) s = click_group id s
  step (node_clicked id) s = click_node id s
  step (edge_clicked id) s = select_saved_link id s
  step pane_clicked s = click_pane s
  step link_cancelled s = cancel_link s
  step node_cancelled s = cancel_node s
  step group_cancelled s = cancel_group s
  step (load_asked show) s = load_snapshot show s
  step (load_answered show outcome) s = snapshot_loaded show outcome s
  step live_asked s = live_request s
  step (live_answered result) s = live_snapshot result s
  step notice_clicked s = dismiss_notice s
  step (notice_due t) s = notice_timeout t s
  step (node_submitted payload) s = save_node payload s
  step (node_stored id editing) s = node_saved id editing s
  step (group_submitted payload) s = save_group payload s
  step (group_stored id editing) s = group_saved id editing s
  step (link_submitted payload) s = save_link payload s
  step (link_stored id editing refreshed) s = link_saved id editing refreshed s
  step (save_refused fallback message) s = save_failed fallback message s
  step save_over s = saved s
  step (key_pressed key in_form confirmed) s = on_key_down key in_form confirmed s
  step (node_delete_pressed confirmed) s = delete_selected_node confirmed s
  step (group_delete_pressed confirmed) s = delete_selected_group confirmed s
  step (link_delete_pressed confirmed) s = delete_selected_link confirmed s
  step node_gone s = node_deleted s
  step group_gone s = group_deleted s
  step link_gone s = link_deleted s
  step (change_done message) s = change_noticed message s
  step (ends_connected source target sh th) s = connect_nodes source target sh th s
  step (connection_stored id refreshed) s = link_connected id refreshed s
  step (connection_refused refreshed source target message) s =
      connect_failed refreshed source target message s
  step (monitor_submitted request) s = change_monitor request s
  step monitor_stored s = refresh_monitor_snapshot s
  step (group_dropped id x y) s = persist_group_position id x y s
  step group_settled s = group_moved s
  step (group_refused message) s = group_not_moved message s

  unfoldable pub run : Session N → List (Act N) → Session N
  run s [] = s
  run s (e ∷ es) = run (step e s) es
