-- ===== src/Session/Exclusion.antt =====
-- Which parts of the selection exclude each other.
use network_topology_map.Prelude.{
  ℕ, ◌≡◌, Bool, true, false, Option, none, List, [], ◌∷◌, Text, is_some, arith,
}
use network_topology_map.Types.{NodeRecord, NodePayload, LinkPayload, GroupPayload, Snapshot}
use network_topology_map.Snapshot.{SnapshotLoadResult}
use network_topology_map.Client.Endpoints.{Call}
use network_topology_map.Session.State.{
  Session, LoadOutcome, dismiss_notice, notice_timeout, load_snapshot, snapshot_loaded,
  live_snapshot, live_request, new,
}
use network_topology_map.Session.Selecting.{
  select_search_result, begin_adding_node, press_add_link, select_saved_link, begin_adding_group,
  click_group, click_node, click_pane, cancel_link, cancel_node, cancel_group,
}
use network_topology_map.Session.Saving.{
  saved, save_failed, save_node, node_saved, save_group, group_saved, save_link, link_saved,
  delete_selected_node, delete_selected_group, delete_selected_link, node_deleted, group_deleted,
  link_deleted, change_noticed, on_key_down, connect_nodes, link_connected, connect_failed,
  change_monitor, refresh_monitor_snapshot, persist_group_position, group_moved, group_not_moved,
}
use network_topology_map.Session.Steps.{
  Act, step, run, result_chosen, add_node_pressed, add_link_pressed, add_group_pressed,
  group_clicked, node_clicked, edge_clicked, pane_clicked, link_cancelled, node_cancelled,
  group_cancelled, load_asked, load_answered, live_answered, live_asked, notice_clicked, notice_due,
  node_submitted, node_stored, group_submitted, group_stored, link_submitted, link_stored,
  save_refused, save_over, key_pressed, node_delete_pressed, group_delete_pressed,
  link_delete_pressed, node_gone, group_gone, link_gone, change_done, ends_connected,
  connection_stored, connection_refused, monitor_submitted, monitor_stored, group_dropped,
  group_settled, group_refused,
}

module _ {N : Type 0} where
  pub record IsExclusive (s : Session N) : Type 0 where
    pub one_target : is_some s.selected_node_id ≡ true → s.selected_link_id ≡ none
    pub no_link_form : is_some s.selected_node_id ≡ true → s.adding_link ≡ false
    pub no_node_form : is_some s.selected_node_id ≡ true → s.adding_node ≡ false
    pub no_new_link : is_some s.selected_link_id ≡ true → s.adding_link ≡ false
    pub no_new_group : is_some s.selected_group_id ≡ true → s.adding_group ≡ false
    pub node_or_link : s.adding_node ≡ true → s.adding_link ≡ false
    pub node_or_group : s.adding_node ≡ true → s.adding_group ≡ false
    pub link_or_group : s.adding_link ≡ true → s.adding_group ≡ false

  new-IsExclusive : IsExclusive new
  new-IsExclusive = ground arith

  select_search_result-IsExclusive :
      (node : NodeRecord N) (s : Session N)
      → IsExclusive s
      → IsExclusive (select_search_result node s)
  unfolding select_search_result
  select_search_result-IsExclusive node s h = ground arith

  begin_adding_node-IsExclusive :
      (s : Session N) → IsExclusive s → IsExclusive (begin_adding_node s)
  unfolding begin_adding_node
  begin_adding_node-IsExclusive s h = ground arith

  press_add_link-IsExclusive : (s : Session N) → IsExclusive s → IsExclusive (press_add_link s)
  unfolding press_add_link
  press_add_link-IsExclusive s h = ground arith

  begin_adding_group-IsExclusive :
      (s : Session N) → IsExclusive s → IsExclusive (begin_adding_group s)
  unfolding begin_adding_group
  begin_adding_group-IsExclusive s h = ground arith

  click_group-IsExclusive :
      (id : Text) (s : Session N) → IsExclusive s → IsExclusive (click_group id s)
  unfolding click_group
  click_group-IsExclusive id s h = ground arith

  click_node-IsExclusive :
      (id : Text) (s : Session N) → IsExclusive s → IsExclusive (click_node id s)
  unfolding click_node
  click_node-IsExclusive id s h = ground arith

  select_saved_link-IsExclusive :
      (id : Text) (s : Session N) → IsExclusive s → IsExclusive (select_saved_link id s)
  unfolding select_saved_link
  select_saved_link-IsExclusive id s h = ground arith

  click_pane-IsExclusive : (s : Session N) → IsExclusive s → IsExclusive (click_pane s)
  unfolding click_pane
  click_pane-IsExclusive s h = ground arith

  cancel_link-IsExclusive : (s : Session N) → IsExclusive s → IsExclusive (cancel_link s)
  unfolding cancel_link
  cancel_link-IsExclusive s h = ground arith

  cancel_node-IsExclusive : (s : Session N) → IsExclusive s → IsExclusive (cancel_node s)
  unfolding cancel_node
  cancel_node-IsExclusive s h = ground arith

  cancel_group-IsExclusive : (s : Session N) → IsExclusive s → IsExclusive (cancel_group s)
  unfolding cancel_group
  cancel_group-IsExclusive s h = ground arith

  load_snapshot-IsExclusive :
      (show : Bool) (s : Session N) → IsExclusive s → IsExclusive (load_snapshot show s)
  unfolding load_snapshot
  load_snapshot-IsExclusive show s h = ground arith

  snapshot_loaded-IsExclusive :
      (show : Bool) (outcome : LoadOutcome N) (s : Session N)
      → IsExclusive s
      → IsExclusive (snapshot_loaded show outcome s)
  unfolding snapshot_loaded
  snapshot_loaded-IsExclusive show outcome s h = ground arith

  live_request-IsExclusive : (s : Session N) → IsExclusive s → IsExclusive (live_request s)
  unfolding live_request
  live_request-IsExclusive s h = ground arith

  live_snapshot-IsExclusive :
      (result : SnapshotLoadResult N) (s : Session N)
      → IsExclusive s
      → IsExclusive (live_snapshot result s)
  unfolding live_snapshot
  live_snapshot-IsExclusive result s h = ground arith

  dismiss_notice-IsExclusive : (s : Session N) → IsExclusive s → IsExclusive (dismiss_notice s)
  unfolding dismiss_notice
  dismiss_notice-IsExclusive s h = ground arith

  notice_timeout-IsExclusive :
      (t : ℕ) (s : Session N) → IsExclusive s → IsExclusive (notice_timeout t s)
  unfolding notice_timeout
  notice_timeout-IsExclusive t s h = ground arith

  save_node-IsExclusive :
      (payload : NodePayload N) (s : Session N) → IsExclusive s → IsExclusive (save_node payload s)
  unfolding save_node
  save_node-IsExclusive payload s h = ground arith

  node_saved-IsExclusive :
      (id : Text) (editing : Bool) (s : Session N)
      → IsExclusive s
      → IsExclusive (node_saved id editing s)
  unfolding node_saved
  node_saved-IsExclusive id editing s h = ground arith

  save_group-IsExclusive :
      (payload : GroupPayload N) (s : Session N)
      → IsExclusive s
      → IsExclusive (save_group payload s)
  unfolding save_group
  save_group-IsExclusive payload s h = ground arith

  group_saved-IsExclusive :
      (id : Text) (editing : Bool) (s : Session N)
      → IsExclusive s
      → IsExclusive (group_saved id editing s)
  unfolding group_saved
  group_saved-IsExclusive id editing s h = ground arith

  save_link-IsExclusive :
      (payload : LinkPayload) (s : Session N) → IsExclusive s → IsExclusive (save_link payload s)
  unfolding save_link
  save_link-IsExclusive payload s h = ground arith

  link_saved-IsExclusive :
      (id : Text) (editing : Bool) (refreshed : Bool) (s : Session N)
      → IsExclusive s
      → IsExclusive (link_saved id editing refreshed s)
  unfolding link_saved
  link_saved-IsExclusive id editing refreshed s h = ground arith

  save_failed-IsExclusive :
      (fallback : Text) (message : Option Text) (s : Session N)
      → IsExclusive s
      → IsExclusive (save_failed fallback message s)
  save_failed-IsExclusive fallback message s h = ground arith

  saved-IsExclusive : (s : Session N) → IsExclusive s → IsExclusive (saved s)
  saved-IsExclusive s h = ground arith

  on_key_down-IsExclusive :
      (key : Text) (in_form : Bool) (confirmed : Bool) (s : Session N)
      → IsExclusive s
      → IsExclusive (on_key_down key in_form confirmed s)
  unfolding on_key_down
  on_key_down-IsExclusive key in_form confirmed s h = ground arith

  delete_selected_node-IsExclusive :
      (confirmed : Bool) (s : Session N)
      → IsExclusive s
      → IsExclusive (delete_selected_node confirmed s)
  unfolding delete_selected_node
  delete_selected_node-IsExclusive confirmed s h = ground arith

  delete_selected_group-IsExclusive :
      (confirmed : Bool) (s : Session N)
      → IsExclusive s
      → IsExclusive (delete_selected_group confirmed s)
  unfolding delete_selected_group
  delete_selected_group-IsExclusive confirmed s h = ground arith

  delete_selected_link-IsExclusive :
      (confirmed : Bool) (s : Session N)
      → IsExclusive s
      → IsExclusive (delete_selected_link confirmed s)
  unfolding delete_selected_link
  delete_selected_link-IsExclusive confirmed s h = ground arith

  node_deleted-IsExclusive : (s : Session N) → IsExclusive s → IsExclusive (node_deleted s)
  unfolding node_deleted
  node_deleted-IsExclusive s h = ground arith

  group_deleted-IsExclusive : (s : Session N) → IsExclusive s → IsExclusive (group_deleted s)
  unfolding group_deleted
  group_deleted-IsExclusive s h = ground arith

  link_deleted-IsExclusive : (s : Session N) → IsExclusive s → IsExclusive (link_deleted s)
  unfolding link_deleted
  link_deleted-IsExclusive s h = ground arith

  change_noticed-IsExclusive :
      (message : Text) (s : Session N) → IsExclusive s → IsExclusive (change_noticed message s)
  unfolding change_noticed
  change_noticed-IsExclusive message s h = ground arith

  connect_nodes-IsExclusive :
      (source : Text) (target : Text) (sh : Option Text) (th : Option Text) (s : Session N)
      → IsExclusive s
      → IsExclusive (connect_nodes source target sh th s)
  unfolding connect_nodes
  connect_nodes-IsExclusive source target sh th s h = ground arith

  link_connected-IsExclusive :
      (id : Text) (refreshed : Bool) (s : Session N)
      → IsExclusive s
      → IsExclusive (link_connected id refreshed s)
  unfolding link_connected
  link_connected-IsExclusive id refreshed s h = ground arith

  connect_failed-IsExclusive :
      (refreshed : Option (Snapshot N)) (source : Text) (target : Text) (message : Option Text)
      (s : Session N)
      → IsExclusive s
      → IsExclusive (connect_failed refreshed source target message s)
  unfolding connect_failed
  connect_failed-IsExclusive refreshed source target message s h = ground arith

  change_monitor-IsExclusive :
      (request : Call N) (s : Session N) → IsExclusive s → IsExclusive (change_monitor request s)
  unfolding change_monitor
  change_monitor-IsExclusive request s h = ground arith

  persist_group_position-IsExclusive :
      (id : Text) (x y : N) (s : Session N)
      → IsExclusive s
      → IsExclusive (persist_group_position id x y s)
  unfolding persist_group_position
  persist_group_position-IsExclusive id x y s h = ground arith

  group_moved-IsExclusive : (s : Session N) → IsExclusive s → IsExclusive (group_moved s)
  unfolding group_moved
  group_moved-IsExclusive s h = ground arith

  group_not_moved-IsExclusive :
      (message : Option Text) (s : Session N)
      → IsExclusive s
      → IsExclusive (group_not_moved message s)
  unfolding group_not_moved
  group_not_moved-IsExclusive message s h = ground arith

  refresh_monitor_snapshot-IsExclusive :
      (s : Session N) → IsExclusive s → IsExclusive (refresh_monitor_snapshot s)
  unfolding refresh_monitor_snapshot
  refresh_monitor_snapshot-IsExclusive s h = ground arith

  step-IsExclusive : (e : Act N) (s : Session N) → IsExclusive s → IsExclusive (step e s)
  step-IsExclusive (result_chosen node) s h = select_search_result-IsExclusive node s h
  step-IsExclusive add_node_pressed s h = begin_adding_node-IsExclusive s h
  step-IsExclusive add_link_pressed s h = press_add_link-IsExclusive s h
  step-IsExclusive add_group_pressed s h = begin_adding_group-IsExclusive s h
  step-IsExclusive (group_clicked id) s h = click_group-IsExclusive id s h
  step-IsExclusive (node_clicked id) s h = click_node-IsExclusive id s h
  step-IsExclusive (edge_clicked id) s h = select_saved_link-IsExclusive id s h
  step-IsExclusive pane_clicked s h = click_pane-IsExclusive s h
  step-IsExclusive link_cancelled s h = cancel_link-IsExclusive s h
  step-IsExclusive node_cancelled s h = cancel_node-IsExclusive s h
  step-IsExclusive group_cancelled s h = cancel_group-IsExclusive s h
  step-IsExclusive (load_asked show) s h = load_snapshot-IsExclusive show s h
  step-IsExclusive (load_answered show outcome) s h = snapshot_loaded-IsExclusive show outcome s h
  step-IsExclusive live_asked s h = live_request-IsExclusive s h
  step-IsExclusive (live_answered result) s h = live_snapshot-IsExclusive result s h
  step-IsExclusive notice_clicked s h = dismiss_notice-IsExclusive s h
  step-IsExclusive (notice_due t) s h = notice_timeout-IsExclusive t s h
  step-IsExclusive (node_submitted payload) s h = save_node-IsExclusive payload s h
  step-IsExclusive (node_stored id editing) s h = node_saved-IsExclusive id editing s h
  step-IsExclusive (group_submitted payload) s h = save_group-IsExclusive payload s h
  step-IsExclusive (group_stored id editing) s h = group_saved-IsExclusive id editing s h
  step-IsExclusive (link_submitted payload) s h = save_link-IsExclusive payload s h
  step-IsExclusive (link_stored id editing refreshed) s h =
      link_saved-IsExclusive id editing refreshed s h
  step-IsExclusive (save_refused fallback message) s h =
      save_failed-IsExclusive fallback message s h
  step-IsExclusive save_over s h = saved-IsExclusive s h
  step-IsExclusive (key_pressed key in_form confirmed) s h =
      on_key_down-IsExclusive key in_form confirmed s h
  step-IsExclusive (node_delete_pressed confirmed) s h =
      delete_selected_node-IsExclusive confirmed s h
  step-IsExclusive (group_delete_pressed confirmed) s h =
      delete_selected_group-IsExclusive confirmed s h
  step-IsExclusive (link_delete_pressed confirmed) s h =
      delete_selected_link-IsExclusive confirmed s h
  step-IsExclusive node_gone s h = node_deleted-IsExclusive s h
  step-IsExclusive group_gone s h = group_deleted-IsExclusive s h
  step-IsExclusive link_gone s h = link_deleted-IsExclusive s h
  step-IsExclusive (change_done message) s h = change_noticed-IsExclusive message s h
  step-IsExclusive (ends_connected source target sh th) s h =
      connect_nodes-IsExclusive source target sh th s h
  step-IsExclusive (connection_stored id refreshed) s h =
      link_connected-IsExclusive id refreshed s h
  step-IsExclusive (connection_refused refreshed source target message) s h =
      connect_failed-IsExclusive refreshed source target message s h
  step-IsExclusive (monitor_submitted request) s h = change_monitor-IsExclusive request s h
  step-IsExclusive monitor_stored s h = refresh_monitor_snapshot-IsExclusive s h
  step-IsExclusive (group_dropped id x y) s h = persist_group_position-IsExclusive id x y s h
  step-IsExclusive group_settled s h = group_moved-IsExclusive s h
  step-IsExclusive (group_refused message) s h = group_not_moved-IsExclusive message s h

  run_from-IsExclusive :
      (s : Session N) (es : List (Act N)) → IsExclusive s → IsExclusive (run s es)
  unfolding run
  run_from-IsExclusive s [] h = h
  run_from-IsExclusive s (e ∷ es) h = run_from-IsExclusive (step e s) es (step-IsExclusive e s h)

  -- After any steps of a new page, in any order: a selected node goes with no selected link and with
  -- no form for a new link or node, a selected link with no form for a new link, a selected group
  -- with no form for a new group, and at most one of the three forms is open.
  pub run-IsExclusive : (es : List (Act N)) → IsExclusive (run new es)
  run-IsExclusive es = run_from-IsExclusive new es new-IsExclusive
