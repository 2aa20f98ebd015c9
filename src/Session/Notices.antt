-- ===== src/Session/Notices.antt =====
-- The notice and its timer.
use network_topology_map.Prelude.{ℕ, ◌≡◌, Bool, Option, List, [], ◌∷◌, Text, is_some, arith}
use network_topology_map.Types.{NodeRecord, NodePayload, LinkPayload, GroupPayload, Snapshot}
use network_topology_map.Snapshot.{SnapshotLoadResult}
use network_topology_map.Prelude.Timer.{Owns}
use network_topology_map.Client.Endpoints.{Call}
use network_topology_map.Session.State.{
  Session, LoadOutcome, dismiss_notice, notice_timeout, load_snapshot, snapshot_loaded,
  live_snapshot, live_request, new,
}
use network_topology_map.Session.Selecting.{
  select_search_result, begin_adding_node, press_add_link, select_saved_link, begin_adding_group,
  click_group, click_node, click_pane, cancel_link, cancel_node, cancel_group,
}
use network_topology_map.Session.Saving.{
  saved, save_failed, save_node, node_saved, save_group, group_saved, save_link, link_saved,
  delete_selected_node, delete_selected_group, delete_selected_link, node_deleted, group_deleted,
  link_deleted, change_noticed, on_key_down, connect_nodes, link_connected, connect_failed,
  change_monitor, refresh_monitor_snapshot, persist_group_position, group_moved, group_not_moved,
}
use network_topology_map.Session.Steps.{
  Act, step, run, result_chosen, add_node_pressed, add_link_pressed, add_group_pressed,
  group_clicked, node_clicked, edge_clicked, pane_clicked, link_cancelled, node_cancelled,
  group_cancelled, load_asked, load_answered, live_answered, live_asked, notice_clicked, notice_due,
  node_submitted, node_stored, group_submitted, group_stored, link_submitted, link_stored,
  save_refused, save_over, key_pressed, node_delete_pressed, group_delete_pressed,
  link_delete_pressed, node_gone, group_gone, link_gone, change_done, ends_connected,
  connection_stored, connection_refused, monitor_submitted, monitor_stored, group_dropped,
  group_settled, group_refused,
}

module _ {N : Type 0} where
  pub record IsTimed (s : Session N) : Type 0 where
    pub one_timer : Owns s.notice_timer s.timers.pending
    pub same : is_some s.notice ≡ is_some s.notice_timer

  new-IsTimed : IsTimed new
  new-IsTimed = ground arith

  select_search_result-IsTimed :
      (node : NodeRecord N) (s : Session N) → IsTimed s → IsTimed (select_search_result node s)
  unfolding select_search_result
  select_search_result-IsTimed node s h = ground arith

  begin_adding_node-IsTimed : (s : Session N) → IsTimed s → IsTimed (begin_adding_node s)
  unfolding begin_adding_node
  begin_adding_node-IsTimed s h = ground arith

  press_add_link-IsTimed : (s : Session N) → IsTimed s → IsTimed (press_add_link s)
  unfolding press_add_link
  press_add_link-IsTimed s h = ground arith

  begin_adding_group-IsTimed : (s : Session N) → IsTimed s → IsTimed (begin_adding_group s)
  unfolding begin_adding_group
  begin_adding_group-IsTimed s h = ground arith

  click_group-IsTimed : (id : Text) (s : Session N) → IsTimed s → IsTimed (click_group id s)
  unfolding click_group
  click_group-IsTimed id s h = ground arith

  click_node-IsTimed : (id : Text) (s : Session N) → IsTimed s → IsTimed (click_node id s)
  unfolding click_node
  click_node-IsTimed id s h = ground arith

  select_saved_link-IsTimed :
      (id : Text) (s : Session N) → IsTimed s → IsTimed (select_saved_link id s)
  unfolding select_saved_link
  select_saved_link-IsTimed id s h = ground arith

  click_pane-IsTimed : (s : Session N) → IsTimed s → IsTimed (click_pane s)
  unfolding click_pane
  click_pane-IsTimed s h = ground arith

  cancel_link-IsTimed : (s : Session N) → IsTimed s → IsTimed (cancel_link s)
  unfolding cancel_link
  cancel_link-IsTimed s h = ground arith

  cancel_node-IsTimed : (s : Session N) → IsTimed s → IsTimed (cancel_node s)
  unfolding cancel_node
  cancel_node-IsTimed s h = ground arith

  cancel_group-IsTimed : (s : Session N) → IsTimed s → IsTimed (cancel_group s)
  unfolding cancel_group
  cancel_group-IsTimed s h = ground arith

  load_snapshot-IsTimed : (show : Bool) (s : Session N) → IsTimed s → IsTimed (load_snapshot show s)
  unfolding load_snapshot
  load_snapshot-IsTimed show s h = ground arith

  snapshot_loaded-IsTimed :
      (show : Bool) (outcome : LoadOutcome N) (s : Session N)
      → IsTimed s
      → IsTimed (snapshot_loaded show outcome s)
  unfolding snapshot_loaded
  snapshot_loaded-IsTimed show outcome s h = ground arith

  live_request-IsTimed : (s : Session N) → IsTimed s → IsTimed (live_request s)
  unfolding live_request
  live_request-IsTimed s h = ground arith

  live_snapshot-IsTimed :
      (result : SnapshotLoadResult N) (s : Session N) → IsTimed s → IsTimed (live_snapshot result s)
  unfolding live_snapshot
  live_snapshot-IsTimed result s h = ground arith

  dismiss_notice-IsTimed : (s : Session N) → IsTimed s → IsTimed (dismiss_notice s)
  unfolding dismiss_notice
  dismiss_notice-IsTimed s h = ground arith

  notice_timeout-IsTimed : (t : ℕ) (s : Session N) → IsTimed s → IsTimed (notice_timeout t s)
  unfolding notice_timeout
  notice_timeout-IsTimed t s h = ground arith

  save_node-IsTimed :
      (payload : NodePayload N) (s : Session N) → IsTimed s → IsTimed (save_node payload s)
  unfolding save_node
  save_node-IsTimed payload s h = ground arith

  node_saved-IsTimed :
      (id : Text) (editing : Bool) (s : Session N) → IsTimed s → IsTimed (node_saved id editing s)
  unfolding node_saved
  node_saved-IsTimed id editing s h = ground arith

  save_group-IsTimed :
      (payload : GroupPayload N) (s : Session N) → IsTimed s → IsTimed (save_group payload s)
  unfolding save_group
  save_group-IsTimed payload s h = ground arith

  group_saved-IsTimed :
      (id : Text) (editing : Bool) (s : Session N) → IsTimed s → IsTimed (group_saved id editing s)
  unfolding group_saved
  group_saved-IsTimed id editing s h = ground arith

  save_link-IsTimed :
      (payload : LinkPayload) (s : Session N) → IsTimed s → IsTimed (save_link payload s)
  unfolding save_link
  save_link-IsTimed payload s h = ground arith

  link_saved-IsTimed :
      (id : Text) (editing : Bool) (refreshed : Bool) (s : Session N)
      → IsTimed s
      → IsTimed (link_saved id editing refreshed s)
  unfolding link_saved
  link_saved-IsTimed id editing refreshed s h = ground arith

  save_failed-IsTimed :
      (fallback : Text) (message : Option Text) (s : Session N)
      → IsTimed s
      → IsTimed (save_failed fallback message s)
  save_failed-IsTimed fallback message s h = ground arith

  saved-IsTimed : (s : Session N) → IsTimed s → IsTimed (saved s)
  saved-IsTimed s h = ground arith

  on_key_down-IsTimed :
      (key : Text) (in_form : Bool) (confirmed : Bool) (s : Session N)
      → IsTimed s
      → IsTimed (on_key_down key in_form confirmed s)
  unfolding on_key_down
  on_key_down-IsTimed key in_form confirmed s h = ground arith

  delete_selected_node-IsTimed :
      (confirmed : Bool) (s : Session N) → IsTimed s → IsTimed (delete_selected_node confirmed s)
  unfolding delete_selected_node
  delete_selected_node-IsTimed confirmed s h = ground arith

  delete_selected_group-IsTimed :
      (confirmed : Bool) (s : Session N) → IsTimed s → IsTimed (delete_selected_group confirmed s)
  unfolding delete_selected_group
  delete_selected_group-IsTimed confirmed s h = ground arith

  delete_selected_link-IsTimed :
      (confirmed : Bool) (s : Session N) → IsTimed s → IsTimed (delete_selected_link confirmed s)
  unfolding delete_selected_link
  delete_selected_link-IsTimed confirmed s h = ground arith

  node_deleted-IsTimed : (s : Session N) → IsTimed s → IsTimed (node_deleted s)
  unfolding node_deleted
  node_deleted-IsTimed s h = ground arith

  group_deleted-IsTimed : (s : Session N) → IsTimed s → IsTimed (group_deleted s)
  unfolding group_deleted
  group_deleted-IsTimed s h = ground arith

  link_deleted-IsTimed : (s : Session N) → IsTimed s → IsTimed (link_deleted s)
  unfolding link_deleted
  link_deleted-IsTimed s h = ground arith

  change_noticed-IsTimed :
      (message : Text) (s : Session N) → IsTimed s → IsTimed (change_noticed message s)
  unfolding change_noticed
  change_noticed-IsTimed message s h = ground arith

  connect_nodes-IsTimed :
      (source : Text) (target : Text) (sh : Option Text) (th : Option Text) (s : Session N)
      → IsTimed s
      → IsTimed (connect_nodes source target sh th s)
  unfolding connect_nodes
  connect_nodes-IsTimed source target sh th s h = ground arith

  link_connected-IsTimed :
      (id : Text) (refreshed : Bool) (s : Session N)
      → IsTimed s
      → IsTimed (link_connected id refreshed s)
  unfolding link_connected
  link_connected-IsTimed id refreshed s h = ground arith

  connect_failed-IsTimed :
      (refreshed : Option (Snapshot N)) (source : Text) (target : Text) (message : Option Text)
      (s : Session N)
      → IsTimed s
      → IsTimed (connect_failed refreshed source target message s)
  unfolding connect_failed
  connect_failed-IsTimed refreshed source target message s h = ground arith

  change_monitor-IsTimed :
      (request : Call N) (s : Session N) → IsTimed s → IsTimed (change_monitor request s)
  unfolding change_monitor
  change_monitor-IsTimed request s h = ground arith

  persist_group_position-IsTimed :
      (id : Text) (x y : N) (s : Session N) → IsTimed s → IsTimed (persist_group_position id x y s)
  unfolding persist_group_position
  persist_group_position-IsTimed id x y s h = ground arith

  group_moved-IsTimed : (s : Session N) → IsTimed s → IsTimed (group_moved s)
  unfolding group_moved
  group_moved-IsTimed s h = ground arith

  group_not_moved-IsTimed :
      (message : Option Text) (s : Session N) → IsTimed s → IsTimed (group_not_moved message s)
  unfolding group_not_moved
  group_not_moved-IsTimed message s h = ground arith

  refresh_monitor_snapshot-IsTimed :
      (s : Session N) → IsTimed s → IsTimed (refresh_monitor_snapshot s)
  unfolding refresh_monitor_snapshot
  refresh_monitor_snapshot-IsTimed s h = ground arith

  step-IsTimed : (e : Act N) (s : Session N) → IsTimed s → IsTimed (step e s)
  step-IsTimed (result_chosen node) s h = select_search_result-IsTimed node s h
  step-IsTimed add_node_pressed s h = begin_adding_node-IsTimed s h
  step-IsTimed add_link_pressed s h = press_add_link-IsTimed s h
  step-IsTimed add_group_pressed s h = begin_adding_group-IsTimed s h
  step-IsTimed (group_clicked id) s h = click_group-IsTimed id s h
  step-IsTimed (node_clicked id) s h = click_node-IsTimed id s h
  step-IsTimed (edge_clicked id) s h = select_saved_link-IsTimed id s h
  step-IsTimed pane_clicked s h = click_pane-IsTimed s h
  step-IsTimed link_cancelled s h = cancel_link-IsTimed s h
  step-IsTimed node_cancelled s h = cancel_node-IsTimed s h
  step-IsTimed group_cancelled s h = cancel_group-IsTimed s h
  step-IsTimed (load_asked show) s h = load_snapshot-IsTimed show s h
  step-IsTimed (load_answered show outcome) s h = snapshot_loaded-IsTimed show outcome s h
  step-IsTimed live_asked s h = live_request-IsTimed s h
  step-IsTimed (live_answered result) s h = live_snapshot-IsTimed result s h
  step-IsTimed notice_clicked s h = dismiss_notice-IsTimed s h
  step-IsTimed (notice_due t) s h = notice_timeout-IsTimed t s h
  step-IsTimed (node_submitted payload) s h = save_node-IsTimed payload s h
  step-IsTimed (node_stored id editing) s h = node_saved-IsTimed id editing s h
  step-IsTimed (group_submitted payload) s h = save_group-IsTimed payload s h
  step-IsTimed (group_stored id editing) s h = group_saved-IsTimed id editing s h
  step-IsTimed (link_submitted payload) s h = save_link-IsTimed payload s h
  step-IsTimed (link_stored id editing refreshed) s h = link_saved-IsTimed id editing refreshed s h
  step-IsTimed (save_refused fallback message) s h = save_failed-IsTimed fallback message s h
  step-IsTimed save_over s h = saved-IsTimed s h
  step-IsTimed (key_pressed key in_form confirmed) s h =
      on_key_down-IsTimed key in_form confirmed s h
  step-IsTimed (node_delete_pressed confirmed) s h = delete_selected_node-IsTimed confirmed s h
  step-IsTimed (group_delete_pressed confirmed) s h = delete_selected_group-IsTimed confirmed s h
  step-IsTimed (link_delete_pressed confirmed) s h = delete_selected_link-IsTimed confirmed s h
  step-IsTimed node_gone s h = node_deleted-IsTimed s h
  step-IsTimed group_gone s h = group_deleted-IsTimed s h
  step-IsTimed link_gone s h = link_deleted-IsTimed s h
  step-IsTimed (change_done message) s h = change_noticed-IsTimed message s h
  step-IsTimed (ends_connected source target sh th) s h =
      connect_nodes-IsTimed source target sh th s h
  step-IsTimed (connection_stored id refreshed) s h = link_connected-IsTimed id refreshed s h
  step-IsTimed (connection_refused refreshed source target message) s h =
      connect_failed-IsTimed refreshed source target message s h
  step-IsTimed (monitor_submitted request) s h = change_monitor-IsTimed request s h
  step-IsTimed monitor_stored s h = refresh_monitor_snapshot-IsTimed s h
  step-IsTimed (group_dropped id x y) s h = persist_group_position-IsTimed id x y s h
  step-IsTimed group_settled s h = group_moved-IsTimed s h
  step-IsTimed (group_refused message) s h = group_not_moved-IsTimed message s h

  run_from-IsTimed : (s : Session N) (es : List (Act N)) → IsTimed s → IsTimed (run s es)
  unfolding run
  run_from-IsTimed s [] h = h
  run_from-IsTimed s (e ∷ es) h = run_from-IsTimed (step e s) es (step-IsTimed e s h)

  -- After any steps of a new page, in any order, a notice shows exactly if a timer is pending, which
  -- is the one timer there is, the one whose handle the page holds.
  pub run-IsTimed : (es : List (Act N)) → IsTimed (run new es)
  run-IsTimed es = run_from-IsTimed new es new-IsTimed
