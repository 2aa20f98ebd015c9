-- ===== src/Session/Saving.antt =====
-- frontend/src/app/App.tsx: the handlers that save, delete and connect. A handler that awaits is
-- several steps: the part that runs at once, and a part for each answer it waits for, which takes
-- what the handler closed over. Between two parts other steps may run.
use network_topology_map.Prelude.{
  ◌+◌, Bool, true, false, not, ◌||◌, Option, none, some, Text, codes, text_eq, is_empty,
  if◌then◌else◌,
}
use network_topology_map.Types.{
  NodeRecord, NodePayload, LinkRecord, LinkPayload, local, GroupRecord, GroupPayload, Snapshot,
}
use network_topology_map.Canvas.{matching_link}
use network_topology_map.Client.Endpoints.{
  Call, create_node, patch_node, delete_node, create_group, patch_group, delete_group, create_link,
  patch_link, delete_link, patch_group_position,
}
use network_topology_map.Session.State.{
  Session, send, show_notice, fail, load_snapshot, selected_node, selected_link, selected_group,
}
use network_topology_map.Session.Selecting.{select_saved_link}

abbrev pub not_refreshed : Text
not_refreshed = codes "The link was saved, but the map could not refresh. Reload to see or edit it."

-- `Boolean(id)`
abbrev pub is_id : Option Text → Bool
is_id none = false
is_id (some id) = not (is_empty id)

abbrev pub already_exists : Text
already_exists = codes "This link already exists — selected it for editing"

abbrev link_between : Text → Text → Option Text → Option Text → LinkPayload
link_between source target source_handle target_handle = record {
  source_node_id = source;
  target_node_id = target;
  kind = local;
  source_handle = source_handle;
  target_handle = target_handle;
}

module _ {N : Type 0} where
  abbrev begin_saving : Session N → Session N
  begin_saving s = record s { saving = true; error = none }

  -- the `finally` of every handler
  abbrev pub saved : Session N → Session N
  saved s = record s { saving = false }

  -- the `catch` of a handler, and its `finally`
  abbrev pub save_failed : Text → Option Text → Session N → Session N
  save_failed fallback message s = saved (fail fallback message s)

  abbrev node_request : Snapshot N → NodePayload N → Option (NodeRecord N) → Call N
  node_request snapshot payload none = create_node snapshot.map.id payload
  node_request snapshot payload (some node) = patch_node node.id payload

  abbrev save_node_on : Option (Snapshot N) → NodePayload N → Session N → Session N
  save_node_on none payload s = s
  save_node_on (some snapshot) payload s =
      send (node_request snapshot payload (selected_node s)) (begin_saving s)

  unfoldable pub save_node : NodePayload N → Session N → Session N
  save_node payload s = save_node_on s.view.snapshot payload s

  -- `saveNode` after the snapshot has been loaded; `editing` is `editingExistingNode`
  unfoldable pub node_saved : Text → Bool → Session N → Session N
  unfolding show_notice
  node_saved id editing s = saved (
      show_notice (if editing then codes "Node saved" else codes "Node created") (record s {
        selected_node_id = some id;
        selected_link_id = none;
        adding_node = false;
        adding_link = false;
        node_draft_revision = s.node_draft_revision + 1;
      }))

  abbrev group_request : Snapshot N → GroupPayload N → Option (GroupRecord N) → Call N
  group_request snapshot payload none = create_group snapshot.map.id payload
  group_request snapshot payload (some group) = patch_group group.id payload

  abbrev save_group_on : Option (Snapshot N) → GroupPayload N → Session N → Session N
  save_group_on none payload s = s
  save_group_on (some snapshot) payload s =
      send (group_request snapshot payload (selected_group s)) (begin_saving s)

  unfoldable pub save_group : GroupPayload N → Session N → Session N
  save_group payload s = save_group_on s.view.snapshot payload s

  unfoldable pub group_saved : Text → Bool → Session N → Session N
  unfolding show_notice
  group_saved id editing s = saved (
      show_notice (if editing then codes "Group saved" else codes "Group created") (record s {
        selected_group_id = some id;
        selected_node_id = none;
        selected_link_id = none;
        adding_group = false;
        group_draft_revision = s.group_draft_revision + 1;
      }))

  abbrev link_request : Snapshot N → LinkPayload → Option LinkRecord → Call N
  link_request snapshot payload none = create_link snapshot.map.id payload
  link_request snapshot payload (some link) = patch_link link.id payload.kind

  abbrev save_link_on : Option (Snapshot N) → LinkPayload → Session N → Session N
  save_link_on none payload s = s
  save_link_on (some snapshot) payload s =
      send (link_request snapshot payload (selected_link s)) (begin_saving s)

  unfoldable pub save_link : LinkPayload → Session N → Session N
  save_link payload s = save_link_on s.view.snapshot payload s

  abbrev link_notice : Bool → Text → Session N → Session N
  link_notice refreshed message s =
      if refreshed then show_notice message s else record s { error = some not_refreshed }

  -- `refreshed` says whether the load returned a snapshot
  unfoldable pub link_saved : Text → Bool → Bool → Session N → Session N
  unfolding show_notice
  link_saved id editing refreshed s = saved (
      link_notice refreshed (if editing then codes "Link saved" else codes "Link created")
        (record s {
          selected_link_id = some id;
          selected_node_id = none;
          adding_link = false;
          link_draft_revision = s.link_draft_revision + 1;
        }))

  -- The three handlers that delete; `confirmed` is the answer to the question.
  unfoldable pub delete_selected_node : Bool → Session N → Session N
  delete_selected_node confirmed s = elim (selected_node s) [
    | none ↦ s
    | some node ↦ if confirmed then send (delete_node node.id) (record s { saving = true }) else s
  ]

  unfoldable pub delete_selected_group : Bool → Session N → Session N
  delete_selected_group confirmed s = elim (selected_group s) [
    | none ↦ s
    | some group ↦
        if confirmed then send (delete_group group.id) (record s { saving = true }) else s
  ]

  unfoldable pub delete_selected_link : Bool → Session N → Session N
  delete_selected_link confirmed s = elim (selected_link s) [
    | none ↦ s
    | some link ↦ if confirmed then send (delete_link link.id) (begin_saving s) else s
  ]

  -- The deletion is answered: the selection goes, and the snapshot is loaded.
  unfoldable pub node_deleted : Session N → Session N
  unfolding load_snapshot
  node_deleted s =
      load_snapshot true (record s { selected_node_id = none; selected_link_id = none })

  unfoldable pub group_deleted : Session N → Session N
  unfolding load_snapshot
  group_deleted s = load_snapshot true (record s { selected_group_id = none })

  unfoldable pub link_deleted : Session N → Session N
  unfolding load_snapshot
  link_deleted s = load_snapshot true (record s { selected_link_id = none })

  -- The last part of a deletion or of a change of a monitor.
  unfoldable pub change_noticed : Text → Session N → Session N
  unfolding show_notice
  change_noticed message s = saved (show_notice message s)

  -- `onKeyDown`: the key, whether it was typed into a form, and the answer to the question
  unfoldable pub on_key_down : Text → Bool → Bool → Session N → Session N
  unfolding delete_selected_node delete_selected_link
  on_key_down key in_form confirmed s =
      if not (text_eq key (codes "Delete")) || s.saving || in_form
      then s
      else if is_id s.selected_node_id
      then delete_selected_node confirmed s
      else if is_id s.selected_link_id
      then delete_selected_link confirmed s
      else s

  abbrev select_existing : LinkRecord → Session N → Session N
  select_existing link s = show_notice already_exists (select_saved_link link.id s)

  abbrev connect_on :
      Option (Snapshot N) → Text → Text → Option Text → Option Text → Session N → Session N
  connect_on none source target source_handle target_handle s = s
  connect_on (some snapshot) source target source_handle target_handle s =
      if is_empty source || is_empty target || text_eq source target
      then s
      else elim (matching_link snapshot.links source target local) [
        | some link ↦ select_existing link s
        | none ↦
            send
              (create_link snapshot.map.id (link_between source target source_handle target_handle))
              (begin_saving s)
      ]

  -- `connectNodes`; an end that is missing is the empty text
  unfoldable pub connect_nodes : Text → Text → Option Text → Option Text → Session N → Session N
  unfolding show_notice select_saved_link
  connect_nodes source target source_handle target_handle s =
      connect_on s.view.snapshot source target source_handle target_handle s

  -- its `then`, after the load
  unfoldable pub link_connected : Text → Bool → Session N → Session N
  unfolding show_notice select_saved_link
  link_connected id refreshed s =
      saved (link_notice refreshed (codes "Link created") (select_saved_link id s))

  -- its `catch`, after the load that a duplicate asks for (`none`: no duplicate, or not refreshed)
  abbrev duplicate_in : Option (Snapshot N) → Text → Text → Option LinkRecord
  duplicate_in none source target = none
  duplicate_in (some snapshot) source target = matching_link snapshot.links source target local

  unfoldable pub connect_failed :
      Option (Snapshot N) → Text → Text → Option Text → Session N → Session N
  unfolding show_notice select_saved_link
  connect_failed refreshed source target message s = elim (duplicate_in refreshed source target) [
    | some link ↦ saved (select_existing link s)
    | none ↦ save_failed (codes "Unable to create link.") message s
  ]

  -- `createMonitor`, `updateMonitor` and `deleteMonitor`, up to the answer
  unfoldable pub change_monitor : Call N → Session N → Session N
  change_monitor request s = send request (begin_saving s)

  -- `persistPosition` for a group, up to its answer
  unfoldable pub persist_group_position : Text → N → N → Session N → Session N
  persist_group_position id x y s = send (patch_group_position id x y) (record s { error = none })

  -- `persistPosition` for a group, after the reload that follows the answer
  unfoldable pub group_moved : Session N → Session N
  unfolding show_notice
  group_moved s = show_notice (codes "Group moved") s

  -- `persistPosition` for a group: catch
  unfoldable pub group_not_moved : Option Text → Session N → Session N
  group_not_moved message s = fail (codes "Unable to save group position.") message s

  -- `snapshot?.map.id`
  abbrev pub map_id_of : Option (Snapshot N) → Option Text
  map_id_of none = none
  map_id_of (some snapshot) = some snapshot.map.id

  -- `refreshMonitorSnapshot`, up to its `await`; without a map it throws
  unfoldable pub refresh_monitor_snapshot : Session N → Session N
  unfolding load_snapshot
  refresh_monitor_snapshot s =
      if is_id (map_id_of s.view.snapshot) then load_snapshot false s else s
