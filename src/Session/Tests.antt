-- ===== src/Session/Tests.antt =====
-- A few steps of a page with a small map, and the theorems at them.
use network_topology_map.Prelude.{
  ℕ, ◌≡◌, refl, arith, true, false, none, some, List, [], ◌∷◌, codes, if◌then◌else◌, text_eq,
  starts_with,
}
use network_topology_map.Types.{LinkRecord, GroupRecord, Snapshot, local}
use network_topology_map.Sample.{plain, plane, home, snapshot_at, answer, web_check}
use network_topology_map.Editor.{Point}
use network_topology_map.Client.Endpoints.{delete_node}
use network_topology_map.Client.Endpoints.{create_monitor}
use network_topology_map.Monitor.Parse.{valid_ipv4, integer_in_range, trim_or_null}
use network_topology_map.Monitor.Decimal.{to_string}
use network_topology_map.Monitor.Draft.{monitor_draft_for}
use network_topology_map.Monitor.Validate.{valid, validate_monitor_draft, errors_of, payload_of}
use network_topology_map.Monitor.RoundTrip.{config}
use network_topology_map.Forms.Check.{CheckForm, open_check}
use network_topology_map.Session.Saving.{is_id, map_id_of}
use network_topology_map.Session.Submitting.{Editing, submit, IsCreated, IsRefused, submit-again}
use network_topology_map.Session.Placing.{default_position, IsClearOf, default_position-IsClearOf}
use network_topology_map.Session.State.{
  Session, new, loaded, not_loaded, inspector, link_inspector, node_inspector, group_inspector,
  preferred_map, selected_node,
}
use network_topology_map.Session.Selecting.{click_group}
use network_topology_map.Session.Saving.{group_saved, on_key_down, delete_selected_node}
use network_topology_map.Session.Steps.{
  Act, run, load_asked, load_answered, node_clicked, group_clicked, add_node_pressed, notice_due,
  change_done,
}
use network_topology_map.Session.Dragging.{place, persist_position}
use network_topology_map.Session.Dropping.{with_dropped, persist_position_lem}
use network_topology_map.Session.Exclusion.{IsExclusive, run-IsExclusive}
use network_topology_map.Session.Notices.{IsTimed, run-IsTimed}
use network_topology_map.Session.Deleting.{DeletesShown, on_key_down-DeletesShown}
use network_topology_map.Session.Showing.{beside, inspector-click_group}

abbrev cable : LinkRecord
cable = record {
  id = codes "l";
  map_id = codes "home";
  source_node_id = codes "a";
  target_node_id = codes "b";
  kind = local;
  source_handle = none;
  target_handle = none;
  created_at = [];
}

abbrev rack : GroupRecord ℕ
rack = record {
  id = codes "g";
  map_id = codes "home";
  name = codes "Rack";
  x = 0;
  y = 0;
  width = 600;
  height = 400;
  created_at = [];
  updated_at = [];
}

abbrev shown : Snapshot ℕ
shown = record (snapshot_at 1) { links = cable ∷ []; groups = rack ∷ [] }

-- The page with the map drawn, and nothing selected.
abbrev page : Session ℕ
page = record new { view = record new.view { snapshot = some shown }; loading = false }

abbrev acts : List (Act ℕ)
acts =
    load_asked true
    ∷ load_answered true (loaded (answer 1 1))
    ∷ change_done (codes "Check added")
    ∷ node_clicked (codes "a")
    ∷ []

run-IsExclusive_example :
    IsExclusive (run new (group_clicked (codes "g") ∷ add_node_pressed ∷ acts))
run-IsExclusive_example = run-IsExclusive (group_clicked (codes "g") ∷ add_node_pressed ∷ acts)

run-IsTimed_example : IsTimed (run new (notice_due 0 ∷ acts))
run-IsTimed_example = run-IsTimed (notice_due 0 ∷ acts)

on_key_down-DeletesShown_example :
    let s = run new acts in DeletesShown s true (on_key_down (codes "Delete") false true s)
on_key_down-DeletesShown_example = on_key_down-DeletesShown acts (codes "Delete") false true

deletes :
    (on_key_down
      (codes "Delete")
      false
      true
      (record page { selected_node_id = some (codes "a") })).requests
    ≡ delete_node (codes "a") ∷ []
unfolding on_key_down delete_selected_node selected_node text_eq
deletes = refl

homes :
    preferred_map (home ∷ record home { id = codes "lab" } ∷ []) (some (codes "lab"))
    ≡ some (record home { id = codes "lab" })
unfolding preferred_map text_eq
homes = refl

abbrev busy : Session ℕ
busy = record page { adding_node = true }

inspector-click_group_example :
    let form =
      if busy.adding_link
      then link_inspector none
      else if busy.adding_node
      then node_inspector none
      else group_inspector (some rack) in
    (inspector (click_group (codes "g") busy) ≡ beside busy form)
    × (inspector (group_saved (codes "g") true busy) ≡ beside busy form)
inspector-click_group_example =
    inspector-click_group busy (codes "g") true rack (unfold text_eq in refl)

abbrev spot : Point ℕ
spot = record { x = 500; y = 10 }

persist_position_lem_example :
    let dropped = place plain plane (some shown) spot in
    ((persist_position plain plane (codes "a") spot page).1 ≡ (codes "a", dropped.0, dropped.1))
    × ((persist_position plain plane (codes "a") spot page).0.view.snapshot
        ≡ some (with_dropped plain (codes "a") dropped shown))
persist_position_lem_example =
    persist_position_lem plain plane page shown (codes "a") spot refl refl

default_position-IsClearOf_example :
    let p = default_position (some (snapshot_at 4)) in
    let q = default_position {N = ℕ} none in IsClearOf p.x p.y q.x q.y
default_position-IsClearOf_example =
    default_position-IsClearOf (some (snapshot_at 4)) none (ground arith)

web_payload :
    validate_monitor_draft (monitor_draft_for (some web_check) none) ≡ valid (config web_check)
unfolding validate_monitor_draft errors_of payload_of valid_ipv4 integer_in_range trim_or_null
    starts_with monitor_draft_for to_string
web_payload = refl

-- the editor of a new check, filled in as the web check is
abbrev filled_in : CheckForm
filled_in = open_check (some web_check) none (codes "a:new:0")

filled_in_payload : validate_monitor_draft filled_in.form.draft ≡ valid (config web_check)
unfolding open_check
filled_in_payload = web_payload

drawn_map : is_id (map_id_of page.view.snapshot) ≡ true
unfolding run
drawn_map = refl

abbrev new_check : Editing ℕ
new_check = record {
  editor = record { revision = 0; monitor = none };
  form = filled_in;
  page = page;
}

submit-again_example :
    let request = create_monitor (codes "a") (config web_check) in
    let once = submit (codes "a") web_check (not_loaded none) new_check in
    let twice = submit (codes "a") web_check (loaded (answer 9 3)) once in
    IsCreated web_check new_check (submit (codes "a") web_check (loaded (answer 9 3)) new_check)
    × IsRefused new_check once
    × (twice.page.requests ≡ request ∷ request ∷ page.requests)
submit-again_example =
    submit-again (codes "a") web_check web_check (answer 9 3) none (loaded (answer 9 3)) new_check
      (config web_check) refl drawn_map filled_in_payload
