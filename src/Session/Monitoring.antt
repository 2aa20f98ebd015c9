-- ===== src/Session/Monitoring.antt =====
-- frontend/src/app/App.tsx: the changes of a monitor, from the call to what the panel gets.
use network_topology_map.Prelude.{
  true, false, Option, none, some, ◌∷◌, Text, codes, is_some, ◌≡◌, arith, if◌then◌else◌,
}
use network_topology_map.Types.{MonitorPayload, Snapshot}
use network_topology_map.Snapshot.{SnapshotLoadResult}
use network_topology_map.Client.Endpoints.{Call, create_monitor, patch_monitor, delete_monitor}
use network_topology_map.Session.State.{
  Session, LoadOutcome, loaded, not_loaded, returned, snapshot_loaded, load_snapshot, show_notice,
}
use network_topology_map.Session.Saving.{
  saved, change_noticed, change_monitor, refresh_monitor_snapshot, map_id_of, is_id,
}

module _ {N : Type 0} where
  -- what the promise of a change gives the panel: nothing, or the message it is rejected with
  abbrev pub check_changed : Text → Option (Snapshot N) → Session N → Session N × Option Text
  check_changed message none s = (saved s, some (codes "Unable to refresh monitor diagnostics."))
  check_changed message (some snapshot) s = (change_noticed message s, none)

  -- A change that the server has made, with what the load behind it ends with.
  unfoldable pub change_check : Call N → Text → LoadOutcome N → Session N → Session N × Option Text
  change_check request message outcome s =
      let t = refresh_monitor_snapshot (change_monitor request s) in
      if is_id (map_id_of s.view.snapshot)
      then check_changed message (returned outcome) (snapshot_loaded false outcome t)
      else (saved t, some (codes "No map is available for monitor diagnostics."))

  unfoldable pub create_check :
      Text → MonitorPayload → LoadOutcome N → Session N → Session N × Option Text
  create_check node_id payload outcome s =
      change_check (create_monitor node_id payload) (codes "Check added") outcome s

  unfoldable pub update_check :
      Text → MonitorPayload → LoadOutcome N → Session N → Session N × Option Text
  update_check monitor_id payload outcome s =
      change_check (patch_monitor monitor_id payload) (codes "Check saved") outcome s

  unfoldable pub delete_check : Text → LoadOutcome N → Session N → Session N × Option Text
  delete_check monitor_id outcome s =
      change_check (delete_monitor monitor_id) (codes "Check deleted") outcome s

  -- The change is over: it was sent once, and nothing is being saved.
  abbrev pub IsSent : Call N → Session N → Session N → Type 0
  IsSent request s t = (t.requests ≡ request ∷ s.requests) × (t.saving ≡ false)

  pub change_check-loaded :
      (request : Call N) (message : Text) (result : SnapshotLoadResult N) (s : Session N)
      → is_id (map_id_of s.view.snapshot) ≡ true
      → let t = change_check request message (loaded result) s in
        (t.1 ≡ none) × (t.0.notice ≡ some message) × IsSent request s t.0
  unfolding change_check change_monitor refresh_monitor_snapshot load_snapshot snapshot_loaded
      change_noticed show_notice
  change_check-loaded request message result s h = ground arith

  pub change_check-not_loaded :
      (request : Call N) (message : Text) (cause : Option Text) (s : Session N)
      → is_id (map_id_of s.view.snapshot) ≡ true
      → let t = change_check request message (not_loaded cause) s in
        (t.1 ≡ some (codes "Unable to refresh monitor diagnostics."))
        × (t.0.notice ≡ s.notice)
        × (is_some t.0.error ≡ true)
        × IsSent request s t.0
        × (t.0.view.snapshot ≡ s.view.snapshot)
  unfolding change_check change_monitor refresh_monitor_snapshot load_snapshot snapshot_loaded
  change_check-not_loaded request message cause s h = ground arith
