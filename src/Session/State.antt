-- ===== src/Session/State.antt =====
-- frontend/src/app/App.tsx: the state of AppContent, its notices, the loading of snapshots, and the
-- values derived from the state. Text messages are code units.
use network_topology_map.Prelude.{
  ℕ, Bool, true, false, not, ◌&&◌, ◌||◌, Option, none, some, List, [], ◌∷◌, Text, codes, id_eq,
  get_or, is_some, find, if◌then◌else◌,
}
use network_topology_map.Prelude.Timer.{Timers, no_timers, set_timer, cancel, clear_timer, waiting}
use network_topology_map.Types.{MapRecord, NodeRecord, LinkRecord, GroupRecord, Snapshot}
use network_topology_map.Client.Endpoints.{Call}
use network_topology_map.Snapshot.{View, blank, SnapshotLoadResult, begin_request, apply_snapshot}

pub record Session (N : Type 0) : Type 0 where
  -- the drawn snapshot, with its coordinator
  pub view : View N
  pub selected_node_id : Option Text
  pub selected_link_id : Option Text
  pub selected_group_id : Option Text
  pub adding_node : Bool
  pub adding_link : Bool
  pub adding_group : Bool
  pub loading : Bool
  pub saving : Bool
  pub search_focused_node_id : Option Text
  pub error : Option Text
  pub notice : Option Text
  pub node_draft_revision : ℕ
  pub link_draft_revision : ℕ
  pub group_draft_revision : ℕ
  pub notice_timer : Option ℕ
  -- the environment: pending notice timers, and the requests sent, newest first
  pub timers : Timers (Unit {0})
  pub requests : List (Call N)

-- What the fetch of `loadSnapshot` ends with: a snapshot, or the message of a cause.
pub data LoadOutcome (N : Type 0) : Type 0 where
  loaded : SnapshotLoadResult N → LoadOutcome N
  not_loaded : Option Text → LoadOutcome N

-- What stands beside the canvas: an inspector with the record it edits (`none`: a new one). While
-- the page is loading, the loading screen stands in place of all.
pub data Inspector (N : Type 0) : Type 0 where
  link_inspector : Option LinkRecord → Inspector N
  node_inspector : Option (NodeRecord N) → Inspector N
  group_inspector : Option (GroupRecord N) → Inspector N
  no_inspector : Inspector N
  loading_screen : Inspector N

module _ {N : Type 0} where
  abbrev pub new : Session N
  new = record {
    view = blank;
    selected_node_id = none;
    selected_link_id = none;
    selected_group_id = none;
    adding_node = false;
    adding_link = false;
    adding_group = false;
    loading = true;
    saving = false;
    search_focused_node_id = none;
    error = none;
    notice = none;
    node_draft_revision = 0;
    link_draft_revision = 0;
    group_draft_revision = 0;
    notice_timer = none;
    timers = no_timers;
    requests = [];
  }

  abbrev pub send : Call N → Session N → Session N
  send request s = record s { requests = request ∷ s.requests }

  unfoldable pub dismiss_notice : Session N → Session N
  dismiss_notice s = record s {
    notice_timer = none;
    timers = cancel s.notice_timer s.timers;
    notice = none;
  }

  unfoldable pub show_notice : Text → Session N → Session N
  show_notice message s =
      let timers = cancel s.notice_timer s.timers in
      record s {
        notice = some message;
        notice_timer = some timers.next;
        timers = set_timer tt timers;
      }

  -- the callback of the notice's timer, when the event loop runs the timer `t`
  unfoldable pub notice_timeout : ℕ → Session N → Session N
  notice_timeout t s =
      if is_some (waiting t s.timers.pending)
      then record s { notice_timer = none; notice = none; timers = clear_timer t s.timers }
      else s

  -- `cause instanceof Error ? cause.message : fallback`
  abbrev pub fail : Text → Option Text → Session N → Session N
  fail fallback message s = record s { error = some (get_or message fallback) }

  -- The part of `loadSnapshot` that runs at once; the request has then been sent.
  unfoldable pub load_snapshot : Bool → Session N → Session N
  load_snapshot show_loading s = record s {
    loading = s.loading || show_loading;
    error = none;
    view = record s.view { coordinator = (begin_request s.view.coordinator).0 };
  }

  abbrev pub load_ended : Bool → Session N → Session N
  load_ended show_loading s = record s { loading = s.loading && not show_loading }

  -- The part of `loadSnapshot` after its `await`.
  unfoldable pub snapshot_loaded : Bool → LoadOutcome N → Session N → Session N
  snapshot_loaded show_loading (loaded result) s =
      load_ended show_loading (record s { view = (apply_snapshot result s.view).0 })
  snapshot_loaded show_loading (not_loaded message) s =
      load_ended show_loading (fail (codes "Unable to load the topology map.") message s)

  -- the value that `loadSnapshot` resolves to
  abbrev pub returned : LoadOutcome N → Option (Snapshot N)
  returned (loaded result) = some result.snapshot
  returned (not_loaded message) = none

  -- `loadSnapshot` of the live connection, up to its `await`
  unfoldable pub live_request : Session N → Session N
  live_request s = record s {
    view = record s.view { coordinator = (begin_request s.view.coordinator).0 };
  }

  -- `onSnapshot` of the live connection
  unfoldable pub live_snapshot : SnapshotLoadResult N → Session N → Session N
  live_snapshot result s =
      let (view, applied) = apply_snapshot result s.view in
      if applied then record s { view = view; error = none } else record s { view = view }

  -- `snapshot?.items.find((item) => item.id === id) ?? null`
  abbrev pub found :
      {A : Type 0}
      → (A → Text)
      → (Snapshot N → List A)
      → Option (Snapshot N)
      → Option Text
      → Option A
  found id_of items none id = none
  found id_of items (some snapshot) id =
      find (λ item. id_eq (some (id_of item)) id) (items snapshot)

  unfoldable pub selected_node : Session N → Option (NodeRecord N)
  selected_node s =
      found (λ (n : NodeRecord N). n.id) (λ snapshot. snapshot.nodes) s.view.snapshot
        s.selected_node_id

  unfoldable pub selected_link : Session N → Option LinkRecord
  selected_link s =
      found (λ (l : LinkRecord). l.id) (λ snapshot. snapshot.links) s.view.snapshot
        s.selected_link_id

  unfoldable pub selected_group : Session N → Option (GroupRecord N)
  selected_group s =
      found (λ (g : GroupRecord N). g.id) (λ snapshot. snapshot.groups) s.view.snapshot
        s.selected_group_id

  -- `if (loading)`, above the markup
  abbrev loading_guard : Session N → Inspector N → Inspector N
  loading_guard s rest = if s.loading then loading_screen else rest

  unfoldable pub inspector : Session N → Inspector N
  inspector s = loading_guard s (
      if is_some (selected_link s) || s.adding_link
      then link_inspector (selected_link s)
      else if is_some (selected_node s) || s.adding_node
      then node_inspector (selected_node s)
      else if is_some (selected_group s) || s.adding_group
      then group_inspector (selected_group s)
      else no_inspector)

-- The map that `fetchSnapshot` asks for, if there is one.
unfoldable pub preferred_map :
    {N : Type 0} → List (MapRecord N) → Option Text → Option (MapRecord N)
preferred_map [] preferred = none
preferred_map (m ∷ maps) preferred =
    some (get_or (find (λ (n : MapRecord _). id_eq (some n.id) preferred) (m ∷ maps)) m)
