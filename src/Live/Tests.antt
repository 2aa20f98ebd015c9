-- ===== src/Live/Tests.antt =====
-- Runs of the live connection, and its theorems at them.
use network_topology_map.Prelude.{
  ℕ, ◌≤◌, ◌<◌, ◌≡◌, refl, true, false, Option, some, List, [], ◌∷◌, codes, text_eq, arith,
}
use network_topology_map.Prelude.Int.{pos}
use network_topology_map.Sample.{snapshot_at, answer}
use network_topology_map.Json.{Json, string, number, whole, object, field, end, property}
use network_topology_map.Live.Defs.{
  Sync, Event, connection, failed, opened, new, parse_payload, started, source_opened,
  source_failed, message, reconnect_due, loaded, load_failed, load_finished, run, start, dispose,
  on_open, on_error, on_message, reconnect_timeout, retry_timeout, on_loaded, on_load_failed,
  on_load_finished,
}
use network_topology_map.Live.Streams.{IsValid, run-IsValid}
use network_topology_map.Live.Announced.{announced}
use network_topology_map.Live.CatchingUp.{CatchesUp, run-CatchesUp}
use network_topology_map.Live.Silence.{IsQuietSince, dispose_silences}
use network_topology_map.Types.{Snapshot}
use network_topology_map.Snapshot.{View, arrive}
use network_topology_map.Live.Page.{
  LivePage, LivePageEvent, live, own, connect_page, live_page_step, live_page_run,
}
use network_topology_map.Live.Keeping.{
  announced_to, IsKeptUp, live_page_run-IsKeptUp, ShowsAll, live_page_run-ShowsAll,
}

all_steps : Unit {0}
unfolding run start dispose on_open on_error on_message reconnect_timeout retry_timeout on_loaded
    on_load_failed on_load_finished parse_payload property text_eq
all_steps = tt

abbrev changed : ℕ → Option Json
changed revision = some (
    object (
      field (codes "map_id") (string (codes "home")) (
        field (codes "revision") (number (whole (pos revision)))
          (field (codes "type") (string (codes "topology.changed")) end))))

-- The stream opens; revision 7 is announced while the load runs, and the load fails.
abbrev behind : List (Event ℕ ℕ)
behind = source_opened 0 ∷ message 0 (changed 7) ∷ load_failed 404 ∷ []

abbrev lagging : Sync ℕ ℕ
lagging = run (start (snapshot_at 4) new) behind

lagging_state :
    (lagging.stopped ≡ false)
    × (lagging.applied_revision ≡ 4)
    × (lagging.required_revision ≡ 7)
    × (lagging.effects
        ≡ failed 404 ∷ connection true ∷ opened (codes "home") 4 ∷ connection false ∷ [])
unfolding all_steps
lagging_state = (refl, refl, refl, refl)

-- The stream fails for good and is replaced.
abbrev replaced : List (Event ℕ ℕ)
replaced =
    started (snapshot_at 4)
    ∷ source_failed 0
    ∷ source_failed 0
    ∷ reconnect_due 0
    ∷ source_opened 1
    ∷ []

replaced_streams : (run new replaced).open_sources ≡ 1 ∷ []
unfolding all_steps
replaced_streams = refl

run-IsValid_example : IsValid (run new replaced)
run-IsValid_example = run-IsValid replaced

abbrev told_it : ℕ
told_it = announced (codes "home") 4 (start (snapshot_at 4) new) behind

told_7 : told_it ≡ 7
unfolding all_steps
told_7 = refl

lagging_behind : lagging.applied_revision < told_it
lagging_behind = ground (arith, lagging_state, told_7)

lagging_enough : told_it ≤ 7
lagging_enough = ground (arith, told_7)

run-CatchesUp_example : CatchesUp told_it (answer 7 2) lagging
run-CatchesUp_example =
    run-CatchesUp (snapshot_at 4) behind (answer 7 2) (tt, (tt, (tt, tt))) lagging_state.0
      lagging_behind refl lagging_enough

abbrev fetching : Sync ℕ ℕ
fetching = run (start (snapshot_at 4) new) (source_opened 0 ∷ message 0 (changed 7) ∷ [])

fetching_state :
    (0 < fetching.loading) × (fetching.stopped ≡ false) × (fetching.map_id ≡ some (codes "home"))
unfolding all_steps
fetching_state = (omega arith, refl, refl)

dispose_silences_example :
    IsQuietSince (run new replaced) (
      run (dispose (run new replaced)) (loaded (answer 9 3) ∷ source_failed 1 ∷ load_finished ∷ []))
dispose_silences_example =
    dispose_silences replaced (loaded (answer 9 3) ∷ source_failed 1 ∷ load_finished ∷ []) tt

-- The page draws revision 4; revision 7 is announced, an own load answers with revision 5, and the
-- load of the connection fails.
abbrev page_view : View ℕ
page_view = record {
  coordinator = record {
    map_id = some (codes "home");
    revision = pos 4;
    next_generation = 1;
    latest_started_generation = 1;
    applied_generation = 1;
  };
  snapshot = some (snapshot_at 4);
}

abbrev page_events : List (LivePageEvent ℕ ℕ)
page_events =
    live (source_opened 0)
    ∷ live (message 0 (changed 7))
    ∷ own (arrive (answer 5 1))
    ∷ live (load_failed 404)
    ∷ []

abbrev lagging_page : LivePage ℕ ℕ
lagging_page = live_page_run (connect_page (snapshot_at 4) page_view) page_events

abbrev told_page : ℕ
told_page = announced_to (snapshot_at 4) page_view page_events

live_page_run-IsKeptUp_example :
    (s : Snapshot ℕ) × (lagging_page.view.snapshot ≡ some s)
    × (s.map.id ≡ codes "home")
    × (lagging_page.sync.applied_revision ≤ s.revision)
    × IsKeptUp told_page lagging_page.sync s
live_page_run-IsKeptUp_example =
    live_page_run-IsKeptUp (snapshot_at 4) page_view page_events refl (refl, refl)
      (tt, (tt, ((refl, tt), (tt, tt))))

lagging_page_state :
    (lagging_page.sync.stopped ≡ false)
    × (lagging_page.sync.applied_revision ≡ 4)
    × (lagging_page.sync.required_revision ≡ 7)
unfolding all_steps connect_page live_page_run live_page_step
lagging_page_state = (refl, refl, refl)

told_page_7 : told_page ≡ 7
unfolding all_steps connect_page
told_page_7 = refl

lagging_page_behind : lagging_page.sync.applied_revision < told_page
lagging_page_behind = ground (arith, lagging_page_state, told_page_7)

lagging_page_enough : told_page ≤ 7
lagging_page_enough = ground (arith, told_page_7)

live_page_run-ShowsAll_example : ShowsAll told_page (answer 7 2) lagging_page
live_page_run-ShowsAll_example =
    live_page_run-ShowsAll (snapshot_at 4) page_view page_events (answer 7 2) refl (refl, refl)
      (tt, (tt, ((refl, tt), (tt, tt)))) refl lagging_page_state.0 lagging_page_behind
      lagging_page_enough
