-- ===== src/Live/Defs.antt =====
-- frontend/src/app/liveSnapshotSync.ts: the object's fields and methods. The callbacks that App.tsx
-- passes set React state and do not throw. Delays are not modelled: a timer fires at any time.
use network_topology_map.Prelude.{
  ℕ, suc, ◌-◌, max, Bool, true, false, not, ◌||◌, ◌&&◌, Option, none, some, List, [], ◌∷◌, Text,
  codes, text_eq, id_eq, is_some, is_number, ltb, leb, ◌==◌, keep, if◌then◌else◌,
}
use network_topology_map.Prelude.Timer.{Timers, no_timers, set_timer, cancel, clear_timer, waiting}
use network_topology_map.Types.{Snapshot}
use network_topology_map.Snapshot.{SnapshotLoadResult}
use network_topology_map.Json.{Json, get, as_string, as_revision}

pub record EventPayload : Type 0 where
  pub map_id : Text
  pub revision : ℕ
  pub type : Text

abbrev payload_of : Option Text → Option ℕ → Option Text → Option EventPayload
payload_of (some m) (some r) (some t) = some (record { map_id = m; revision = r; type = t })
payload_of _ _ _ = none

-- `none` is a text that JSON.parse refuses. A destructured `null` throws and is caught; any other
-- value that is no object has none of the three properties.
unfoldable pub parse_payload : Option Json → Option EventPayload
parse_payload none = none
parse_payload (some v) =
    payload_of (as_string (get (codes "map_id") v)) (as_revision (get (codes "revision") v))
      (as_string (get (codes "type") v))

abbrev is_resync : EventPayload → Bool
is_resync p = text_eq p.type (codes "resync.required")

-- What the object has its environment see.
pub data Effect (N C : Type 0) : Type 0 where
  connection : Bool → Effect N C
  delivered : SnapshotLoadResult N → Effect N C
  failed : C → Effect N C
  opened : Text → ℕ → Effect N C

pub record Sync (N C : Type 0) : Type 0 where
  pub source : Option ℕ
  pub reconnect_timer : Option ℕ
  pub refresh_retry_timer : Option ℕ
  pub map_id : Option Text
  pub applied_revision : ℕ
  pub required_revision : ℕ
  pub refreshing : Bool
  pub refresh_queued : Bool
  pub stopped : Bool
  pub next_source : ℕ
  pub open_sources : List ℕ
  pub reconnect_timers : Timers ℕ
  pub retry_timers : Timers (Unit {0})
  pub loading : ℕ
  pub settling : ℕ
  pub effects : List (Effect N C)

module _ {N C : Type 0} where
  abbrev pub new : Sync N C
  new = record {
    source = none;
    reconnect_timer = none;
    refresh_retry_timer = none;
    map_id = none;
    applied_revision = 0;
    required_revision = 0;
    refreshing = false;
    refresh_queued = false;
    stopped = false;
    next_source = 0;
    open_sources = [];
    reconnect_timers = no_timers;
    retry_timers = no_timers;
    loading = 0;
    settling = 0;
    effects = [];
  }

  abbrev emit : Effect N C → Sync N C → Sync N C
  emit e s = record s { effects = e ∷ s.effects }

  -- `source.close()`
  abbrev close : Option ℕ → Sync N C → Sync N C
  close none s = s
  close (some σ) s = record s { open_sources = keep (λ τ. not (τ == σ)) s.open_sources }

  unfoldable pub cancel_reconnect : Sync N C → Sync N C
  cancel_reconnect s = record s {
    reconnect_timer = none;
    reconnect_timers = cancel s.reconnect_timer s.reconnect_timers;
  }

  unfoldable pub cancel_refresh_retry : Sync N C → Sync N C
  cancel_refresh_retry s = record s {
    refresh_retry_timer = none;
    retry_timers = cancel s.refresh_retry_timer s.retry_timers;
  }

  unfoldable pub close_source : Sync N C → Sync N C
  unfolding cancel_reconnect cancel_refresh_retry
  close_source s =
      let t = cancel_refresh_retry (cancel_reconnect s) in
      close t.source (record t { source = none })

  abbrev open_source : Option Text → Sync N C → Sync N C
  open_source none s = s
  open_source (some m) s = emit (opened m s.applied_revision) (record s {
    source = some s.next_source;
    next_source = suc s.next_source;
    open_sources = s.next_source ∷ s.open_sources;
  })

  unfoldable pub connect : Sync N C → Sync N C
  connect s = if s.stopped then s else open_source s.map_id s

  unfoldable pub start : Snapshot N → Sync N C → Sync N C
  unfolding close_source connect
  start snapshot s =
      let t = close_source s in
      connect (
        emit (connection false) (record t {
          stopped = false;
          map_id = some snapshot.map.id;
          applied_revision = snapshot.revision;
          required_revision = snapshot.revision;
        }))

  unfoldable pub dispose : Sync N C → Sync N C
  unfolding close_source
  dispose s = close_source (record s { stopped = true })

  unfoldable pub schedule_reconnect : ℕ → Sync N C → Sync N C
  schedule_reconnect σ s = if is_some s.reconnect_timer then s else record s {
    reconnect_timer = some s.reconnect_timers.next;
    reconnect_timers = set_timer σ s.reconnect_timers;
  }

  unfoldable pub schedule_refresh_retry : Sync N C → Sync N C
  schedule_refresh_retry s = if is_some s.refresh_retry_timer || s.stopped then s else record s {
    refresh_retry_timer = some s.retry_timers.next;
    retry_timers = set_timer tt s.retry_timers;
  }

  -- The part of `requestRefresh` that runs at once; `loadSnapshot` has then been called.
  unfoldable pub request_refresh : Sync N C → Sync N C
  unfolding cancel_refresh_retry
  request_refresh s =
      if s.refreshing || s.stopped
      then record s { refresh_queued = true }
      else let t = cancel_refresh_retry s in record t { refreshing = true; loading = suc t.loading }

  -- `handleEvent`, from the parsed payload on
  abbrev handle_payload : Option EventPayload → Sync N C → Sync N C
  handle_payload none s = s
  handle_payload (some p) s =
      if not (id_eq (some p.map_id) s.map_id)
      then s
      else if not (is_resync p) && leb p.revision s.applied_revision
      then s
      else request_refresh (record s { required_revision = max s.required_revision p.revision })

  unfoldable pub handle_event : Option EventPayload → Sync N C → Sync N C
  unfolding request_refresh
  handle_event p s = if s.stopped then s else handle_payload p s

  -- the guard of the handlers that `connect` installs on a source
  abbrev is_live : ℕ → Sync N C → Bool
  is_live σ s = not s.stopped && is_number s.source σ

  -- `source.onopen`
  unfoldable pub on_open : ℕ → Sync N C → Sync N C
  unfolding cancel_reconnect request_refresh
  on_open σ s =
      if is_live σ s then request_refresh (emit (connection true) (cancel_reconnect s)) else s

  -- `source.onerror`
  unfoldable pub on_error : ℕ → Sync N C → Sync N C
  unfolding schedule_reconnect
  on_error σ s = if is_live σ s then schedule_reconnect σ (emit (connection false) s) else s

  -- the listener of the three event types
  unfoldable pub on_message : ℕ → Option Json → Sync N C → Sync N C
  unfolding handle_event
  on_message σ event s = if is_number s.source σ then handle_event (parse_payload event) s else s

  -- the callback of `reconnectTimer`, made for the source `σ`
  abbrev reconnect : ℕ → Sync N C → Sync N C
  reconnect σ s = if is_live σ s then connect (close (some σ) (record s { source = none })) else s

  -- the event loop runs the reconnect timer `t`
  unfoldable pub reconnect_timeout : ℕ → Sync N C → Sync N C
  unfolding connect
  reconnect_timeout t s = elim (waiting t s.reconnect_timers.pending) [
    | none ↦ s
    | some σ ↦
        reconnect σ
          (record s { reconnect_timer = none; reconnect_timers = clear_timer t s.reconnect_timers })
  ]

  -- the event loop runs the retry timer `t`
  unfoldable pub retry_timeout : ℕ → Sync N C → Sync N C
  unfolding request_refresh
  retry_timeout t s = elim (waiting t s.retry_timers.pending) [
    | none ↦ s
    | some u ↦
        let r = record s {
          refresh_retry_timer = none;
          retry_timers = clear_timer t s.retry_timers;
        } in
        if r.stopped then r else request_refresh r
  ]

  -- the `then` handler
  abbrev accept : SnapshotLoadResult N → Sync N C → Sync N C
  accept result s =
      if s.stopped || not (id_eq (some result.snapshot.map.id) s.map_id)
      then s
      else if ltb result.snapshot.revision s.required_revision
      then record s { refresh_queued = true }
      else emit (delivered result)
          (record s { applied_revision = max s.applied_revision result.snapshot.revision })

  -- A load answers. Its `finally` runs later, as a microtask of its own.
  unfoldable pub on_loaded : SnapshotLoadResult N → Sync N C → Sync N C
  on_loaded result s =
      if s.loading == 0
      then s
      else accept result (record s { loading = s.loading - 1; settling = suc s.settling })

  -- A load is rejected: the `catch` handler.
  unfoldable pub on_load_failed : C → Sync N C → Sync N C
  unfolding schedule_refresh_retry
  on_load_failed cause s =
      if s.loading == 0
      then s
      else let t = record s { loading = s.loading - 1; settling = suc s.settling } in
        if t.stopped then t else schedule_refresh_retry (emit (failed cause) t)

  -- the `finally` handler
  unfoldable pub on_load_finished : Sync N C → Sync N C
  unfolding request_refresh
  on_load_finished s =
      if s.settling == 0
      then s
      else let t = record s { settling = s.settling - 1; refreshing = false } in
        if t.refresh_queued && not t.stopped
        then request_refresh (record t { refresh_queued = false })
        else t

-- What may happen to the object, in any order.
pub data Event (N C : Type 0) : Type 0 where
  started : Snapshot N → Event N C
  disposed : Event N C
  source_opened : ℕ → Event N C
  source_failed : ℕ → Event N C
  message : ℕ → Option Json → Event N C
  reconnect_due : ℕ → Event N C
  retry_due : ℕ → Event N C
  loaded : SnapshotLoadResult N → Event N C
  load_failed : C → Event N C
  load_finished : Event N C

module _ {N C : Type 0} where
  abbrev pub step : Event N C → Sync N C → Sync N C
  step (started snapshot) s = start snapshot s
  step disposed s = dispose s
  step (source_opened σ) s = on_open σ s
  step (source_failed σ) s = on_error σ s
  step (message σ event) s = on_message σ event s
  step (reconnect_due t) s = reconnect_timeout t s
  step (retry_due t) s = retry_timeout t s
  step (loaded result) s = on_loaded result s
  step (load_failed cause) s = on_load_failed cause s
  step load_finished s = on_load_finished s

  unfoldable pub run : Sync N C → List (Event N C) → Sync N C
  run s [] = s
  run s (e ∷ es) = run (step e s) es
