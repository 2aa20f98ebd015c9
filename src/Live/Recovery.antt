-- ===== src/Live/Recovery.antt =====
-- While the object is behind the revision that it requires, a load runs, or one is queued behind a
-- load, or a retry is due.
use network_topology_map.Prelude.{
  ℕ, ◌<◌, ◌≡◌, ◌⊎◌, true, false, Option, some, List, [], ◌∷◌, arith, is_some, refl, Text,
  id_eq_refl,
}
use network_topology_map.Types.{Snapshot}
use network_topology_map.Json.{Json}
use network_topology_map.Snapshot.{SnapshotLoadResult}
use network_topology_map.Live.Defs.{
  Sync, new, EventPayload, parse_payload, start, dispose, handle_event, on_open, on_error,
  on_message, reconnect_timeout, retry_timeout, on_loaded, on_load_failed, on_load_finished, Event,
  step, run, started, disposed, source_opened, source_failed, message, reconnect_due, retry_due,
  loaded, load_failed, load_finished,
}
use network_topology_map.Live.Streams.{IsValid, new-IsValid, step-IsValid}

module _ {N C : Type 0} where
  -- A load runs, or the next one is queued, or a retry is pending.
  abbrev pub WillLoad : Sync N C → Type 0
  WillLoad s =
      (0 < s.loading)
      ⊎ ((s.refresh_queued ≡ true) × (s.refreshing ≡ true))
      ⊎ (is_some s.refresh_retry_timer ≡ true)

  -- The object follows the map `m`, and if it runs and is behind it will load.
  pub record IsRecovering (m : Text) (s : Sync N C) : Type 0 where
    pub follows : s.map_id ≡ some m
    pub will_load : s.stopped ≡ false → s.applied_revision < s.required_revision → WillLoad s

  -- The snapshots among the events are of the map `m`.
  abbrev pub OfMap : Text → Event N C → Type 0
  OfMap m (started x) = x.map.id ≡ m
  OfMap m (loaded r) = r.snapshot.map.id ≡ m
  OfMap m _ = Unit

  abbrev pub AllOfMap : Text → List (Event N C) → Type 0
  AllOfMap m [] = Unit
  AllOfMap m (e ∷ es) = OfMap m e × AllOfMap m es

  module _ (m : Text) where
    pub start-IsRecovering :
        (x : Snapshot N) (s : Sync N C) → x.map.id ≡ m → IsRecovering m (start x s)
    unfolding start
    start-IsRecovering x s e = ground arith

    dispose-IsRecovering : (s : Sync N C) → IsRecovering m s → IsRecovering m (dispose s)
    unfolding dispose
    dispose-IsRecovering s h = ground arith

    on_open-IsRecovering : (σ : ℕ) (s : Sync N C) → IsRecovering m s → IsRecovering m (on_open σ s)
    unfolding on_open
    on_open-IsRecovering σ s h = ground arith

    on_error-IsRecovering :
        (σ : ℕ) (s : Sync N C) → IsRecovering m s → IsRecovering m (on_error σ s)
    unfolding on_error
    on_error-IsRecovering σ s h = ground arith

    handle_event-IsRecovering :
        (p : Option EventPayload) (s : Sync N C)
        → IsRecovering m s
        → IsRecovering m (handle_event p s)
    unfolding handle_event
    handle_event-IsRecovering p s h = ground arith

    on_message-IsRecovering :
        (σ : ℕ) (event : Option Json) (s : Sync N C)
        → IsRecovering m s
        → IsRecovering m (on_message σ event s)
    unfolding on_message
    on_message-IsRecovering σ event s h =
        ground (arith, handle_event-IsRecovering (parse_payload event) s h)

    reconnect_timeout-IsRecovering :
        (t : ℕ) (s : Sync N C) → IsRecovering m s → IsRecovering m (reconnect_timeout t s)
    unfolding reconnect_timeout
    reconnect_timeout-IsRecovering t s h = ground arith

    retry_timeout-IsRecovering :
        (t : ℕ) (s : Sync N C) → IsRecovering m s → IsRecovering m (retry_timeout t s)
    unfolding retry_timeout
    retry_timeout-IsRecovering t s h = ground arith

    on_loaded-IsRecovering :
        (r : SnapshotLoadResult N) (s : Sync N C)
        → r.snapshot.map.id ≡ m
        → IsValid s
        → IsRecovering m s
        → IsRecovering m (on_loaded r s)
    unfolding on_loaded
    on_loaded-IsRecovering r s e v h = ground (arith, id_eq_refl (some m))

    on_load_failed-IsRecovering :
        (c : C) (s : Sync N C) → IsValid s → IsRecovering m s → IsRecovering m (on_load_failed c s)
    unfolding on_load_failed
    on_load_failed-IsRecovering c s v h = ground arith

    on_load_finished-IsRecovering :
        (s : Sync N C) → IsValid s → IsRecovering m s → IsRecovering m (on_load_finished s)
    unfolding on_load_finished
    on_load_finished-IsRecovering s v h = ground arith

    pub step-IsRecovering :
        (e : Event N C) (s : Sync N C)
        → OfMap m e
        → IsValid s
        → IsRecovering m s
        → IsRecovering m (step e s)
    step-IsRecovering (started x) s o v h = start-IsRecovering x s o
    step-IsRecovering disposed s o v h = dispose-IsRecovering s h
    step-IsRecovering (source_opened σ) s o v h = on_open-IsRecovering σ s h
    step-IsRecovering (source_failed σ) s o v h = on_error-IsRecovering σ s h
    step-IsRecovering (message σ event) s o v h = on_message-IsRecovering σ event s h
    step-IsRecovering (reconnect_due t) s o v h = reconnect_timeout-IsRecovering t s h
    step-IsRecovering (retry_due t) s o v h = retry_timeout-IsRecovering t s h
    step-IsRecovering (loaded r) s o v h = on_loaded-IsRecovering r s o v h
    step-IsRecovering (load_failed c) s o v h = on_load_failed-IsRecovering c s v h
    step-IsRecovering load_finished s o v h = on_load_finished-IsRecovering s v h

    pub run_from-IsRecovering :
        (s : Sync N C) (es : List (Event N C))
        → AllOfMap m es
        → IsValid s
        → IsRecovering m s
        → IsRecovering m (run s es)
    unfolding run
    run_from-IsRecovering s [] o v h = h
    run_from-IsRecovering s (e ∷ es) (o, os) v h =
        run_from-IsRecovering (step e s) es os (step-IsValid e s v) (step-IsRecovering e s o v h)

  -- Once started on a map, after any events whose snapshots are all of that map: the object
  -- follows that map, and while it is not stopped and the required revision has not been applied,
  -- a load runs, or another is queued behind a running one, or a retry is pending.
  pub run-IsRecovering :
      (x : Snapshot N) (es : List (Event N C))
      → AllOfMap x.map.id es
      → IsRecovering x.map.id (run (start x new) es)
  run-IsRecovering x es o =
      run_from-IsRecovering x.map.id (start x new) es o (step-IsValid (started x) new new-IsValid)
        (start-IsRecovering x.map.id x new refl)
