-- ===== src/Live/Announced.antt =====
-- The revisions that were announced to the live connection, as its messages tell them, and the two
-- fields that keep count of them.
use network_topology_map.Prelude.{
  ℕ, ◌≤◌, ◌≡◌, Bool, false, ◌&&◌, not, max, Option, none, some, List, [], ◌∷◌, Text, id_eq,
  is_number, arith, refl, if◌then◌else◌,
}
use network_topology_map.Types.{Snapshot}
use network_topology_map.Json.{Json}
use network_topology_map.Snapshot.{SnapshotLoadResult}
use network_topology_map.Live.Defs.{
  Sync, new, EventPayload, parse_payload, start, dispose, handle_event, on_open, on_error,
  on_message, reconnect_timeout, retry_timeout, on_loaded, on_load_failed, on_load_finished, Event,
  step, run, started, disposed, source_opened, source_failed, message, reconnect_due, retry_due,
  loaded, load_failed, load_finished,
}
use network_topology_map.Live.Streams.{IsValid, new-IsValid, step-IsValid}
use network_topology_map.Live.Recovery.{
  IsRecovering, AllOfMap, step-IsRecovering, start-IsRecovering,
}

-- the highest of `n` and the revision that a payload announces for the map `m`
abbrev pub told : Text → Option EventPayload → ℕ → ℕ
told m none n = n
told m (some p) n = if id_eq (some p.map_id) (some m) then max n p.revision else n

module _ {N C : Type 0} where
  -- the running object has the stream open
  abbrev pub hears : ℕ → Sync N C → Bool
  hears σ s = not s.stopped && is_number s.source σ

  -- The highest revision announced for the map `m` since the last start, after one more event: the
  -- one of the snapshot that the object starts from, or one in a message on the stream in use.
  abbrev pub announced_by : Text → Event N C → Sync N C → ℕ → ℕ
  announced_by m (started x) s n = x.revision
  announced_by m (message σ event) s n = if hears σ s then told m (parse_payload event) n else n
  announced_by m _ s n = n

  abbrev pub announced : Text → ℕ → Sync N C → List (Event N C) → ℕ
  announced m n s [] = n
  announced m n s (e ∷ es) = announced m (announced_by m e s n) (step e s) es

  -- No more is required than was announced, and what was announced is applied or required.
  pub record IsTold (n : ℕ) (s : Sync N C) : Type 0 where
    pub no_more : s.required_revision ≤ n
    pub no_less : n ≤ max s.applied_revision s.required_revision

  module _ (m : Text) (n : ℕ) (s : Sync N C) (h : IsTold n s) where
    start-IsTold : (x : Snapshot N) → IsTold x.revision (start x s)
    unfolding start
    start-IsTold x = ground arith

    dispose-IsTold : IsTold n (dispose s)
    unfolding dispose
    dispose-IsTold = ground arith

    on_open-IsTold : (σ : ℕ) → IsTold n (on_open σ s)
    unfolding on_open
    on_open-IsTold σ = ground arith

    on_error-IsTold : (σ : ℕ) → IsTold n (on_error σ s)
    unfolding on_error
    on_error-IsTold σ = ground arith

    handle_event-IsTold :
        (p : Option EventPayload)
        → s.map_id ≡ some m
        → s.stopped ≡ false
        → IsTold (told m p n) (handle_event p s)
    unfolding handle_event
    handle_event-IsTold none f r = ground arith
    handle_event-IsTold (some p) f r = rw f (ground arith)

    on_message-IsTold :
        (σ : ℕ) (event : Option Json)
        → s.map_id ≡ some m
        → IsValid s
        → IsTold (announced_by m (message σ event) s n) (on_message σ event s)
    unfolding on_message
    on_message-IsTold σ event f v = ground (arith, handle_event-IsTold (parse_payload event) f)

    reconnect_timeout-IsTold : (t : ℕ) → IsTold n (reconnect_timeout t s)
    unfolding reconnect_timeout
    reconnect_timeout-IsTold t = ground arith

    retry_timeout-IsTold : (t : ℕ) → IsTold n (retry_timeout t s)
    unfolding retry_timeout
    retry_timeout-IsTold t = ground arith

    on_loaded-IsTold : (r : SnapshotLoadResult N) → IsTold n (on_loaded r s)
    unfolding on_loaded
    on_loaded-IsTold r = ground arith

    on_load_failed-IsTold : (c : C) → IsTold n (on_load_failed c s)
    unfolding on_load_failed
    on_load_failed-IsTold c = ground arith

    on_load_finished-IsTold : IsTold n (on_load_finished s)
    unfolding on_load_finished
    on_load_finished-IsTold = ground arith

    step-IsTold :
        (e : Event N C) → s.map_id ≡ some m → IsValid s → IsTold (announced_by m e s n) (step e s)
    step-IsTold (started x) f v = start-IsTold x
    step-IsTold disposed f v = dispose-IsTold
    step-IsTold (source_opened σ) f v = on_open-IsTold σ
    step-IsTold (source_failed σ) f v = on_error-IsTold σ
    step-IsTold (message σ event) f v = on_message-IsTold σ event f v
    step-IsTold (reconnect_due t) f v = reconnect_timeout-IsTold t
    step-IsTold (retry_due t) f v = retry_timeout-IsTold t
    step-IsTold (loaded r) f v = on_loaded-IsTold r
    step-IsTold (load_failed c) f v = on_load_failed-IsTold c
    step-IsTold load_finished f v = on_load_finished-IsTold

  run_from-IsTold :
      (m : Text) (n : ℕ) (s : Sync N C) (es : List (Event N C))
      → AllOfMap m es
      → IsValid s
      → IsRecovering m s
      → IsTold n s
      → IsTold (announced m n s es) (run s es)
  unfolding run
  run_from-IsTold m n s [] o v f h = h
  run_from-IsTold m n s (e ∷ es) (o, os) v f h =
      run_from-IsTold m (announced_by m e s n) (step e s) es os (step-IsValid e s v)
        (step-IsRecovering m e s o v f) (step-IsTold m n s h e f.follows v)

  pub run-IsTold :
      (x : Snapshot N) (es : List (Event N C))
      → AllOfMap x.map.id es
      → IsTold (announced x.map.id x.revision (start x new) es) (run (start x new) es)
  unfolding start
  run-IsTold x es o =
      run_from-IsTold x.map.id x.revision (start x new) es o
        (step-IsValid (started x) new new-IsValid) (start-IsRecovering x.map.id x new refl)
        (record { no_more = ground arith; no_less = ground arith })
