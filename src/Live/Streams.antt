-- ===== src/Live/Streams.antt =====
-- The resources of the live connection between two events: at most one open stream, at most one
-- pending timer of each kind, at most one load, and nothing of a stopped object but a load that
-- still runs.
use network_topology_map.Prelude.{
  ℕ, ◌+◌, ◌≡◌, true, Option, none, some, List, [], ◌∷◌, arith, if◌then◌else◌,
}
use network_topology_map.Prelude.Timer.{Owns}
use network_topology_map.Types.{Snapshot}
use network_topology_map.Json.{Json}
use network_topology_map.Snapshot.{SnapshotLoadResult}
use network_topology_map.Live.Defs.{
  Sync, new, EventPayload, parse_payload, start, dispose, handle_event, on_open, on_error,
  on_message, reconnect_timeout, retry_timeout, on_loaded, on_load_failed, on_load_finished, Event,
  step, run, started, disposed, source_opened, source_failed, message, reconnect_due, retry_due,
  loaded, load_failed, load_finished,
}

-- The open streams are the one in the field.
abbrev Holds : Option ℕ → List ℕ → Type 0
Holds none open_ = open_ ≡ []
Holds (some σ) open_ = open_ ≡ σ ∷ []

-- The reconnect timer waits for the stream in the field.
abbrev Awaits : Option ℕ → Option ℕ → List (ℕ × ℕ) → Type 0
Awaits none source ts = ts ≡ []
Awaits (some t) source ts = (σ : ℕ) × (ts ≡ (t, σ) ∷ []) × (source ≡ some σ)

module _ {N C : Type 0} where
  pub record IsValid (s : Sync N C) : Type 0 where
    pub one_stream : Holds s.source s.open_sources
    pub one_reconnect : Awaits s.reconnect_timer s.source s.reconnect_timers.pending
    pub one_retry : Owns s.refresh_retry_timer s.retry_timers.pending
    pub one_load : s.loading + s.settling ≡ (if s.refreshing then 1 else 0)
    pub stopped_released :
        s.stopped ≡ true
        → (s.source ≡ none) × (s.reconnect_timer ≡ none) × (s.refresh_retry_timer ≡ none)

  pub new-IsValid : IsValid new
  new-IsValid = ground arith

  start-IsValid : (x : Snapshot N) (s : Sync N C) → IsValid s → IsValid (start x s)
  unfolding start
  start-IsValid x s v = ground arith

  dispose-IsValid : (s : Sync N C) → IsValid s → IsValid (dispose s)
  unfolding dispose
  dispose-IsValid s v = ground arith

  on_open-IsValid : (σ : ℕ) (s : Sync N C) → IsValid s → IsValid (on_open σ s)
  unfolding on_open
  on_open-IsValid σ s v = ground arith

  on_error-IsValid : (σ : ℕ) (s : Sync N C) → IsValid s → IsValid (on_error σ s)
  unfolding on_error
  on_error-IsValid σ s v = ground arith

  handle_event-IsValid :
      (p : Option EventPayload) (s : Sync N C) → IsValid s → IsValid (handle_event p s)
  unfolding handle_event
  handle_event-IsValid p s v = ground arith

  on_message-IsValid :
      (σ : ℕ) (event : Option Json) (s : Sync N C) → IsValid s → IsValid (on_message σ event s)
  unfolding on_message
  on_message-IsValid σ event s v = ground (arith, handle_event-IsValid (parse_payload event) s v)

  reconnect_timeout-IsValid : (t : ℕ) (s : Sync N C) → IsValid s → IsValid (reconnect_timeout t s)
  unfolding reconnect_timeout
  reconnect_timeout-IsValid t s v = ground arith

  retry_timeout-IsValid : (t : ℕ) (s : Sync N C) → IsValid s → IsValid (retry_timeout t s)
  unfolding retry_timeout
  retry_timeout-IsValid t s v = ground arith

  on_loaded-IsValid :
      (r : SnapshotLoadResult N) (s : Sync N C) → IsValid s → IsValid (on_loaded r s)
  unfolding on_loaded
  on_loaded-IsValid r s v = ground arith

  on_load_failed-IsValid : (c : C) (s : Sync N C) → IsValid s → IsValid (on_load_failed c s)
  unfolding on_load_failed
  on_load_failed-IsValid c s v = ground arith

  on_load_finished-IsValid : (s : Sync N C) → IsValid s → IsValid (on_load_finished s)
  unfolding on_load_finished
  on_load_finished-IsValid s v = ground arith

  pub step-IsValid : (e : Event N C) (s : Sync N C) → IsValid s → IsValid (step e s)
  step-IsValid (started x) s v = start-IsValid x s v
  step-IsValid disposed s v = dispose-IsValid s v
  step-IsValid (source_opened σ) s v = on_open-IsValid σ s v
  step-IsValid (source_failed σ) s v = on_error-IsValid σ s v
  step-IsValid (message σ event) s v = on_message-IsValid σ event s v
  step-IsValid (reconnect_due t) s v = reconnect_timeout-IsValid t s v
  step-IsValid (retry_due t) s v = retry_timeout-IsValid t s v
  step-IsValid (loaded r) s v = on_loaded-IsValid r s v
  step-IsValid (load_failed c) s v = on_load_failed-IsValid c s v
  step-IsValid load_finished s v = on_load_finished-IsValid s v

  pub run_from-IsValid : (s : Sync N C) (es : List (Event N C)) → IsValid s → IsValid (run s es)
  unfolding run
  run_from-IsValid s [] v = v
  run_from-IsValid s (e ∷ es) v = run_from-IsValid (step e s) es (step-IsValid e s v)

  -- After any events of a new object, in any order: the open streams are exactly the one it holds,
  -- so there is at most one; a reconnect timer is pending only under the handle it holds, and for
  -- the stream it holds; likewise the retry timer; at most one load runs, exactly while
  -- `refreshing` is set; and a stopped object holds no stream and no timer.
  pub run-IsValid : (es : List (Event N C)) → IsValid (run new es)
  run-IsValid es = run_from-IsValid new es new-IsValid
