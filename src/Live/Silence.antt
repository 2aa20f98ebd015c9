-- ===== src/Live/Silence.antt =====
-- A stopped object is silent: until it is started again, whatever still fires, answers or arrives,
-- it shows nothing, opens no stream, sets no timer and starts no load.
use network_topology_map.Prelude.{ℕ, ◌≤◌, ◌≡◌, true, Option, none, List, [], ◌∷◌, arith}
use network_topology_map.Json.{Json}
use network_topology_map.Snapshot.{SnapshotLoadResult}
use network_topology_map.Live.Defs.{
  Sync, new, dispose, on_open, on_error, on_message, reconnect_timeout, retry_timeout, on_loaded,
  on_load_failed, on_load_finished, Event, run, started, disposed, source_opened, source_failed,
  message, reconnect_due, retry_due, loaded, load_failed, load_finished,
}
use network_topology_map.Live.Streams.{IsValid, run-IsValid}

module _ {N C : Type 0} where
  -- No event starts the object again.
  abbrev pub NoStart : List (Event N C) → Type 0
  NoStart [] = Unit
  NoStart (started x ∷ es) = ⊥
  NoStart (_ ∷ es) = NoStart es

  -- `t` is stopped, holds nothing, and has done nothing that `s` had not.
  pub record IsQuietSince (s t : Sync N C) : Type 0 where
    pub stopped : t.stopped ≡ true
    pub no_source : t.source ≡ none
    pub no_stream : t.open_sources ≡ []
    pub no_reconnect : t.reconnect_timers.pending ≡ []
    pub no_retry : t.retry_timers.pending ≡ []
    pub no_effect : t.effects ≡ s.effects
    pub no_new_stream : t.next_source ≡ s.next_source
    pub no_new_load : t.loading ≤ s.loading

  dispose-IsQuiet : (s : Sync N C) → IsValid s → IsQuietSince s (dispose s)
  unfolding dispose
  dispose-IsQuiet s v = ground arith

  module _ (s t : Sync N C) (q : IsQuietSince s t) where
    quiet_dispose : IsQuietSince s (dispose t)
    unfolding dispose
    quiet_dispose = ground arith

    quiet_open : (σ : ℕ) → IsQuietSince s (on_open σ t)
    unfolding on_open
    quiet_open σ = ground arith

    quiet_error : (σ : ℕ) → IsQuietSince s (on_error σ t)
    unfolding on_error
    quiet_error σ = ground arith

    quiet_message : (σ : ℕ) (event : Option Json) → IsQuietSince s (on_message σ event t)
    unfolding on_message
    quiet_message σ event = ground arith

    quiet_reconnect : (u : ℕ) → IsQuietSince s (reconnect_timeout u t)
    unfolding reconnect_timeout
    quiet_reconnect u = ground arith

    quiet_retry : (u : ℕ) → IsQuietSince s (retry_timeout u t)
    unfolding retry_timeout
    quiet_retry u = ground arith

    quiet_loaded : (r : SnapshotLoadResult N) → IsQuietSince s (on_loaded r t)
    unfolding on_loaded
    quiet_loaded r = ground arith

    quiet_failed : (c : C) → IsQuietSince s (on_load_failed c t)
    unfolding on_load_failed
    quiet_failed c = ground arith

    quiet_finished : IsQuietSince s (on_load_finished t)
    unfolding on_load_finished
    quiet_finished = ground arith

  quiet_run :
      (s t : Sync N C) (es : List (Event N C))
      → NoStart es
      → IsQuietSince s t
      → IsQuietSince s (run t es)
  unfolding run
  quiet_run s t [] n q = q
  quiet_run s t (started x ∷ es) n q = absurd n
  quiet_run s t (disposed ∷ es) n q = quiet_run s (dispose t) es n (quiet_dispose s t q)
  quiet_run s t (source_opened σ ∷ es) n q = quiet_run s (on_open σ t) es n (quiet_open s t q σ)
  quiet_run s t (source_failed σ ∷ es) n q = quiet_run s (on_error σ t) es n (quiet_error s t q σ)
  quiet_run s t (message σ event ∷ es) n q =
      quiet_run s (on_message σ event t) es n (quiet_message s t q σ event)
  quiet_run s t (reconnect_due u ∷ es) n q =
      quiet_run s (reconnect_timeout u t) es n (quiet_reconnect s t q u)
  quiet_run s t (retry_due u ∷ es) n q = quiet_run s (retry_timeout u t) es n (quiet_retry s t q u)
  quiet_run s t (loaded r ∷ es) n q = quiet_run s (on_loaded r t) es n (quiet_loaded s t q r)
  quiet_run s t (load_failed c ∷ es) n q =
      quiet_run s (on_load_failed c t) es n (quiet_failed s t q c)
  quiet_run s t (load_finished ∷ es) n q =
      quiet_run s (on_load_finished t) es n (quiet_finished s t q)

  -- After any events of a new object and a `dispose`, and then any events but a new start: the
  -- object holds no stream and no timer, and since the `dispose` it has had no effect, opened no
  -- stream and started no load.
  pub dispose_silences :
      (es fs : List (Event N C))
      → NoStart fs
      → IsQuietSince (run new es) (run (dispose (run new es)) fs)
  dispose_silences es fs n =
      let s = run new es in quiet_run s (dispose s) fs n (dispose-IsQuiet s (run-IsValid es))
