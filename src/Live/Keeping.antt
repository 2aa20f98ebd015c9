-- ===== src/Live/Keeping.antt =====
-- The page keeps up with what its live connection was told.
use network_topology_map.Prelude.{
  ℕ, ◌≡◌, ◌≤◌, ◌<◌, ◌⊎◌, refl, ap, ◌∙◌, true, false, some, List, [], ◌∷◌, Text, All, ltb,
  Bool-cases, inl, inr, arith,
}
use network_topology_map.Types.{Snapshot}
use network_topology_map.Snapshot.{View, SnapshotLoadResult}
use network_topology_map.Snapshot.Order.{IsCoherent, drawn_of_StandsAt}
use network_topology_map.Live.Defs.{
  Sync, Event, start, run, started, disposed, source_opened, source_failed, message, reconnect_due,
  retry_due, loaded, load_failed, load_finished,
}
use network_topology_map.Live.Recovery.{WillLoad, IsRecovering, OfMap, AllOfMap, run-IsRecovering}
use network_topology_map.Live.Announced.{announced, IsTold, run-IsTold}
use network_topology_map.Live.CatchingUp.{AllProgress, CatchesUp, run-CatchesUp}
use network_topology_map.Live.Page.{
  LivePage, LivePageEvent, live, own, connect_page, live_page_step, live_page_run,
}
use network_topology_map.Live.Showing.{IsLater, IsOnMap, IsShowing, live_page_step-IsShowing}

module _ {N C : Type 0} where
  live_page_run_from-IsShowing :
      (m : Text) (es : List (LivePageEvent N C)) (p : LivePage N C)
      → All (IsOnMap m) es
      → IsShowing m p
      → IsShowing m (live_page_run p es)
  unfolding live_page_run
  live_page_run_from-IsShowing m [] p on h = h
  live_page_run_from-IsShowing m (e ∷ es) p (o, on) h =
      live_page_run_from-IsShowing m es (live_page_step e p) on (live_page_step-IsShowing m e p o h)

  -- The events of the connection.
  abbrev pub live_events : List (LivePageEvent N C) → List (Event N C)
  live_events [] = []
  live_events (live e ∷ es) = e ∷ live_events es
  live_events (own t ∷ es) = live_events es

  live_page_run-sync :
      (es : List (LivePageEvent N C)) (p : LivePage N C)
      → (live_page_run p es).sync ≡ run p.sync (live_events es)
  unfolding live_page_run live_page_step run
  live_page_run-sync [] p = refl
  live_page_run-sync (live e ∷ es) p = live_page_run-sync es (live_page_step (live e) p)
  live_page_run-sync (own t ∷ es) p = live_page_run-sync es (live_page_step (own t) p)

  IsLater-OfMap : (m : Text) (e : Event N C) → IsLater m e → OfMap m e
  IsLater-OfMap m (started x) h = absurd h
  IsLater-OfMap m (loaded r) h = h
  IsLater-OfMap m disposed h = tt
  IsLater-OfMap m (source_opened σ) h = tt
  IsLater-OfMap m (source_failed σ) h = tt
  IsLater-OfMap m (message σ event) h = tt
  IsLater-OfMap m (reconnect_due t) h = tt
  IsLater-OfMap m (retry_due t) h = tt
  IsLater-OfMap m (load_failed cause) h = tt
  IsLater-OfMap m load_finished h = tt

  live_events-AllOfMap :
      (m : Text) (es : List (LivePageEvent N C)) → All (IsOnMap m) es → AllOfMap m (live_events es)
  live_events-AllOfMap m [] on = tt
  live_events-AllOfMap m (live e ∷ es) (o, on) = (IsLater-OfMap m e o, live_events-AllOfMap m es on)
  live_events-AllOfMap m (own t ∷ es) (o, on) = live_events-AllOfMap m es on

  connect_page-IsShowing :
      (x : Snapshot N) (v : View N)
      → v.snapshot ≡ some x
      → IsCoherent v
      → IsShowing {C = C} x.map.id (connect_page x v)
  unfolding connect_page start
  connect_page-IsShowing x v drawn h = record {
    revision = x.revision;
    coherent = h;
    stands = rw drawn at h;
    covers = ground arith;
  }

  -- The highest revision announced to the connection of a page that draws `x`.
  abbrev pub announced_to : Snapshot N → View N → List (LivePageEvent N C) → ℕ
  announced_to x v es =
      announced x.map.id x.revision (connect_page {C = C} x v).sync (live_events es)

  -- The connection is stopped, or it will load, or the snapshot has the revision `n` or a later one.
  abbrev pub IsKeptUp : ℕ → Sync N C → Snapshot N → Type 0
  IsKeptUp n s x = (s.stopped ≡ true) ⊎ WillLoad s ⊎ (n ≤ x.revision)

  kept_up :
      (n : ℕ) (s : Sync N C) (x : Snapshot N)
      → IsTold n s
      → s.applied_revision ≤ x.revision
      → (s.stopped ≡ false → s.applied_revision < s.required_revision → WillLoad s)
      → IsKeptUp n s x
  kept_up n s x told applied loads = elim (Bool-cases s.stopped) [
    | inl e ↦ inl e
    | inr e ↦ elim (Bool-cases (ltb s.applied_revision s.required_revision)) [
      | inl behind ↦ inr (inl (loads e (ground arith)))
      | inr level ↦ inr (inr (ground (arith, told.no_less)))
    ]
  ]

  -- A page that draws a snapshot, connected for it, after any events of the connection and any
  -- traffic of the page's own loads, all of that map: the page draws that map, at no older revision
  -- than the connection has applied; and unless the connection is stopped, a load of it runs, is
  -- queued or is to be tried again, or the page draws the highest revision that was announced to it, by
  -- its first snapshot or by a message for that map on its stream, or a later one.
  pub live_page_run-IsKeptUp :
      (x : Snapshot N) (v : View N) (es : List (LivePageEvent N C))
      → v.snapshot ≡ some x
      → IsCoherent v
      → All (IsOnMap x.map.id) es
      → let p : LivePage N C = live_page_run (connect_page x v) es in
        (s : Snapshot N) × (p.view.snapshot ≡ some s)
        × (s.map.id ≡ x.map.id)
        × (p.sync.applied_revision ≤ s.revision)
        × IsKeptUp (announced_to x v es) p.sync s
  unfolding connect_page
  live_page_run-IsKeptUp x v es drawn h on =
      let p : LivePage N C = live_page_run (connect_page x v) es in
      let shows =
        live_page_run_from-IsShowing x.map.id es (connect_page x v) on
          (connect_page-IsShowing x v drawn h) in
      let (s, shown, same, at) =
        drawn_of_StandsAt p.view.coordinator p.view.snapshot x.map.id shows.revision shows.coherent
          shows.stands in
      let applied : p.sync.applied_revision ≤ s.revision = rw at shows.covers in
      let recovers : IsRecovering x.map.id p.sync =
        rw (live_page_run-sync es (connect_page x v))
          (run-IsRecovering x (live_events es) (live_events-AllOfMap x.map.id es on)) in
      let told : IsTold (announced_to x v es) p.sync =
        rw (live_page_run-sync es (connect_page x v))
          (run-IsTold x (live_events es) (live_events-AllOfMap x.map.id es on)) in
      (
        s,
        shown,
        same,
        applied,
        kept_up (announced_to x v es) p.sync s told applied recovers.will_load,
      )

  -- the progress of the connection, on the page
  abbrev pub on_page : List (Event N C) → List (LivePageEvent N C)
  on_page [] = []
  on_page (e ∷ es) = live e ∷ on_page es

  live_events-on_page : (es : List (Event N C)) → live_events (on_page es) ≡ es
  live_events-on_page [] = refl
  live_events-on_page (e ∷ es) = ap (λ (w : List (Event N C)). e ∷ w) (live_events-on_page es)

  progress-IsOnMap :
      (r : SnapshotLoadResult N) (es : List (Event N C))
      → AllProgress r es
      → All (IsOnMap r.snapshot.map.id) (on_page es)
  progress-IsOnMap r [] h = tt
  progress-IsOnMap r (loaded r' ∷ es) (e, h) =
      (ap (λ (q : SnapshotLoadResult N). q.snapshot.map.id) e, progress-IsOnMap r es h)
  progress-IsOnMap r (retry_due t ∷ es) (e, h) = (tt, progress-IsOnMap r es h)
  progress-IsOnMap r (load_finished ∷ es) (e, h) = (tt, progress-IsOnMap r es h)
  progress-IsOnMap r (started x ∷ es) (e, h) = absurd e
  progress-IsOnMap r (disposed ∷ es) (e, h) = absurd e
  progress-IsOnMap r (source_opened σ ∷ es) (e, h) = absurd e
  progress-IsOnMap r (source_failed σ ∷ es) (e, h) = absurd e
  progress-IsOnMap r (message σ event ∷ es) (e, h) = absurd e
  progress-IsOnMap r (reconnect_due t ∷ es) (e, h) = absurd e
  progress-IsOnMap r (load_failed cause ∷ es) (e, h) = absurd e

  -- Some progress of the environment has the page draw the revision `n` or a later one.
  pub record ShowsAll (n : ℕ) (r : SnapshotLoadResult N) (p : LivePage N C) : Type 0 where
    pub events : List (Event N C)
    pub progress : AllProgress r events
    pub drawn : Snapshot N
    pub draws : (live_page_run p (on_page events)).view.snapshot ≡ some drawn
    pub newest : n ≤ drawn.revision

  shows_all :
      (n : ℕ) (r : SnapshotLoadResult N) (p : LivePage N C)
      → IsShowing r.snapshot.map.id p
      → CatchesUp n r p.sync
      → ShowsAll n r p
  shows_all n r p h c =
      let q = live_page_run p (on_page c.events) in
      let shows =
        live_page_run_from-IsShowing r.snapshot.map.id (on_page c.events) p
          (progress-IsOnMap r c.events c.progress) h in
      let (s, shown, same, at) =
        drawn_of_StandsAt q.view.coordinator q.view.snapshot r.snapshot.map.id shows.revision
          shows.coherent shows.stands in
      let ran : q.sync ≡ run p.sync c.events =
        live_page_run-sync (on_page c.events) p ∙ ap (run p.sync) (live_events-on_page c.events) in
      let applied : n ≤ q.sync.applied_revision = rw ran c.applies in
      let covered = shows.covers in
      record {
        events = c.events;
        progress = c.progress;
        drawn = s;
        draws = shown;
        newest = rw at (ground (arith, applied, covered));
      }

  -- A page that draws a snapshot, connected for it, after any events of the connection and any
  -- traffic of the page's own loads, all of that map, while the connection runs and has not
  -- applied the highest revision that was announced to it, by its first snapshot or by a message for
  -- that map on its stream: by steps of the environment alone (a `finally` that runs, a retry timer
  -- that fires, a load that answers with a snapshot of the map at that revision or a later one) the
  -- page draws that revision or a later one.
  pub live_page_run-ShowsAll :
      (x : Snapshot N) (v : View N) (es : List (LivePageEvent N C)) (r : SnapshotLoadResult N)
      → v.snapshot ≡ some x
      → IsCoherent v
      → All (IsOnMap x.map.id) es
      → r.snapshot.map.id ≡ x.map.id
      → let p : LivePage N C = live_page_run (connect_page x v) es in
        p.sync.stopped ≡ false
        → p.sync.applied_revision < announced_to x v es
        → announced_to x v es ≤ r.snapshot.revision
        → ShowsAll (announced_to x v es) r p
  unfolding connect_page
  live_page_run-ShowsAll x v es r drawn h on same running behind enough =
      let p : LivePage N C = live_page_run (connect_page x v) es in
      let ran = live_page_run-sync es (connect_page x v) in
      let shows =
        live_page_run_from-IsShowing x.map.id es (connect_page x v) on
          (connect_page-IsShowing x v drawn h) in
      shows_all (announced_to x v es) r p (rw same shows) (
        rw ran (
          run-CatchesUp x (live_events es) r (live_events-AllOfMap x.map.id es on)
            (rw ran at running) (rw ran at behind) same enough))
