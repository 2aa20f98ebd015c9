-- ===== src/Live/Showing.antt =====
-- What the page draws while its live connection runs.
use network_topology_map.Prelude.{
  ℕ, ◌≡◌, ◌≤◌, ◌⊎◌, max, Bool, true, false, Option, none, some, [], ◌∷◌, Text, ltb, inl, inr, arith,
}
use network_topology_map.Json.{Json}
use network_topology_map.Snapshot.{View, SnapshotLoadResult, Traffic, arrive, serve}
use network_topology_map.Snapshot.{start as begins}
use network_topology_map.Snapshot.Order.{
  IsCoherent, StandsAt, OnMap, newest, serve-IsCoherent, serve-StandsAt, apply_snapshot-IsCoherent,
  apply_snapshot-StandsAt,
}
use network_topology_map.Live.Defs.{
  Sync, Event, step, on_open, on_error, on_message, reconnect_timeout, retry_timeout, on_loaded,
  on_load_failed, on_load_finished, dispose, started, disposed, source_opened, source_failed,
  message, reconnect_due, retry_due, loaded, load_failed, load_finished,
}
use network_topology_map.Live.Page.{
  LivePage, LivePageEvent, live, own, delivery, on_load, live_page_step,
}

module _ {N C : Type 0} where
  -- The step delivers nothing and applies nothing.
  abbrev IsQuiet : Sync N C → Sync N C → Type 0
  IsQuiet s s' = (delivery s s' ≡ none) × (s'.applied_revision ≡ s.applied_revision)

  on_open-IsQuiet : (σ : ℕ) (s : Sync N C) → IsQuiet s (on_open σ s)
  unfolding on_open
  on_open-IsQuiet σ s = ground arith

  dispose-IsQuiet : (s : Sync N C) → IsQuiet s (dispose s)
  unfolding dispose
  dispose-IsQuiet s = ground arith

  on_error-IsQuiet : (σ : ℕ) (s : Sync N C) → IsQuiet s (on_error σ s)
  unfolding on_error
  on_error-IsQuiet σ s = ground arith

  on_message-IsQuiet :
      (σ : ℕ) (event : Option Json) (s : Sync N C) → IsQuiet s (on_message σ event s)
  unfolding on_message
  on_message-IsQuiet σ event s = ground arith

  reconnect_timeout-IsQuiet : (t : ℕ) (s : Sync N C) → IsQuiet s (reconnect_timeout t s)
  unfolding reconnect_timeout
  reconnect_timeout-IsQuiet t s = ground arith

  retry_timeout-IsQuiet : (t : ℕ) (s : Sync N C) → IsQuiet s (retry_timeout t s)
  unfolding retry_timeout
  retry_timeout-IsQuiet t s = ground arith

  on_load_failed-IsQuiet : (cause : C) (s : Sync N C) → IsQuiet s (on_load_failed cause s)
  unfolding on_load_failed
  on_load_failed-IsQuiet cause s = ground arith

  on_load_finished-IsQuiet : (s : Sync N C) → IsQuiet s (on_load_finished s)
  unfolding on_load_finished
  on_load_finished-IsQuiet s = ground arith

  -- An answer is delivered, and then applied, or neither.
  on_loaded-delivery :
      (r : SnapshotLoadResult N) (s : Sync N C)
      → IsQuiet s (on_loaded r s)
        ⊎ ((delivery s (on_loaded r s) ≡ some r)
            × ((on_loaded r s).applied_revision ≡ max s.applied_revision r.snapshot.revision))
  unfolding on_loaded
  on_loaded-delivery r s = ground arith

  -- The event is no second start, and a snapshot that it brings is of the map `m`.
  abbrev pub IsLater : Text → Event N C → Type 0
  IsLater m (started x) = ⊥
  IsLater m (loaded r) = r.snapshot.map.id ≡ m
  IsLater m _ = Unit

  abbrev Delivers : Text → Sync N C → Sync N C → Type 0
  Delivers m s s' =
      (r : SnapshotLoadResult N) × (r.snapshot.map.id ≡ m)
      × (delivery s s' ≡ some r)
      × (s'.applied_revision ≡ max s.applied_revision r.snapshot.revision)

  step-delivery :
      (m : Text) (e : Event N C) (s : Sync N C)
      → IsLater m e
      → IsQuiet s (step e s) ⊎ Delivers m s (step e s)
  step-delivery m (started x) s h = absurd h
  step-delivery m disposed s h = inl (dispose-IsQuiet s)
  step-delivery m (source_opened σ) s h = inl (on_open-IsQuiet σ s)
  step-delivery m (source_failed σ) s h = inl (on_error-IsQuiet σ s)
  step-delivery m (message σ event) s h = inl (on_message-IsQuiet σ event s)
  step-delivery m (reconnect_due t) s h = inl (reconnect_timeout-IsQuiet t s)
  step-delivery m (retry_due t) s h = inl (retry_timeout-IsQuiet t s)
  step-delivery m (load_failed cause) s h = inl (on_load_failed-IsQuiet cause s)
  step-delivery m load_finished s h = inl (on_load_finished-IsQuiet s)
  step-delivery m (loaded r) s h = elim (on_loaded-delivery r s) [
    | inl quiet ↦ inl quiet
    | inr (d, a) ↦ inr (r, h, d, a)
  ]

  -- The page draws the map `m`, at a revision that the connection has not gone beyond.
  pub record IsShowing (m : Text) (p : LivePage N C) : Type 0 where
    pub revision : ℕ
    pub coherent : IsCoherent p.view
    pub stands : StandsAt p.view.coordinator m revision
    pub covers : p.sync.applied_revision ≤ revision

  -- The event brings only snapshots of the map `m`, and does not start the connection again.
  abbrev pub IsOnMap : Text → LivePageEvent N C → Type 0
  IsOnMap m (live e) = IsLater m e
  IsOnMap m (own t) = OnMap m (t ∷ [])

on_load-IsCoherent :
    {N : Type 0} (calls : Bool) (v : View N) → IsCoherent v → IsCoherent (on_load calls v)
unfolding serve
on_load-IsCoherent false v h = h
on_load-IsCoherent true v h = serve-IsCoherent v (begins ∷ []) h

on_load-StandsAt :
    {N : Type 0} (calls : Bool) (v : View N) (m : Text) (n : ℕ)
    → StandsAt v.coordinator m n
    → StandsAt (on_load calls v).coordinator m n
unfolding serve
on_load-StandsAt false v m n h = h
on_load-StandsAt true v m n h = serve-StandsAt m n v (begins ∷ []) tt h

newest_ge : {N : Type 0} (n : ℕ) (t : Traffic N) → n ≤ newest n (t ∷ [])
newest_ge n begins = ground arith
newest_ge n (arrive r) = ground arith

module _ {N C : Type 0} where
  pub live_page_step-IsShowing :
      (m : Text) (e : LivePageEvent N C) (p : LivePage N C)
      → IsOnMap m e
      → IsShowing m p
      → IsShowing m (live_page_step e p)
  unfolding live_page_step
  live_page_step-IsShowing m (own t) p on h = record {
    revision = newest h.revision (t ∷ []);
    coherent = serve-IsCoherent p.view (t ∷ []) h.coherent;
    stands = serve-StandsAt m h.revision p.view (t ∷ []) on h.stands;
    covers = ground (arith, newest_ge h.revision t, h.covers);
  }
  live_page_step-IsShowing m (live e) p on h =
      let next = step e p.sync in
      let calls = ltb p.sync.loading next.loading in
      let coherent = on_load-IsCoherent calls p.view h.coherent in
      let stands = on_load-StandsAt calls p.view m h.revision h.stands in
      elim (step-delivery m e p.sync on) [
        | inl (d, a) ↦ rw d (record {
          revision = h.revision;
          coherent = coherent;
          stands = stands;
          covers = rw a h.covers;
        })
        | inr (r, same, d, a) ↦ rw d (record {
          revision = max h.revision r.snapshot.revision;
          coherent = apply_snapshot-IsCoherent r (on_load calls p.view) coherent;
          stands = apply_snapshot-StandsAt r (on_load calls p.view) m h.revision same stands;
          covers = rw a (ground (arith, h.covers));
        })
      ]
