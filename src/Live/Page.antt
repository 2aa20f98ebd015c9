-- ===== src/Live/Page.antt =====
-- frontend/src/app/App.tsx: the page with its live connection. The connection calls `requestSnapshot`
-- where it starts a load, and `applySnapshot` where it delivers a snapshot; the page's own loads go on
-- beside it. A step of the connection starts one load and delivers one snapshot at most.
use network_topology_map.Prelude.{
  Bool, Option, none, some, List, [], ◌∷◌, length, ltb, ◌==◌, if◌then◌else◌,
}
use network_topology_map.Types.{Snapshot}
use network_topology_map.Snapshot.{
  View, SnapshotLoadResult, Traffic, begin_request, apply_snapshot, serve,
}
use network_topology_map.Live.Defs.{Sync, Effect, delivered, Event, step, start, new}

pub record LivePage (N C : Type 0) : Type 0 where
  pub sync : Sync N C
  pub view : View N

pub data LivePageEvent (N C : Type 0) : Type 0 where
  live : Event N C → LivePageEvent N C
  -- a load of the page itself starts or answers
  own : Traffic N → LivePageEvent N C

-- `onSnapshot`
abbrev pub on_snapshot : {N : Type 0} → Option (SnapshotLoadResult N) → View N → View N
on_snapshot none v = v
on_snapshot (some result) v = (apply_snapshot result v).0

-- `loadSnapshot` of the connection, if the step calls it
abbrev pub on_load : {N : Type 0} → Bool → View N → View N
on_load calls v = if calls then record v { coordinator = (begin_request v.coordinator).0 } else v

module _ {N C : Type 0} where
  abbrev pub head_delivery : List (Effect N C) → Option (SnapshotLoadResult N)
  head_delivery (delivered result ∷ effects) = some result
  head_delivery _ = none

  -- the snapshot that a step delivers
  abbrev pub delivery : Sync N C → Sync N C → Option (SnapshotLoadResult N)
  delivery old next =
      if length next.effects == length old.effects then none else head_delivery next.effects

  -- the effect that makes the connection, once a snapshot is drawn
  unfoldable pub connect_page : Snapshot N → View N → LivePage N C
  connect_page snapshot v = record { sync = start snapshot new; view = v }

  unfoldable pub live_page_step : LivePageEvent N C → LivePage N C → LivePage N C
  live_page_step (live e) p =
      let next = step e p.sync in
      record {
        sync = next;
        view =
            on_snapshot (delivery p.sync next) (on_load (ltb p.sync.loading next.loading) p.view);
      }
  live_page_step (own t) p = record p { view = serve p.view (t ∷ []) }

  unfoldable pub live_page_run : LivePage N C → List (LivePageEvent N C) → LivePage N C
  live_page_run p [] = p
  live_page_run p (e ∷ es) = live_page_run (live_page_step e p) es
