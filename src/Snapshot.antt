-- ===== src/Snapshot.antt =====
-- frontend/src/app/snapshotCoordinator.ts, and the two callers in frontend/src/app/App.tsx that
-- decide which fetched snapshot the map shows. A method that mutates the coordinator returns the
-- new one. The proofs are in the modules below.
pub mod Tickets
pub mod Order
mod Tests
use network_topology_map.Prelude.{
  ℕ, suc, ◌+◌, max, Bool, true, false, not, ◌||◌, Option, none, some, List, [], ◌∷◌, Text, id_eq,
  ltb, if◌then◌else◌,
}
use network_topology_map.Prelude.Int.{ℤ, pos, negsuc, ltb_ℤ}
use network_topology_map.Types.{Snapshot}

pub record SnapshotRequest : Type 0 where
  pub generation : ℕ

pub record SnapshotCoordinator : Type 0 where
  pub map_id : Option Text
  pub revision : ℤ
  pub next_generation : ℕ
  pub latest_started_generation : ℕ
  pub applied_generation : ℕ

abbrev pub new : SnapshotCoordinator
new = record {
  map_id = none;
  revision = negsuc 0;
  next_generation = 0;
  latest_started_generation = 0;
  applied_generation = 0;
}

unfoldable pub begin_request : SnapshotCoordinator → SnapshotCoordinator × SnapshotRequest
begin_request c =
    let next = c.next_generation + 1 in
    (
      record c { next_generation = next; latest_started_generation = next },
      record { generation = next },
    )

-- the two lines of `shouldApply` that run whatever it returns
abbrev observe : ℕ → SnapshotCoordinator → SnapshotCoordinator
observe generation c = record c {
  next_generation = max c.next_generation generation;
  latest_started_generation = max c.latest_started_generation generation;
}

-- the snapshot of a map that is not the one shown
abbrev apply_other_map :
    {N : Type 0} → Snapshot N → ℕ → SnapshotCoordinator → SnapshotCoordinator × Bool
apply_other_map s generation c =
    if ltb generation c.latest_started_generation then (c, false) else (
      record c {
        map_id = some s.map.id;
        revision = pos s.revision;
        applied_generation = generation;
      },
      true,
    )

abbrev apply_same_map :
    {N : Type 0} → Snapshot N → ℕ → SnapshotCoordinator → SnapshotCoordinator × Bool
apply_same_map s generation c =
    if ltb_ℤ c.revision (pos s.revision)
    then (
      record c {
        revision = pos s.revision;
        applied_generation = max c.applied_generation generation;
      },
      true,
    )
    else if ltb_ℤ (pos s.revision) c.revision
    then (c, false)
    else if ltb generation c.latest_started_generation || ltb generation c.applied_generation
    then (c, false)
    else (record c { applied_generation = generation }, true)

pub should_apply :
    {N : Type 0} → Snapshot N → SnapshotRequest → SnapshotCoordinator → SnapshotCoordinator × Bool
should_apply s request c =
    let c' = observe request.generation c in
    if not (id_eq c'.map_id (some s.map.id))
    then apply_other_map s request.generation c'
    else apply_same_map s request.generation c'

-- What the page holds: the coordinator, and the snapshot that is drawn.
pub record View (N : Type 0) : Type 0 where
  pub coordinator : SnapshotCoordinator
  pub snapshot : Option (Snapshot N)

abbrev pub blank : {N : Type 0} → View N
blank = record { coordinator = new; snapshot = none }

pub record SnapshotLoadResult (N : Type 0) : Type 0 where
  pub snapshot : Snapshot N
  pub request : SnapshotRequest

-- `applySnapshot` of App.tsx
pub apply_snapshot : {N : Type 0} → SnapshotLoadResult N → View N → View N × Bool
unfolding should_apply
apply_snapshot r v =
    let (c, accepted) = should_apply r.snapshot r.request v.coordinator in
    if accepted
    then (record { coordinator = c; snapshot = some r.snapshot }, true)
    else (record v { coordinator = c }, false)

-- Fetches start and their responses arrive in any order, or never.
pub data Traffic (N : Type 0) : Type 0 where
  start : Traffic N
  arrive : SnapshotLoadResult N → Traffic N

unfoldable pub serve : {N : Type 0} → View N → List (Traffic N) → View N
serve v [] = v
serve v (start ∷ es) = serve (record v { coordinator = (begin_request v.coordinator).0 }) es
serve v (arrive r ∷ es) = serve (apply_snapshot r v).0 es
