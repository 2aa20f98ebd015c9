-- ===== src/Snapshot/Tickets.antt =====
-- Which response is applied, in terms of the tickets that `begin_request` gives out.
use network_topology_map.Prelude.{
  ◌≤◌, ◌<◌, ◌≡◌, ◌↔◌, ◌⊎◌, inl, inr, true, some, arith, id_eq, id_eq_iff, id_eq-ne, id_eq_refl,
  false, Bool-cases,
}
use network_topology_map.Prelude.Int.{pos, ◌<ℤ◌}
use network_topology_map.Types.{Snapshot}
use network_topology_map.Snapshot.{
  SnapshotCoordinator, SnapshotRequest, begin_request, should_apply,
}

-- Every ticket seen so far has been given out, and the newest of them is known.
pub record IsCounting (c : SnapshotCoordinator) : Type 0 where
  pub newest : c.latest_started_generation ≡ c.next_generation
  pub applied : c.applied_generation ≤ c.latest_started_generation

begin_request-IsCounting : (c : SnapshotCoordinator) → IsCounting c → IsCounting (begin_request c).0
unfolding begin_request
begin_request-IsCounting c h = ground arith

should_apply-IsCounting :
    {N : Type 0} (s : Snapshot N) (r : SnapshotRequest) (c : SnapshotCoordinator)
    → IsCounting c
    → IsCounting (should_apply s r c).0
unfolding should_apply
should_apply-IsCounting s r c h = ground arith

-- The response is of the map that is shown, and newer.
abbrev pub IsNewer : {N : Type 0} → Snapshot N → SnapshotCoordinator → Type 0
IsNewer s c = (c.map_id ≡ some s.map.id) × (c.revision <ℤ pos s.revision)

-- The response is of the map that is shown, and older.
abbrev pub IsOlder : {N : Type 0} → Snapshot N → SnapshotCoordinator → Type 0
IsOlder s c = (c.map_id ≡ some s.map.id) × (pos s.revision <ℤ c.revision)

-- For a ticket that the coordinator gave out: a response is applied exactly when it is newer than
-- the map shown, or when it is not older and answers the request that started last.
pub should_apply_iff :
    {N : Type 0} (s : Snapshot N) (r : SnapshotRequest) (c : SnapshotCoordinator)
    → IsCounting c
    → r.generation ≤ c.next_generation
    → ((should_apply s r c).1 ≡ true)
      ↔ (IsNewer s c ⊎ (¬ IsOlder s c × (r.generation ≡ c.next_generation)))
unfolding should_apply
should_apply_iff s r c h issued = elim (Bool-cases (id_eq c.map_id (some s.map.id))) [
  | inl same ↦ let e = (id_eq_iff _ _).0 same in ground arith
  | inr other ↦ let ne = id_eq-ne c.map_id (some s.map.id) other in ground arith
]

-- A response that is applied beats every earlier request of the same map whose answer is no newer:
-- that answer is refused when it arrives, and nothing that the page shows changes.
pub should_apply_settles :
    {N : Type 0} (s s' : Snapshot N) (r r' : SnapshotRequest) (c : SnapshotCoordinator)
    → (should_apply s r c).1 ≡ true
    → s'.map.id ≡ s.map.id
    → s'.revision ≤ s.revision
    → r'.generation < r.generation
    → let c' = (should_apply s r c).0 in
      ((should_apply s' r' c').1 ≡ false)
      × ((should_apply s' r' c').0.map_id ≡ c'.map_id)
      × ((should_apply s' r' c').0.revision ≡ c'.revision)
      × ((should_apply s' r' c').0.applied_generation ≡ c'.applied_generation)
unfolding should_apply
should_apply_settles s s' r r' c accepted same older earlier =
    elim (Bool-cases (id_eq c.map_id (some s.map.id))) [
      | inl e ↦ let e' = (id_eq_iff _ _).0 e in ground (arith, id_eq_refl (some s.map.id))
      | inr ne ↦ ground (arith, id_eq_refl (some s.map.id))
    ]
