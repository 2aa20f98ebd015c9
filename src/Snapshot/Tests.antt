-- ===== src/Snapshot/Tests.antt =====
-- Runs of the snapshot coordinator, and its theorems at them.
use network_topology_map.Prelude.{
  ℕ, ◌≡◌, ◌↔◌, ◌⊎◌, refl, true, false, some, List, [], ◌∷◌, codes, arith, text_eq,
}
use network_topology_map.Types.{Snapshot}
use network_topology_map.Sample.{snapshot_at, answer}
use network_topology_map.Snapshot.{
  SnapshotCoordinator, View, Traffic, start, arrive, new, blank, begin_request, should_apply,
  apply_snapshot, serve,
}
use network_topology_map.Snapshot.Tickets.{IsCounting, IsNewer, IsOlder, should_apply_iff}
use network_topology_map.Snapshot.Order.{IsCoherent, serve-newest}

-- Two requests run; the page draws revision 4 of the map.
abbrev busy : SnapshotCoordinator
busy =
    (begin_request
      (begin_request
        (should_apply (snapshot_at 4) (record { generation = 1 }) (begin_request new).0).0).0).0

busy-IsCounting : IsCounting busy
unfolding begin_request should_apply text_eq
busy-IsCounting = ground arith

should_apply_iff_example :
    ((should_apply (snapshot_at 4) (record { generation = 2 }) busy).1 ≡ true) ↔ (
      IsNewer (snapshot_at 4) busy
      ⊎ (¬ IsOlder (snapshot_at 4) busy × (◌≡◌ {A = ℕ} 2 busy.next_generation)))
unfolding begin_request should_apply text_eq
should_apply_iff_example =
    should_apply_iff (snapshot_at 4) (record { generation = 2 }) busy busy-IsCounting (omega arith)

-- The earlier of the two requests has no say at the same revision, the later one has.
equal_revisions :
    ((should_apply (snapshot_at 4) (record { generation = 2 }) busy).1 ≡ false)
    × ((should_apply (snapshot_at 4) (record { generation = 3 }) busy).1 ≡ true)
unfolding begin_request should_apply text_eq
equal_revisions = (refl, refl)

abbrev drawn : View ℕ
drawn = serve blank (start ∷ arrive (answer 4 1) ∷ [])

-- Three more requests whose answers come back out of order.
abbrev out_of_order : List (Traffic ℕ)
out_of_order =
    start ∷ start ∷ arrive (answer 6 3) ∷ arrive (answer 5 2) ∷ start ∷ arrive (answer 6 4) ∷ []

drawn-IsCoherent : IsCoherent drawn
unfolding serve apply_snapshot begin_request text_eq
drawn-IsCoherent = (refl, refl)

serve-newest_example :
    (s : Snapshot ℕ) × ((serve drawn out_of_order).snapshot ≡ some s)
    × (s.map.id ≡ codes "home")
    × (s.revision ≡ 6)
unfolding serve apply_snapshot begin_request text_eq
serve-newest_example =
    serve-newest drawn (codes "home") 4 out_of_order drawn-IsCoherent (refl, refl)
      (refl, (refl, (refl, tt)))
