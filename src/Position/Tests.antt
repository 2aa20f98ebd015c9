-- ===== src/Position/Tests.antt =====
-- Runs of the position queue, and its theorems at them.
use network_topology_map.Prelude.{
  ℕ, ◌≡◌, refl, Bool, not, none, some, List, [], ◌∷◌, codes, text_eq, ◌==◌,
}
use network_topology_map.Prelude.Timer.{waiting}
use network_topology_map.Position.{
  NodePositionPersistence, Event, new, scheduled, settled, schedule, settle, run, error,
}
use network_topology_map.Position.Ownership.{IsOwned, run-IsOwned}
use network_topology_map.Position.Outcome.{destined, run-destined}

-- causes are numbers, and 0 is the falsy one
abbrev truthy : ℕ → Bool
truthy c = not (c == 0)

abbrev drags : List (Event ℕ ℕ)
drags =
    scheduled (codes "a") 1
    ∷ scheduled (codes "b") 2
    ∷ scheduled (codes "a") 3
    ∷ scheduled (codes "a") 4
    ∷ settled 0 (some 7)
    ∷ settled 1 (some 7)
    ∷ []

abbrev dragged : NodePositionPersistence ℕ ℕ
dragged = run truthy new drags

dragged_effects :
    (dragged.saves ≡ (codes "a", 4) ∷ (codes "b", 2) ∷ (codes "a", 1) ∷ [])
    × (dragged.reports ≡ error 7 ∷ [])
unfolding run schedule settle text_eq
dragged_effects = (refl, refl)

run-IsOwned_example : IsOwned dragged
run-IsOwned_example = run-IsOwned truthy drags

still_saving : waiting 0 dragged.saving ≡ some (codes "a")
unfolding run schedule settle text_eq
still_saving = refl

run-destined_example : destined (codes "a") dragged ≡ some 4
unfolding text_eq
run-destined_example = run-destined (codes "a") truthy drags

nothing_waits : (dragged.heap 0).pending ≡ none
unfolding run schedule settle text_eq
nothing_waits = refl
