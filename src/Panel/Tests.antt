-- ===== src/Panel/Tests.antt =====
-- A manual run, and the theorems at it.
use network_topology_map.Prelude.{
  ℕ, ◌≤◌, ◌≡◌, refl, true, some, List, [], ◌∷◌, codes, arith, text_eq,
}
use network_topology_map.Types.{queued, completed}
use network_topology_map.Panel.{
  new, run, run_queued, poll_run_receipt, receipt_answered, poll_due, set_monitor_running,
  request_run, Act, run_requested, run_accepted, receipt, poll_timer,
}
use network_topology_map.Panel.Moves.{IsPolled}
use network_topology_map.Panel.Polling.{run-IsPolled}
use network_topology_map.Panel.Staleness.{cleared, HasNoEffect, run-HasNoEffect}

abbrev asking : List (Act ℕ)
asking = run_requested (codes "m") ∷ run_accepted (codes "m") (codes "r") ∷ []

abbrev polled : List (Act ℕ)
polled =
    run_requested (codes "m")
    ∷ run_accepted (codes "m") (codes "r")
    ∷ receipt 1 queued
    ∷ poll_timer 1
    ∷ []

still_running :
    ((run new polled).running_monitor_ids (codes "m") ≡ true)
    × ((run new polled).run_receipt_tokens (codes "m") ≡ some 1)
unfolding run request_run run_queued poll_run_receipt receipt_answered poll_due set_monitor_running
    text_eq
still_running = (refl, refl)

one_drawn : 1 ≤ (run new asking).next_run_receipt_token
unfolding run request_run run_queued poll_run_receipt set_monitor_running text_eq
one_drawn = omega arith

run-IsPolled_example : IsPolled (run new (receipt 1 completed ∷ polled))
run-IsPolled_example = run-IsPolled (receipt 1 completed ∷ polled)

run-HasNoEffect_example : HasNoEffect 1 (run (cleared true (run new asking)) polled)
run-HasNoEffect_example = run-HasNoEffect asking polled true 1 one_drawn
