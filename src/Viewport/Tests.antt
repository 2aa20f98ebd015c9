-- ===== src/Viewport/Tests.antt =====
-- Runs of the viewport queue, and its theorems at them.
use network_topology_map.Prelude.{ℕ, ◌≡◌, refl, none, some, List, [], ◌∷◌, map, codes, text_eq}
use network_topology_map.Viewport.{
  Event, new, written, regular, page_exit, scheduled, page_hidden, fired, settled, dispose, settle,
  run, schedule, fire, flush_for_page_exit,
}
use network_topology_map.Viewport.Invariant.{IsOrderly, run-IsOrderly}
use network_topology_map.Viewport.Delivery.{Delivers, outgoing, run-outgoing, dispose_drains}
use network_topology_map.Viewport.Page.{
  PageEvent, moved, hidden, timer_fired, save_settled, new_page, page_run, persist_viewport,
  queue_viewport_persistence, save_viewport_on_page_exit,
}
use network_topology_map.Viewport.Routing.{IsRouted}
use network_topology_map.Viewport.Paging.{page_run-IsRouted}

-- The second viewport replaces the first; the third waits for the save that runs, and is on its way
-- at the page exit.
abbrev drags : List (Event ℕ ℕ)
drags =
    scheduled 1
    ∷ scheduled 2
    ∷ fired 1
    ∷ scheduled 3
    ∷ fired 2
    ∷ settled (some 9)
    ∷ scheduled 4
    ∷ page_hidden
    ∷ scheduled 5
    ∷ []

drags_writes : (run new drags).writes ≡ page_exit 4 ∷ regular 3 ∷ regular 2 ∷ []
unfolding run schedule fire settle flush_for_page_exit
drags_writes = refl

run-IsOrderly_example : IsOrderly (run new drags)
run-IsOrderly_example = run-IsOrderly drags

run-outgoing_example : Delivers (outgoing (run new drags)) (5 ∷ 4 ∷ 3 ∷ 2 ∷ 1 ∷ [])
run-outgoing_example = run-outgoing drags

dispose_drains_example :
    let q = settle none (settle (some 8) (dispose (run new drags))) in
    (q.pending ≡ none)
    × (q.unsettled ≡ 0)
    × (q.timers.pending ≡ [])
    × (map written q.writes ≡ outgoing (run new drags))
dispose_drains_example = dispose_drains (run new drags) (some 8) none (run-IsOrderly drags)

-- The viewport is moved on two maps; the first save of the second map is rejected after the page exit.
abbrev visits : List (PageEvent ℕ ℕ)
visits =
    moved (some (codes "home")) 1
    ∷ moved none 2
    ∷ moved (some (codes "lab")) 3
    ∷ timer_fired 0 0
    ∷ moved (some (codes "lab")) 4
    ∷ hidden
    ∷ save_settled 0 (some 9)
    ∷ moved (some (codes "lab")) 5
    ∷ []

visits_exits : (page_run new_page visits).exits ≡ (codes "lab", 4) ∷ []
unfolding page_run persist_viewport queue_viewport_persistence save_viewport_on_page_exit schedule
    dispose fire settle flush_for_page_exit text_eq
visits_exits = refl

page_run-IsRouted_example :
    IsRouted
      ((codes "lab", 5) ∷ (codes "lab", 4) ∷ (codes "lab", 3) ∷ (codes "home", 1) ∷ [])
      (page_run new_page visits)
page_run-IsRouted_example = page_run-IsRouted visits
