-- ===== src/Viewport/Page.antt =====
-- frontend/src/app/App.tsx: the page's use of the viewport queues. Every queue that the page makes
-- lives on for its saves, also when the page has let go of it; `owners` holds all, newest first, each
-- with the map that its saver writes to. While `held`, the first is `viewportPersistence.current`.
use network_topology_map.Prelude.{
  ℕ, zero, suc, Bool, true, false, Option, none, some, List, [], ◌∷◌, Text, id_eq, is_empty,
  if◌then◌else◌,
}
use network_topology_map.Viewport.{
  ViewportPersistence, new, schedule, dispose, flush_for_page_exit, fire, settle,
}

pub record Owner (V C : Type 0) : Type 0 where
  pub map : Text
  pub queue : ViewportPersistence V C

pub record ViewportPage (V C : Type 0) : Type 0 where
  pub viewport_map_id : Option Text
  pub owners : List (Owner V C)
  pub held : Bool
  -- the writes for page exit with the map they go to, newest first
  pub exits : List (Text × V)

pub data PageEvent (V C : Type 0) : Type 0 where
  -- React Flow moves the viewport; the map is the drawn one's
  moved : Option Text → V → PageEvent V C
  hidden : PageEvent V C
  left : PageEvent V C
  -- a timer of a queue, and a save of a queue that settles
  timer_fired : ℕ → ℕ → PageEvent V C
  save_settled : ℕ → Option C → PageEvent V C

abbrev pub log_exit : {V : Type 0} → Text → Option V → List (Text × V) → List (Text × V)
log_exit map none exits = exits
log_exit map (some viewport) exits = (map, viewport) ∷ exits

module _ {V C : Type 0} where
  abbrev pub new_page : ViewportPage V C
  new_page = record { viewport_map_id = none; owners = []; held = false; exits = [] }

  -- a call of `viewportPersistence.current?.`
  abbrev pub on_first :
      (ViewportPersistence V C → ViewportPersistence V C)
      → Bool
      → List (Owner V C)
      → List (Owner V C)
  on_first f held [] = []
  on_first f true (o ∷ os) = record o { queue = f o.queue } ∷ os
  on_first f false (o ∷ os) = o ∷ os

  abbrev pub on_nth :
      (ViewportPersistence V C → ViewportPersistence V C) → ℕ → List (Owner V C) → List (Owner V C)
  on_nth f i [] = []
  on_nth f zero (o ∷ os) = record o { queue = f o.queue } ∷ os
  on_nth f (suc i) (o ∷ os) = o ∷ on_nth f i os

  -- another map than the queue's
  abbrev pub switch_map : Text → ViewportPage V C → ViewportPage V C
  switch_map map s = record s {
    viewport_map_id = some map;
    owners = record { map = map; queue = new } ∷ on_first dispose s.held s.owners;
    held = true;
  }

  abbrev pub schedule_first : V → ViewportPage V C → ViewportPage V C
  schedule_first viewport s = record s { owners = on_first (schedule viewport) s.held s.owners }

  unfoldable pub queue_viewport_persistence : Text → V → ViewportPage V C → ViewportPage V C
  queue_viewport_persistence map viewport s =
      schedule_first viewport (if id_eq s.viewport_map_id (some map) then s else switch_map map s)

  -- an empty identifier is falsy
  unfoldable pub persist_viewport : Option Text → V → ViewportPage V C → ViewportPage V C
  persist_viewport none viewport s = s
  persist_viewport (some map) viewport s =
      if is_empty map then s else queue_viewport_persistence map viewport s

  -- what the queue waits to send, if the page holds one
  abbrev pub waiting_first : Bool → List (Owner V C) → Option V
  waiting_first held [] = none
  waiting_first true (o ∷ os) = o.queue.pending
  waiting_first false (o ∷ os) = none

  abbrev pub exit_to : Option Text → ViewportPage V C → ViewportPage V C
  exit_to none s = s
  exit_to (some map) s = if is_empty map then s else record s {
    owners = on_first flush_for_page_exit s.held s.owners;
    exits = log_exit map (waiting_first s.held s.owners) s.exits;
  }

  unfoldable pub save_viewport_on_page_exit : ViewportPage V C → ViewportPage V C
  save_viewport_on_page_exit s = exit_to s.viewport_map_id s

  -- the cleanup when the component unmounts
  unfoldable pub leave_page : ViewportPage V C → ViewportPage V C
  leave_page s = record s {
    viewport_map_id = none;
    owners = on_first dispose s.held s.owners;
    held = false;
  }

  abbrev pub page_step : PageEvent V C → ViewportPage V C → ViewportPage V C
  page_step (moved map viewport) s = persist_viewport map viewport s
  page_step hidden s = save_viewport_on_page_exit s
  page_step left s = leave_page s
  page_step (timer_fired i t) s = record s { owners = on_nth (fire t) i s.owners }
  page_step (save_settled i outcome) s = record s { owners = on_nth (settle outcome) i s.owners }

  unfoldable pub page_run : ViewportPage V C → List (PageEvent V C) → ViewportPage V C
  page_run s [] = s
  page_run s (e ∷ es) = page_run (page_step e s) es
