-- ===== src/Viewport.antt =====
-- frontend/src/app/viewportPersistence.ts: debounced, serialised writes of the viewport. `V` is the
-- type of viewports and `C` that of rejection causes. The record holds the object's fields and,
-- below them, what the object has done to its environment: the pending timers, the save calls that
-- have not settled, every save call made (newest first) and the causes reported (newest first).
-- The `catch` handler touches no field, so a settlement runs it and `finally` as one step.
pub mod Invariant
pub mod Delivery
pub mod Page
pub mod Routing
mod Paging
mod Tests
use network_topology_map.Prelude.{
  ℕ, suc, ◌+◌, ◌-◌, Bool, true, false, not, ◌||◌, ◌&&◌, Option, none, some, List, [], ◌∷◌, is_some,
  is_number, if◌then◌else◌, ◌==◌,
}
use network_topology_map.Prelude.Timer.{Timers, no_timers, set_timer, cancel, clear_timer, waiting}

-- A save call, by the regular saver or by the one for page exit.
pub data Write (V : Type 0) : Type 0 where
  regular : V → Write V
  page_exit : V → Write V

abbrev pub written : {V : Type 0} → Write V → V
written (regular v) = v
written (page_exit v) = v

pub record ViewportPersistence (V C : Type 0) : Type 0 where
  pub timer : Option ℕ
  pub pending : Option V
  pub in_flight : Bool
  pub accepting : Bool
  pub timers : Timers (Unit {0})
  pub unsettled : ℕ
  pub writes : List (Write V)
  pub reported : List C

module _ {V C : Type 0} where
  abbrev pub new : ViewportPersistence V C
  new = record {
    timer = none;
    pending = none;
    in_flight = false;
    accepting = true;
    timers = no_timers;
    unsettled = 0;
    writes = [];
    reported = [];
  }

  abbrev start_save : Option V → ViewportPersistence V C → ViewportPersistence V C
  start_save none p = p
  start_save (some viewport) p = record p {
    pending = none;
    in_flight = true;
    unsettled = suc p.unsettled;
    writes = regular viewport ∷ p.writes;
  }

  pub flush : ViewportPersistence V C → ViewportPersistence V C
  flush p = if p.in_flight || not (is_some p.pending) then p else start_save p.pending p

  pub schedule : V → ViewportPersistence V C → ViewportPersistence V C
  schedule viewport p = if not p.accepting then p else record p {
    pending = some viewport;
    timer = some p.timers.next;
    timers = set_timer tt (cancel p.timer p.timers);
  }

  abbrev drop_timer : ViewportPersistence V C → ViewportPersistence V C
  drop_timer p = record p { timer = none; timers = cancel p.timer p.timers }

  pub dispose : ViewportPersistence V C → ViewportPersistence V C
  unfolding flush
  dispose p = flush (drop_timer (record p { accepting = false }))

  abbrev exit_save : Option V → ViewportPersistence V C → ViewportPersistence V C
  exit_save none p = p
  exit_save (some viewport) p = record p { writes = page_exit viewport ∷ p.writes }

  pub flush_for_page_exit : ViewportPersistence V C → ViewportPersistence V C
  flush_for_page_exit p = exit_save p.pending (record (drop_timer p) { pending = none })

  -- The callback of the debounce timer, when the event loop runs the timer `t`.
  pub fire : ℕ → ViewportPersistence V C → ViewportPersistence V C
  unfolding flush
  fire t p =
      if is_some (waiting t p.timers.pending)
      then flush (record p { timer = none; timers = clear_timer t p.timers })
      else p

  abbrev report : Option C → ViewportPersistence V C → ViewportPersistence V C
  report none p = p
  report (some cause) p = record p { reported = cause ∷ p.reported }

  -- the `finally` handler
  abbrev finish : ViewportPersistence V C → ViewportPersistence V C
  finish p =
      let idle = record p { in_flight = false } in
      if is_some idle.pending && not (is_some idle.timer) then flush idle else idle

  -- A save call settles, with the cause if it was rejected.
  pub settle : Option C → ViewportPersistence V C → ViewportPersistence V C
  unfolding flush
  settle outcome p =
      if p.unsettled == 0
      then p
      else finish (report outcome (record p { unsettled = p.unsettled - 1 }))

-- What may happen to the object, in any order.
pub data Event (V C : Type 0) : Type 0 where
  scheduled : V → Event V C
  disposed : Event V C
  page_hidden : Event V C
  fired : ℕ → Event V C
  settled : Option C → Event V C

module _ {V C : Type 0} where
  abbrev pub step : Event V C → ViewportPersistence V C → ViewportPersistence V C
  step (scheduled v) p = schedule v p
  step disposed p = dispose p
  step page_hidden p = flush_for_page_exit p
  step (fired t) p = fire t p
  step (settled outcome) p = settle outcome p

  pub run : ViewportPersistence V C → List (Event V C) → ViewportPersistence V C
  run p [] = p
  run p (e ∷ es) = run (step e p) es
