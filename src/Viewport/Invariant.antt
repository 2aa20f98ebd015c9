-- ===== src/Viewport/Invariant.antt =====
-- What holds between two events: one save at a time, one timer at a time, and a viewport that waits
-- has a timer or a running save that will send it.
use network_topology_map.Prelude.{
  ℕ, ◌≡◌, ◌⊎◌, true, false, Option, none, List, [], ◌∷◌, arith, is_some, if◌then◌else◌,
}
use network_topology_map.Prelude.Timer.{Owns}
use network_topology_map.Viewport.{
  ViewportPersistence, new, schedule, dispose, flush_for_page_exit, fire, settle, Event, step, run,
  scheduled, disposed, page_hidden, fired, settled,
}

module _ {V C : Type 0} where
  pub record IsOrderly (p : ViewportPersistence V C) : Type 0 where
    pub one_save : p.unsettled ≡ (if p.in_flight then 1 else 0)
    pub one_timer : Owns p.timer p.timers.pending
    pub timer_waits : is_some p.timer ≡ true → is_some p.pending ≡ true
    pub pending_has_sender :
        is_some p.pending ≡ true → (is_some p.timer ≡ true) ⊎ (p.in_flight ≡ true)
    pub closed_has_no_timer : p.accepting ≡ false → p.timer ≡ none

  new-IsOrderly : IsOrderly new
  new-IsOrderly = ground arith

  schedule-IsOrderly :
      (v : V) (p : ViewportPersistence V C) → IsOrderly p → IsOrderly (schedule v p)
  unfolding schedule
  schedule-IsOrderly v p h = ground arith

  dispose-IsOrderly : (p : ViewportPersistence V C) → IsOrderly p → IsOrderly (dispose p)
  unfolding dispose
  dispose-IsOrderly p h = ground arith

  flush_for_page_exit-IsOrderly :
      (p : ViewportPersistence V C) → IsOrderly p → IsOrderly (flush_for_page_exit p)
  unfolding flush_for_page_exit
  flush_for_page_exit-IsOrderly p h = ground arith

  fire-IsOrderly : (t : ℕ) (p : ViewportPersistence V C) → IsOrderly p → IsOrderly (fire t p)
  unfolding fire
  fire-IsOrderly t p h = ground arith

  settle-IsOrderly :
      (o : Option C) (p : ViewportPersistence V C) → IsOrderly p → IsOrderly (settle o p)
  unfolding settle
  settle-IsOrderly o p h = ground arith

  step-IsOrderly :
      (e : Event V C) (p : ViewportPersistence V C) → IsOrderly p → IsOrderly (step e p)
  step-IsOrderly (scheduled v) p h = schedule-IsOrderly v p h
  step-IsOrderly disposed p h = dispose-IsOrderly p h
  step-IsOrderly page_hidden p h = flush_for_page_exit-IsOrderly p h
  step-IsOrderly (fired t) p h = fire-IsOrderly t p h
  step-IsOrderly (settled o) p h = settle-IsOrderly o p h

  run_from-IsOrderly :
      (p : ViewportPersistence V C) (es : List (Event V C)) → IsOrderly p → IsOrderly (run p es)
  unfolding run
  run_from-IsOrderly p [] h = h
  run_from-IsOrderly p (e ∷ es) h = run_from-IsOrderly (step e p) es (step-IsOrderly e p h)

  -- After any events at all, a new object has at most one save running (exactly while `in_flight`
  -- is set) and at most one timer pending (the one whose handle it holds); a viewport that waits
  -- has a timer or a running save that will send it, a timer never waits for nothing, and a
  -- disposed object has no timer.
  pub run-IsOrderly : (es : List (Event V C)) → IsOrderly (run new es)
  run-IsOrderly es = run_from-IsOrderly new es new-IsOrderly
