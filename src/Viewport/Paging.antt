-- ===== src/Viewport/Paging.antt =====
-- Where the page's viewports go: the page's steps.
use network_topology_map.Prelude.{
  ℕ, ◌≡◌, refl, ap, Bool, true, false, Option, none, some, List, [], ◌∷◌, Text, All, id_eq,
  id_eq_iff, is_empty, Bool-cases, inl, inr, if◌then◌else◌,
}
use network_topology_map.Viewport.{
  ViewportPersistence, new, schedule, dispose, flush_for_page_exit, fire, settle,
}
use network_topology_map.Viewport.Delivery.{
  outgoing, outgoing-schedule, outgoing-dispose, outgoing-page_hidden, outgoing-fire,
  outgoing-settle, accepting-schedule, accepting-page_hidden, accepting-fire, accepting-settle,
}
use network_topology_map.Viewport.Page.{
  Owner, ViewportPage, PageEvent, moved, hidden, left, timer_fired, save_settled, new_page,
  on_first, on_nth, schedule_first, queue_viewport_persistence, persist_viewport, waiting_first,
  log_exit, exit_to, save_viewport_on_page_exit, leave_page, page_run,
}
use network_topology_map.Viewport.Routing.{
  HasLatest, IsHeldBy, IsRouted, Moved, Moved-more, SendsMoved, dispose-IsShut, exits_more,
  moves_of, on_first-HasLatest, on_first-IsHeldBy, on_first-sends, on_nth-HasLatest,
  on_nth-IsHeldBy, on_nth-sends, pending_sent, sends_more, sent_only,
}

module _ {V C : Type 0} where
  schedule_first-sends :
      (m : Text) (v : V) (moves : List (Text × V)) (held : Bool) (os : List (Owner V C))
      → IsHeldBy (some m) held os
      → All (SendsMoved moves) os
      → All (SendsMoved ((m, v) ∷ moves)) (on_first (schedule v) held os)
  schedule_first-sends m v moves held [] h hs = tt
  schedule_first-sends m v moves true (o ∷ os) (e, a, _) (ho, hs) =
      let same : m ≡ o.map = cc in
      rw (outgoing-schedule v o.queue a) (
        (
          inl (same, refl),
          Moved-more (m, v) moves o.map _ (sent_only o.queue.pending moves o.map o.queue.writes ho),
        ),
        sends_more (m, v) moves os hs,
      )
  schedule_first-sends m v moves false (o ∷ os) h hs = sends_more (m, v) moves (o ∷ os) hs

  exits_first :
      (moves : List (Text × V)) (m : Text) (held : Bool) (os : List (Owner V C))
      (exits : List (Text × V))
      → IsHeldBy (some m) held os
      → All (SendsMoved moves) os
      → All (λ (exit : Text × V). Moved moves exit.0 exit.1) exits
      → All
          (λ (exit : Text × V). Moved moves exit.0 exit.1)
          (log_exit m (waiting_first held os) exits)
  exits_first moves m held [] exits h hs he = he
  exits_first moves m true (o ∷ os) exits (e, a, _) (ho, hs) he =
      let same : m ≡ o.map = cc in
      rw same (pending_sent o.queue.pending moves o.map o.queue.writes exits ho he)
  exits_first moves m false (o ∷ os) exits h hs he = he

  exit_to-IsRouted :
      (moves : List (Text × V)) (id : Option Text) (held : Bool) (os : List (Owner V C))
      (exits : List (Text × V))
      → let s : ViewportPage V C = record {
        viewport_map_id = id;
        owners = os;
        held = held;
        exits = exits;
      } in
        IsRouted moves s → IsRouted moves (exit_to id s)
  exit_to-IsRouted moves none held os exits h = h
  exit_to-IsRouted moves (some m) held os exits h = elim (Bool-cases (is_empty m)) [
    | inl e ↦ rw e h
    | inr e ↦ rw e (record {
      held_by =
          on_first-IsHeldBy flush_for_page_exit accepting-page_hidden (some m) held os h.held_by;
      sends = on_first-sends flush_for_page_exit outgoing-page_hidden moves held os h.sends;
      exits = exits_first moves m held os exits h.held_by h.sends h.exits;
      latest = on_first-HasLatest flush_for_page_exit outgoing-page_hidden moves held os h.latest;
    })
  ]

  schedule_first-HasLatest :
      (m : Text) (v : V) (moves : List (Text × V)) (held : Bool) (os : List (Owner V C))
      → IsHeldBy (some m) held os
      → HasLatest ((m, v) ∷ moves) held (on_first (schedule v) held os)
  schedule_first-HasLatest m v moves false os h = tt
  schedule_first-HasLatest m v moves true [] h = h
  schedule_first-HasLatest m v moves true (o ∷ os) (e, a, hs) =
      (v, ap (λ (k : Text). some (k, v)) cc, rw (outgoing-schedule v o.queue a) refl)

  schedule_first-IsRouted :
      (m : Text) (v : V) (moves : List (Text × V)) (held : Bool) (os : List (Owner V C))
      (exits : List (Text × V))
      → IsHeldBy (some m) held os
      → All (SendsMoved moves) os
      → All (λ (exit : Text × V). Moved moves exit.0 exit.1) exits
      → IsRouted ((m, v) ∷ moves) (
          schedule_first v
            (record { viewport_map_id = some m; owners = os; held = held; exits = exits }))
  schedule_first-IsRouted m v moves held os exits h hs he = record {
    held_by = on_first-IsHeldBy (schedule v) (accepting-schedule v) (some m) held os h;
    sends = schedule_first-sends m v moves held os h hs;
    exits = exits_more (m, v) moves exits he;
    latest = schedule_first-HasLatest m v moves held os h;
  }

  queue_viewport_persistence-IsRouted :
      (m : Text) (v : V) (moves : List (Text × V)) (s : ViewportPage V C)
      → IsRouted moves s
      → IsRouted ((m, v) ∷ moves) (queue_viewport_persistence m v s)
  unfolding queue_viewport_persistence
  queue_viewport_persistence-IsRouted m v moves s h =
      elim (Bool-cases (id_eq s.viewport_map_id (some m))) [
        | inl e ↦
            let same = (id_eq_iff s.viewport_map_id (some m)).0 e in
            rw (e, same)
              (schedule_first-IsRouted m v moves s.held s.owners s.exits (rw same at h.held_by)
                h.sends h.exits)
        | inr e ↦ rw e (
            schedule_first-IsRouted m v moves true
              (record { map = m; queue = new } ∷ on_first dispose s.held s.owners) s.exits
              (refl, refl, dispose-IsShut s.viewport_map_id s.held s.owners h.held_by)
              (tt, on_first-sends dispose outgoing-dispose moves s.held s.owners h.sends) h.exits)
      ]

  leave_page-IsRouted :
      (moves : List (Text × V)) (s : ViewportPage V C)
      → IsRouted moves s
      → IsRouted moves (leave_page s)
  unfolding leave_page
  leave_page-IsRouted moves s h = record {
    held_by = (refl, dispose-IsShut s.viewport_map_id s.held s.owners h.held_by);
    sends = on_first-sends dispose outgoing-dispose moves s.held s.owners h.sends;
    exits = h.exits;
    latest = tt;
  }

  on_nth-IsRouted :
      (f : ViewportPersistence V C → ViewportPersistence V C)
      → ((q : ViewportPersistence V C) → outgoing (f q) ≡ outgoing q)
      → ((q : ViewportPersistence V C) → (f q).accepting ≡ q.accepting)
      → (i : ℕ) (moves : List (Text × V)) (s : ViewportPage V C) → IsRouted moves s
      → IsRouted moves (record s { owners = on_nth f i s.owners })
  on_nth-IsRouted f sends accepts i moves s h = record {
    held_by = on_nth-IsHeldBy f accepts i s.viewport_map_id s.held s.owners h.held_by;
    sends = on_nth-sends f sends moves i s.owners h.sends;
    exits = h.exits;
    latest = on_nth-HasLatest f sends moves i s.held s.owners h.latest;
  }

  persist_viewport-IsRouted :
      (m : Text) (v : V) (moves : List (Text × V)) (s : ViewportPage V C)
      → IsRouted moves s
      → IsRouted (if is_empty m then moves else (m, v) ∷ moves) (persist_viewport (some m) v s)
  unfolding persist_viewport
  persist_viewport-IsRouted m v moves s h = elim (Bool-cases (is_empty m)) [
    | inl e ↦ rw e h
    | inr e ↦ rw e (queue_viewport_persistence-IsRouted m v moves s h)
  ]

  persist_viewport-none : (v : V) (s : ViewportPage V C) → persist_viewport none v s ≡ s
  unfolding persist_viewport
  persist_viewport-none v s = refl

  save_viewport_on_page_exit-IsRouted :
      (moves : List (Text × V)) (s : ViewportPage V C)
      → IsRouted moves s
      → IsRouted moves (save_viewport_on_page_exit s)
  unfolding save_viewport_on_page_exit
  save_viewport_on_page_exit-IsRouted moves s h =
      exit_to-IsRouted moves s.viewport_map_id s.held s.owners s.exits h

  page_run_from-IsRouted :
      (moves : List (Text × V)) (s : ViewportPage V C) (es : List (PageEvent V C))
      → IsRouted moves s
      → IsRouted (moves_of moves es) (page_run s es)
  unfolding page_run
  page_run_from-IsRouted moves s [] h = h
  page_run_from-IsRouted moves s (moved none v ∷ es) h =
      page_run_from-IsRouted moves (persist_viewport none v s) es (rw (persist_viewport-none v s) h)
  page_run_from-IsRouted moves s (moved (some m) v ∷ es) h =
      page_run_from-IsRouted (if is_empty m then moves else (m, v) ∷ moves)
        (persist_viewport (some m) v s) es (persist_viewport-IsRouted m v moves s h)
  page_run_from-IsRouted moves s (hidden ∷ es) h =
      page_run_from-IsRouted moves (save_viewport_on_page_exit s) es
        (save_viewport_on_page_exit-IsRouted moves s h)
  page_run_from-IsRouted moves s (left ∷ es) h =
      page_run_from-IsRouted moves (leave_page s) es (leave_page-IsRouted moves s h)
  page_run_from-IsRouted moves s (timer_fired i t ∷ es) h =
      page_run_from-IsRouted moves _ es
        (on_nth-IsRouted (fire t) (outgoing-fire t) (accepting-fire t) i moves s h)
  page_run_from-IsRouted moves s (save_settled i outcome ∷ es) h =
      page_run_from-IsRouted moves _ es (
        on_nth-IsRouted (settle outcome) (outgoing-settle outcome) (accepting-settle outcome) i
          moves s h)

  -- After any moves of the viewport, on any maps, page exits, firing timers and settling saves, and
  -- after the page was left: a queue, and a save at page exit, sends only viewports that were moved
  -- on its own map; all queues but the one that the page holds are shut; and while the page holds
  -- one, the last move was on its map, and is the last that it sent, or waits in it.
  pub page_run-IsRouted :
      (es : List (PageEvent V C)) → IsRouted (moves_of [] es) (page_run new_page es)
  page_run-IsRouted es =
      page_run_from-IsRouted [] new_page es
        (record { held_by = (refl, tt); sends = tt; exits = tt; latest = tt })
