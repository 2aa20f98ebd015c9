-- ===== src/Viewport/Delivery.antt =====
-- What reaches the server: the viewports that were scheduled, in that order, the last one included.
use network_topology_map.Prelude.{
  ℕ, ◌≡◌, refl, Bool, true, false, Option, none, some, List, [], ◌∷◌, arith, ◌∙◌, if◌then◌else◌,
  map,
}
use network_topology_map.Viewport.{
  ViewportPersistence, new, Write, written, schedule, dispose, flush_for_page_exit, fire, settle,
  Event, run, scheduled, disposed, page_hidden, fired, settled,
}
use network_topology_map.Viewport.Invariant.{IsOrderly}

-- `xs` is `ys` with some elements left out.
pub data Subsequence {V : Type 0} : List V → List V → Type 0 where
  none_left : {ys : List V} → Subsequence [] ys
  kept : {x : V} {xs ys : List V} → Subsequence xs ys → Subsequence (x ∷ xs) (x ∷ ys)
  left_out : {y : V} {xs ys : List V} → Subsequence xs ys → Subsequence xs (y ∷ ys)

Subsequence-tail :
    {V : Type 0} {x : V} {xs ys : List V} → Subsequence (x ∷ xs) ys → Subsequence xs ys
Subsequence-tail (kept s) = left_out s
Subsequence-tail (left_out s) = left_out (Subsequence-tail s)

abbrev pub with_pending : {V : Type 0} → Option V → List (Write V) → List V
with_pending none ws = map written ws
with_pending (some v) ws = v ∷ map written ws

abbrev pub first : {V : Type 0} → List V → Option V
first [] = none
first (v ∷ vs) = some v

writes_of_outgoing :
    {V : Type 0} (o : Option V) (ws : List (Write V)) {history : List V}
    → Subsequence (with_pending o ws) history
    → Subsequence (map written ws) history
writes_of_outgoing none ws s = s
writes_of_outgoing (some v) ws s = Subsequence-tail s

-- The first of `xs` is the first of `ys`, and `xs` is `ys` with some left out.
abbrev pub Delivers : {V : Type 0} → List V → List V → Type 0
Delivers xs ys = (first xs ≡ first ys) × Subsequence xs ys

module _ {V C : Type 0} where
  -- What was sent, newest first, behind what waits to be sent.
  abbrev pub outgoing : ViewportPersistence V C → List V
  outgoing p = with_pending p.pending p.writes

  -- The viewports that are accepted over some events, newest first, before those of `history`.
  -- A disposed object accepts none.
  abbrev pub requests : Bool → List V → List (Event V C) → List V
  requests accepting history [] = history
  requests accepting history (scheduled v ∷ es) =
      requests accepting (if accepting then v ∷ history else history) es
  requests accepting history (disposed ∷ es) = requests false history es
  requests accepting history (_ ∷ es) = requests accepting history es

  pub outgoing-schedule :
      (v : V) (p : ViewportPersistence V C)
      → p.accepting ≡ true
      → outgoing (schedule v p) ≡ v ∷ map written p.writes
  unfolding schedule
  outgoing-schedule v p a = ground arith

  pub schedule_shut : (v : V) (p : ViewportPersistence V C) → p.accepting ≡ false → schedule v p ≡ p
  unfolding schedule
  schedule_shut v p a = ground arith

  pub outgoing-dispose : (p : ViewportPersistence V C) → outgoing (dispose p) ≡ outgoing p
  unfolding dispose
  outgoing-dispose p = ground arith

  pub outgoing-page_hidden :
      (p : ViewportPersistence V C) → outgoing (flush_for_page_exit p) ≡ outgoing p
  unfolding flush_for_page_exit
  outgoing-page_hidden p = ground arith

  pub outgoing-fire : (t : ℕ) (p : ViewportPersistence V C) → outgoing (fire t p) ≡ outgoing p
  unfolding fire
  outgoing-fire t p = ground arith

  pub outgoing-settle :
      (o : Option C) (p : ViewportPersistence V C) → outgoing (settle o p) ≡ outgoing p
  unfolding settle
  outgoing-settle o p = ground arith

  pub accepting-schedule :
      (v : V) (p : ViewportPersistence V C) → (schedule v p).accepting ≡ p.accepting
  unfolding schedule
  accepting-schedule v p = ground arith

  pub accepting-dispose : (p : ViewportPersistence V C) → (dispose p).accepting ≡ false
  unfolding dispose
  accepting-dispose p = ground arith

  pub accepting-page_hidden :
      (p : ViewportPersistence V C) → (flush_for_page_exit p).accepting ≡ p.accepting
  unfolding flush_for_page_exit
  accepting-page_hidden p = ground arith

  pub accepting-fire : (t : ℕ) (p : ViewportPersistence V C) → (fire t p).accepting ≡ p.accepting
  unfolding fire
  accepting-fire t p = ground arith

  pub accepting-settle :
      (o : Option C) (p : ViewportPersistence V C) → (settle o p).accepting ≡ p.accepting
  unfolding settle
  accepting-settle o p = ground arith

  schedule-Delivers :
      (v : V) (p : ViewportPersistence V C) (accepting : Bool) (history : List V)
      → p.accepting ≡ accepting
      → Delivers (outgoing p) history
      → Delivers (outgoing (schedule v p)) (if accepting then v ∷ history else history)
  schedule-Delivers v p true history e d =
      rw (outgoing-schedule v p e) (refl, kept (writes_of_outgoing p.pending p.writes d.1))
  schedule-Delivers v p false history e d = rw (schedule_shut v p e) d

  run-Delivers :
      (p : ViewportPersistence V C) (accepting : Bool) (history : List V) (es : List (Event V C))
      → p.accepting ≡ accepting
      → Delivers (outgoing p) history
      → Delivers (outgoing (run p es)) (requests accepting history es)
  unfolding run
  run-Delivers p a history [] e d = d
  run-Delivers p a history (scheduled v ∷ es) e d =
      run-Delivers (schedule v p) a (if a then v ∷ history else history) es
        (accepting-schedule v p ∙ e) (schedule-Delivers v p a history e d)
  run-Delivers p a history (disposed ∷ es) e d =
      run-Delivers (dispose p) false history es (accepting-dispose p) (rw (outgoing-dispose p) d)
  run-Delivers p a history (page_hidden ∷ es) e d =
      run-Delivers (flush_for_page_exit p) a history es (accepting-page_hidden p ∙ e)
        (rw (outgoing-page_hidden p) d)
  run-Delivers p a history (fired t ∷ es) e d =
      run-Delivers (fire t p) a history es (accepting-fire t p ∙ e) (rw (outgoing-fire t p) d)
  run-Delivers p a history (settled o ∷ es) e d =
      run-Delivers (settle o p) a history es (accepting-settle o p ∙ e) (rw (outgoing-settle o p) d)

  -- Over any events of a new object, what was sent, behind what still waits, is a subsequence of
  -- the accepted viewports in their order, and the newest of both is the same: an older viewport
  -- never follows a newer one, and the last one scheduled is sent or waits.
  pub run-outgoing :
      (es : List (Event V C)) → Delivers (outgoing (run new es)) (requests true [] es)
  run-outgoing es = run-Delivers new true [] es refl (refl, none_left)

  -- A disposed object sends what waits: once the saves that run have settled, with or without
  -- errors, nothing waits, nothing runs, no timer is pending, and the writes are all that was to go
  -- out, in its order.
  pub dispose_drains :
      (p : ViewportPersistence V C) (o o' : Option C)
      → IsOrderly p
      → let q = settle o' (settle o (dispose p)) in
        (q.pending ≡ none)
        × (q.unsettled ≡ 0)
        × (q.timers.pending ≡ [])
        × (map written q.writes ≡ outgoing p)
  unfolding dispose settle
  dispose_drains p o o' h = ground arith
