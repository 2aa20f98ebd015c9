-- ===== src/Viewport/Routing.antt =====
-- Where the page's viewports go: what holds of its queues, and what keeps it.
use network_topology_map.Prelude.{
  ℕ, zero, suc, ◌≡◌, ◌⊎◌, ◌∙◌, Bool, true, false, Option, none, some, List, [], ◌∷◌, Text, All,
  is_empty, inr, map, if◌then◌else◌,
}
use network_topology_map.Viewport.{ViewportPersistence, dispose, written, Write}
use network_topology_map.Viewport.Delivery.{first, with_pending, outgoing, accepting-dispose}
use network_topology_map.Viewport.Page.{
  Owner, ViewportPage, PageEvent, moved, on_first, on_nth, log_exit,
}

module _ {V : Type 0} where
  -- The viewport was moved there on that map.
  abbrev pub Moved : List (Text × V) → Text → V → Type 0
  Moved [] m v = ⊥
  Moved (move ∷ moves) m v = ((move.0 ≡ m) × (move.1 ≡ v)) ⊎ Moved moves m v

  abbrev pub AllMoved : List (Text × V) → Text → List V → Type 0
  AllMoved moves m vs = All (Moved moves m) vs

  -- The moves that count, newest first, before those of `moves`.
  abbrev pub moves_of : {C : Type 0} → List (Text × V) → List (PageEvent V C) → List (Text × V)
  moves_of moves [] = moves
  moves_of moves (moved (some m) v ∷ es) =
      moves_of (if is_empty m then moves else (m, v) ∷ moves) es
  moves_of moves (e ∷ es) = moves_of moves es

  pub Moved-more :
      (move : Text × V) (moves : List (Text × V)) (m : Text) (vs : List V)
      → AllMoved moves m vs
      → AllMoved (move ∷ moves) m vs
  Moved-more move moves m [] h = tt
  Moved-more move moves m (v ∷ vs) (h, hs) = (inr h, Moved-more move moves m vs hs)

  pub exits_more :
      (move : Text × V) (moves : List (Text × V)) (exits : List (Text × V))
      → All (λ (exit : Text × V). Moved moves exit.0 exit.1) exits
      → All (λ (exit : Text × V). Moved (move ∷ moves) exit.0 exit.1) exits
  exits_more move moves [] h = tt
  exits_more move moves (exit ∷ exits) (h, hs) = (inr h, exits_more move moves exits hs)

  pub sent_only :
      (o : Option V) (moves : List (Text × V)) (m : Text) (ws : List (Write V))
      → AllMoved moves m (with_pending o ws)
      → AllMoved moves m (map written ws)
  sent_only none moves m ws h = h
  sent_only (some v) moves m ws (h, hs) = hs

  pub pending_sent :
      (o : Option V) (moves : List (Text × V)) (m : Text) (ws : List (Write V))
      (exits : List (Text × V))
      → AllMoved moves m (with_pending o ws)
      → All (λ (exit : Text × V). Moved moves exit.0 exit.1) exits
      → All (λ (exit : Text × V). Moved moves exit.0 exit.1) (log_exit m o exits)
  pending_sent none moves m ws exits h hs = hs
  pending_sent (some v) moves m ws exits (h, _) hs = (h, hs)

module _ {V C : Type 0} where
  -- What the queue sent or is to send was moved on its map.
  abbrev pub SendsMoved : List (Text × V) → Owner V C → Type 0
  SendsMoved moves o = AllMoved moves o.map (outgoing o.queue)

  abbrev pub IsShut : Owner V C → Type 0
  IsShut o = o.queue.accepting ≡ false

  -- The page holds the first queue, open and made for the map; all others are shut.
  abbrev pub IsHeldBy : Option Text → Bool → List (Owner V C) → Type 0
  IsHeldBy id true [] = ⊥
  IsHeldBy id true (o ∷ os) = (id ≡ some o.map) × (o.queue.accepting ≡ true) × All IsShut os
  IsHeldBy id false os = (id ≡ none) × All IsShut os

  -- While the page holds a queue, the last move was on its map, and is the last that it sent, or waits
  -- in it.
  abbrev pub HasLatest : List (Text × V) → Bool → List (Owner V C) → Type 0
  HasLatest moves false os = Unit
  HasLatest moves true [] = ⊥
  HasLatest moves true (o ∷ os) =
      (v : V) × (first moves ≡ some (o.map, v)) × (first (outgoing o.queue) ≡ some v)

  pub record IsRouted (moves : List (Text × V)) (s : ViewportPage V C) : Type 0 where
    pub held_by : IsHeldBy s.viewport_map_id s.held s.owners
    pub sends : All (SendsMoved moves) s.owners
    pub exits : All (λ exit. Moved moves exit.0 exit.1) s.exits
    pub latest : HasLatest moves s.held s.owners

  pub on_first-sends :
      (f : ViewportPersistence V C → ViewportPersistence V C)
      (keeps : (q : ViewportPersistence V C) → outgoing (f q) ≡ outgoing q)
      (moves : List (Text × V)) (held : Bool) (os : List (Owner V C))
      → All (SendsMoved moves) os
      → All (SendsMoved moves) (on_first f held os)
  on_first-sends f keeps moves held [] h = tt
  on_first-sends f keeps moves true (o ∷ os) (h, hs) = (rw (keeps o.queue) h, hs)
  on_first-sends f keeps moves false (o ∷ os) h = h

  pub on_nth-sends :
      (f : ViewportPersistence V C → ViewportPersistence V C)
      (keeps : (q : ViewportPersistence V C) → outgoing (f q) ≡ outgoing q)
      (moves : List (Text × V)) (i : ℕ) (os : List (Owner V C))
      → All (SendsMoved moves) os
      → All (SendsMoved moves) (on_nth f i os)
  on_nth-sends f keeps moves i [] h = tt
  on_nth-sends f keeps moves zero (o ∷ os) (h, hs) = (rw (keeps o.queue) h, hs)
  on_nth-sends f keeps moves (suc i) (o ∷ os) (h, hs) = (h, on_nth-sends f keeps moves i os hs)

  pub on_first-HasLatest :
      (f : ViewportPersistence V C → ViewportPersistence V C)
      (keeps : (q : ViewportPersistence V C) → outgoing (f q) ≡ outgoing q)
      (moves : List (Text × V)) (held : Bool) (os : List (Owner V C))
      → HasLatest moves held os
      → HasLatest moves held (on_first f held os)
  on_first-HasLatest f keeps moves false os h = tt
  on_first-HasLatest f keeps moves true [] h = h
  on_first-HasLatest f keeps moves true (o ∷ os) (v, e, l) = (v, e, rw (keeps o.queue) l)

  pub on_nth-HasLatest :
      (f : ViewportPersistence V C → ViewportPersistence V C)
      (keeps : (q : ViewportPersistence V C) → outgoing (f q) ≡ outgoing q)
      (moves : List (Text × V)) (i : ℕ) (held : Bool) (os : List (Owner V C))
      → HasLatest moves held os
      → HasLatest moves held (on_nth f i os)
  on_nth-HasLatest f keeps moves i false os h = tt
  on_nth-HasLatest f keeps moves i true [] h = h
  on_nth-HasLatest f keeps moves zero true (o ∷ os) (v, e, l) = (v, e, rw (keeps o.queue) l)
  on_nth-HasLatest f keeps moves (suc i) true (o ∷ os) h = h

  pub sends_more :
      (move : Text × V) (moves : List (Text × V)) (os : List (Owner V C))
      → All (SendsMoved moves) os
      → All (SendsMoved (move ∷ moves)) os
  sends_more move moves [] h = tt
  sends_more move moves (o ∷ os) (h, hs) =
      (Moved-more move moves o.map (outgoing o.queue) h, sends_more move moves os hs)

  pub on_nth-IsShut :
      (f : ViewportPersistence V C → ViewportPersistence V C)
      (keeps : (q : ViewportPersistence V C) → (f q).accepting ≡ q.accepting) (i : ℕ)
      (os : List (Owner V C))
      → All IsShut os
      → All IsShut (on_nth f i os)
  on_nth-IsShut f keeps i [] h = tt
  on_nth-IsShut f keeps zero (o ∷ os) (h, hs) = (keeps o.queue ∙ h, hs)
  on_nth-IsShut f keeps (suc i) (o ∷ os) (h, hs) = (h, on_nth-IsShut f keeps i os hs)

  pub on_nth-IsHeldBy :
      (f : ViewportPersistence V C → ViewportPersistence V C)
      (keeps : (q : ViewportPersistence V C) → (f q).accepting ≡ q.accepting) (i : ℕ)
      (id : Option Text) (held : Bool) (os : List (Owner V C))
      → IsHeldBy id held os
      → IsHeldBy id held (on_nth f i os)
  on_nth-IsHeldBy f keeps i id true [] h = h
  on_nth-IsHeldBy f keeps zero id true (o ∷ os) (e, a, hs) = (e, keeps o.queue ∙ a, hs)
  on_nth-IsHeldBy f keeps (suc i) id true (o ∷ os) (e, a, hs) =
      (e, a, on_nth-IsShut f keeps i os hs)
  on_nth-IsHeldBy f keeps i id false os (e, hs) = (e, on_nth-IsShut f keeps i os hs)

  pub on_first-IsHeldBy :
      (f : ViewportPersistence V C → ViewportPersistence V C)
      (keeps : (q : ViewportPersistence V C) → (f q).accepting ≡ q.accepting) (id : Option Text)
      (held : Bool) (os : List (Owner V C))
      → IsHeldBy id held os
      → IsHeldBy id held (on_first f held os)
  on_first-IsHeldBy f keeps id true [] h = h
  on_first-IsHeldBy f keeps id true (o ∷ os) (e, a, hs) = (e, keeps o.queue ∙ a, hs)
  on_first-IsHeldBy f keeps id false [] h = h
  on_first-IsHeldBy f keeps id false (o ∷ os) h = h

  pub dispose-IsShut :
      (id : Option Text) (held : Bool) (os : List (Owner V C))
      → IsHeldBy id held os
      → All IsShut (on_first dispose held os)
  dispose-IsShut id true [] h = tt
  dispose-IsShut id true (o ∷ os) (e, a, hs) = (accepting-dispose o.queue, hs)
  dispose-IsShut id false [] h = tt
  dispose-IsShut id false (o ∷ os) (e, hs) = hs
