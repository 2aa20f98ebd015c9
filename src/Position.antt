-- ===== src/Position.antt =====
-- frontend/src/app/nodePositionPersistence.ts: serialised writes of each node's position. `P` is
-- the type of positions and `C` that of rejection causes; `truthy` is JavaScript's test of a cause.
-- An entry is an object that the map and the handlers of a running save share, so entries stand on
-- a heap and the map and the saves hold references. The record has, below the object's field, the
-- saves that have not settled (with the entry and the node that their handlers hold), every save
-- call made (newest first) and the reports (newest first).
pub mod Ownership
pub mod Outcome
mod Tests
use network_topology_map.Prelude.{
  ℕ, suc, Bool, true, false, not, ◌||◌, Option, none, some, List, [], ◌∷◌, Text, text_eq, is_some,
  get_or, if◌then◌else◌, ◌==◌,
}
use network_topology_map.Prelude.Timer.{waiting, without}

pub record Entry (P C : Type 0) : Type 0 where
  pub pending : Option P
  pub in_flight : Bool
  pub failure : Option C

pub data Report (C : Type 0) : Type 0 where
  error : C → Report C
  saved : Report C

pub record NodePositionPersistence (P C : Type 0) : Type 0 where
  pub entries : Text → Option ℕ
  pub heap : ℕ → Entry P C
  pub next : ℕ
  pub saving : List (ℕ × Text)
  pub saves : List (Text × P)
  pub reports : List (Report C)

abbrev pub no_entry : {P C : Type 0} → Entry P C
no_entry = record { pending = none; in_flight = false; failure = none }

-- A write to one entry of the heap.
abbrev pub put : {A : Type 0} → ℕ → A → (ℕ → A) → ℕ → A
put o a heap q = if o == q then a else heap q

-- `entries.set(nodeId, …)` and `entries.delete(nodeId)`
abbrev pub bind : Text → Option ℕ → (Text → Option ℕ) → Text → Option ℕ
bind node o entries n = if text_eq node n then o else entries n

-- `if (entry.failure)`: the report at the end of a node's saves
abbrev pub verdict : {C : Type 0} → (C → Bool) → Option C → Report C
verdict truthy none = saved
verdict truthy (some cause) = if truthy cause then error cause else saved

module _ {P C : Type 0} where
  abbrev pub new : NodePositionPersistence P C
  new = record {
    entries = λ n. none;
    heap = λ o. no_entry;
    next = 0;
    saving = [];
    saves = [];
    reports = [];
  }

  abbrev pub update : ℕ → Entry P C → NodePositionPersistence P C → NodePositionPersistence P C
  update o e s = record s { heap = put o e s.heap }

  abbrev start_save :
      Text → ℕ → Option P → NodePositionPersistence P C → NodePositionPersistence P C
  start_save node o none s = s
  start_save node o (some position) s = record s {
    heap = put o (record (s.heap o) { pending = none; in_flight = true }) s.heap;
    saving = (o, node) ∷ s.saving;
    saves = (node, position) ∷ s.saves;
  }

  pub flush : Text → ℕ → NodePositionPersistence P C → NodePositionPersistence P C
  flush node o s =
      if (s.heap o).in_flight || not (is_some (s.heap o).pending)
      then s
      else start_save node o (s.heap o).pending s

  -- the entry of a node: the one in the map, or a fresh one, put there
  pub entry_for : Text → Option ℕ → NodePositionPersistence P C → ℕ × NodePositionPersistence P C
  entry_for node (some o) s = (o, record s { entries = bind node (some o) s.entries })
  entry_for node none s = (
    s.next,
    record s {
      entries = bind node (some s.next) s.entries;
      heap = put s.next no_entry s.heap;
      next = suc s.next;
    },
  )

  pub schedule : Text → P → NodePositionPersistence P C → NodePositionPersistence P C
  unfolding flush entry_for
  schedule node position s =
      let (o, t) = entry_for node (s.entries node) s in
      flush node o (update o (record (t.heap o) { pending = some position }) t)

  module _ (truthy : C → Bool) where
    -- the `finally` handler
    abbrev finish : Text → ℕ → NodePositionPersistence P C → NodePositionPersistence P C
    finish node o s =
        let t = update o (record (s.heap o) { in_flight = false }) s in
        if is_some (t.heap o).pending then flush node o t else record t {
          entries = bind node none t.entries;
          reports = verdict truthy (t.heap o).failure ∷ t.reports;
        }

    -- The save of the entry `o` settles: `then` or `catch`, and `finally`.
    pub settle : ℕ → Option C → NodePositionPersistence P C → NodePositionPersistence P C
    unfolding flush
    settle o outcome s = elim (waiting o s.saving) [
      | none ↦ s
      | some node ↦ finish node o (
          update o (record (s.heap o) { failure = outcome })
            (record s { saving = without o s.saving }))
    ]

-- What may happen to the object, in any order.
pub data Event (P C : Type 0) : Type 0 where
  scheduled : Text → P → Event P C
  settled : ℕ → Option C → Event P C

module _ {P C : Type 0} (truthy : C → Bool) where
  abbrev pub step : Event P C → NodePositionPersistence P C → NodePositionPersistence P C
  step (scheduled node position) s = schedule node position s
  step (settled o outcome) s = settle truthy o outcome s

  pub run : NodePositionPersistence P C → List (Event P C) → NodePositionPersistence P C
  run s [] = s
  run s (e ∷ es) = run (step e s) es
