-- ===== src/Position/Ownership.antt =====
-- Each entry in the map has exactly one running save, which holds that same entry, and no node has
-- a second save.
use network_topology_map.Prelude.{
  ℕ, suc, ◌≤◌, ◌≡◌, Bool, true, Option, none, some, List, [], ◌∷◌, arith, refl, ◌==◌, if◌then◌else◌,
  Text, text_eq_iff, Option-cases, inl, inr,
}
use network_topology_map.Prelude.Timer.{waiting, without}
use network_topology_map.Position.{
  NodePositionPersistence, new, schedule, settle, Event, run, scheduled, settled,
}

waiting-without :
    {A : Type 0} (o q : ℕ) (ts : List (ℕ × A))
    → waiting q (without o ts) ≡ (if o == q then none else waiting q ts)
waiting-without o q [] = ground arith
waiting-without o q ((u, a) ∷ ts) = ground (arith, waiting-without o q ts)

-- How many calls wait behind a handle.
abbrev pub copies : {A : Type 0} → ℕ → List (ℕ × A) → ℕ
copies o [] = 0
copies o ((u, a) ∷ ts) = if u == o then suc (copies o ts) else copies o ts

copies-without :
    {A : Type 0} (o q : ℕ) (ts : List (ℕ × A))
    → copies q (without o ts) ≡ (if o == q then 0 else copies q ts)
copies-without o q [] = ground arith
copies-without o q ((u, a) ∷ ts) = ground (arith, copies-without o q ts)

copies_of_none : {A : Type 0} (o : ℕ) (ts : List (ℕ × A)) → waiting o ts ≡ none → copies o ts ≡ 0
copies_of_none o [] h = refl
copies_of_none o ((u, a) ∷ ts) h = ground (arith, copies_of_none o ts)

module _ {P C : Type 0} where
  -- The map and the running saves hold the same entries: an entry in the map has one running save,
  -- which holds it for its node and has marked it; an entry not yet made has none.
  pub record IsOwned (s : NodePositionPersistence P C) : Type 0 where
    pub held : (n : Text) (o : ℕ) → s.entries n ≡ some o → waiting o s.saving ≡ some n
    pub holds : (n : Text) (o : ℕ) → waiting o s.saving ≡ some n → s.entries n ≡ some o
    pub flying : (n : Text) (o : ℕ) → waiting o s.saving ≡ some n → (s.heap o).in_flight ≡ true
    pub fresh : (o : ℕ) → s.next ≤ o → waiting o s.saving ≡ none
    pub single : (o : ℕ) → copies o s.saving ≤ 1

  pub new-IsOwned : IsOwned new
  new-IsOwned = record {
    held = λ n o h. cc;
    holds = λ n o h. cc;
    flying = λ n o h. cc;
    fresh = λ o h. refl;
    single = λ o. ground arith;
  }

  module _ (node : Text) (p : P) (s : NodePositionPersistence P C) (v : IsOwned s) where
    schedule_held :
        (n : Text) (o : ℕ)
        → (schedule node p s).entries n ≡ some o
        → waiting o (schedule node p s).saving ≡ some n
    unfolding schedule
    schedule_held n o h = elim (Option-cases (s.entries node)) [
      | inl free ↦ ground (arith, text_eq_iff node n, v.held n o, v.fresh s.next, v.fresh o)
      | inr (q, e) ↦ ground (
        arith,
        text_eq_iff node n,
        v.held n o,
        v.held node q e,
        v.flying node q (v.held node q e),
      )
    ]

    schedule_holds :
        (n : Text) (o : ℕ)
        → waiting o (schedule node p s).saving ≡ some n
        → (schedule node p s).entries n ≡ some o
    unfolding schedule
    schedule_holds n o h = elim (Option-cases (s.entries node)) [
      | inl free ↦ ground (arith, text_eq_iff node n, v.holds n o)
      | inr (q, e) ↦ ground (
        arith,
        text_eq_iff node n,
        v.holds n o,
        v.held node q e,
        v.flying node q (v.held node q e),
      )
    ]

    schedule_flying :
        (n : Text) (o : ℕ)
        → waiting o (schedule node p s).saving ≡ some n
        → ((schedule node p s).heap o).in_flight ≡ true
    unfolding schedule
    schedule_flying n o h = elim (Option-cases (s.entries node)) [
      | inl free ↦ ground (arith, v.flying n o, v.fresh s.next, v.fresh o)
      | inr (q, e) ↦
          ground (arith, v.flying n o, v.held node q e, v.flying node q (v.held node q e))
    ]

    schedule_fresh :
        (o : ℕ) → (schedule node p s).next ≤ o → waiting o (schedule node p s).saving ≡ none
    unfolding schedule
    schedule_fresh o h = elim (Option-cases (s.entries node)) [
      | inl free ↦ ground (arith, v.fresh o)
      | inr (q, e) ↦ ground (arith, v.fresh o, v.flying node q (v.held node q e))
    ]

    schedule_single : (o : ℕ) → copies o (schedule node p s).saving ≤ 1
    unfolding schedule
    schedule_single o = elim (Option-cases (s.entries node)) [
      | inl free ↦ ground (arith, v.single o, v.fresh s.next, copies_of_none s.next s.saving)
      | inr (q, e) ↦ ground (arith, v.single o, v.flying node q (v.held node q e))
    ]

    pub schedule-IsOwned : IsOwned (schedule node p s)
    schedule-IsOwned = record {
      held = schedule_held;
      holds = schedule_holds;
      flying = schedule_flying;
      fresh = schedule_fresh;
      single = schedule_single;
    }

  module _ (truthy : C → Bool) (q : ℕ) (x : Option C) (s : NodePositionPersistence P C)
      (v : IsOwned s) where
    settle_held :
        (n : Text) (o : ℕ)
        → (settle truthy q x s).entries n ≡ some o
        → waiting o (settle truthy q x s).saving ≡ some n
    unfolding settle
    settle_held n o h = elim (Option-cases (waiting q s.saving)) [
      | inl idle ↦ ground (arith, v.held n o)
      | inr (node, e) ↦
          ground
            (arith, text_eq_iff node n, v.held n o, v.holds node q e, waiting-without q o s.saving)
    ]

    settle_holds :
        (n : Text) (o : ℕ)
        → waiting o (settle truthy q x s).saving ≡ some n
        → (settle truthy q x s).entries n ≡ some o
    unfolding settle
    settle_holds n o h = elim (Option-cases (waiting q s.saving)) [
      | inl idle ↦ ground (arith, v.holds n o)
      | inr (node, e) ↦
          ground
            (arith, text_eq_iff node n, v.holds n o, v.holds node q e, waiting-without q o s.saving)
    ]

    settle_flying :
        (n : Text) (o : ℕ)
        → waiting o (settle truthy q x s).saving ≡ some n
        → ((settle truthy q x s).heap o).in_flight ≡ true
    unfolding settle
    settle_flying n o h = elim (Option-cases (waiting q s.saving)) [
      | inl idle ↦ ground (arith, v.flying n o)
      | inr (node, e) ↦ ground (arith, v.flying n o, waiting-without q o s.saving)
    ]

    settle_fresh :
        (o : ℕ) → (settle truthy q x s).next ≤ o → waiting o (settle truthy q x s).saving ≡ none
    unfolding settle
    settle_fresh o h = elim (Option-cases (waiting q s.saving)) [
      | inl idle ↦ ground (arith, v.fresh o)
      | inr (node, e) ↦ ground (arith, v.fresh o, v.fresh q, waiting-without q o s.saving)
    ]

    settle_single : (o : ℕ) → copies o (settle truthy q x s).saving ≤ 1
    unfolding settle
    settle_single o = elim (Option-cases (waiting q s.saving)) [
      | inl idle ↦ ground (arith, v.single o)
      | inr (node, e) ↦ ground (arith, v.single o, copies-without q o s.saving)
    ]

    pub settle-IsOwned : IsOwned (settle truthy q x s)
    settle-IsOwned = record {
      held = settle_held;
      holds = settle_holds;
      flying = settle_flying;
      fresh = settle_fresh;
      single = settle_single;
    }

  run_from-IsOwned :
      (truthy : C → Bool) (s : NodePositionPersistence P C) (es : List (Event P C))
      → IsOwned s
      → IsOwned (run truthy s es)
  unfolding run
  run_from-IsOwned truthy s [] v = v
  run_from-IsOwned truthy s (scheduled node p ∷ es) v =
      run_from-IsOwned truthy (schedule node p s) es (schedule-IsOwned node p s v)
  run_from-IsOwned truthy s (settled q x ∷ es) v =
      run_from-IsOwned truthy (settle truthy q x s) es (settle-IsOwned truthy q x s v)

  -- After any events, in any order, of a new object: the map and the running saves hold the same
  -- entries, each entry in the map with exactly one running save.
  pub run-IsOwned : (truthy : C → Bool) (es : List (Event P C)) → IsOwned (run truthy new es)
  run-IsOwned truthy es = run_from-IsOwned truthy new es new-IsOwned

  -- So one node never has two saves at once.
  pub one_save_per_node :
      (truthy : C → Bool) (es : List (Event P C)) (n : Text) (o q : ℕ)
      → let s = run truthy new es in
        waiting o s.saving ≡ some n
        → waiting q s.saving ≡ some n
        → (o ≡ q) × (copies o s.saving ≤ 1)
  one_save_per_node truthy es n o q h k =
      let v = run-IsOwned truthy es in (ground (arith, v.holds n o h, v.holds n q k), v.single o)
