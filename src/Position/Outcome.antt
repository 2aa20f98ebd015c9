-- ===== src/Position/Outcome.antt =====
-- What reaches the server and what is reported, node by node.
use network_topology_map.Prelude.{
  ℕ, ◌≡◌, Bool, false, Option, none, some, List, [], ◌∷◌, arith, refl, if◌then◌else◌, ◌∙◌, Text,
  text_eq, text_eq_iff, text_eq_refl, Option-cases, inl, inr,
}
use network_topology_map.Prelude.Timer.{waiting}
use network_topology_map.Position.{
  Entry, NodePositionPersistence, saved, verdict, new, schedule, settle, Event, run, scheduled,
  settled,
}
use network_topology_map.Position.Ownership.{IsOwned, new-IsOwned, schedule-IsOwned, settle-IsOwned}

module _ {P : Type 0} where
  -- the position that was last sent for a node
  abbrev pub last_saved : Text → List (Text × P) → Option P
  last_saved n [] = none
  last_saved n ((m, p) ∷ ws) = if text_eq m n then some p else last_saved n ws

  abbrev or_else : Option P → Option P → Option P
  or_else none o = o
  or_else (some p) o = some p

  abbrev pending_at : {C : Type 0} → (ℕ → Entry P C) → Option ℕ → Option P
  pending_at heap none = none
  pending_at heap (some o) = (heap o).pending

-- The position that a node is to have: the one that waits, or the one that was sent last.
abbrev pub destined : {P C : Type 0} → Text → NodePositionPersistence P C → Option P
destined n s = or_else (pending_at s.heap (s.entries n)) (last_saved n s.saves)

-- The position scheduled last for a node over some events, or `o` if there is none.
abbrev pub requested : {P C : Type 0} → Text → Option P → List (Event P C) → Option P
requested n o [] = o
requested n o (scheduled m p ∷ es) = requested n (if text_eq m n then some p else o) es
requested n o (settled q x ∷ es) = requested n o es

module _ {P C : Type 0} where
  destined-schedule :
      (n node : Text) (p : P) (s : NodePositionPersistence P C)
      → IsOwned s
      → destined n (schedule node p s) ≡ (if text_eq node n then some p else destined n s)
  unfolding schedule
  destined-schedule n node p s v = elim (Option-cases (s.entries node)) [
    | inl free ↦ elim (Option-cases (s.entries n)) [
      | inl none_there ↦ ground (arith, text_eq_refl node)
      | inr (o, there) ↦ ground (arith, text_eq_iff node n, v.held n o there, v.fresh s.next)
    ]
    | inr (q, e) ↦ elim (Option-cases (s.entries n)) [
      | inl none_there ↦ ground (arith, text_eq_iff node n, v.flying node q (v.held node q e))
      | inr (o, there) ↦ ground (
        arith,
        text_eq_iff node n,
        v.held n o there,
        v.held node q e,
        v.flying node q (v.held node q e),
      )
    ]
  ]

  destined-settle :
      (n : Text) (truthy : C → Bool) (q : ℕ) (x : Option C) (s : NodePositionPersistence P C)
      → IsOwned s
      → destined n (settle truthy q x s) ≡ destined n s
  unfolding settle
  destined-settle n truthy q x s v = elim (Option-cases (waiting q s.saving)) [
    | inl idle ↦ rw (idle, settle)
    | inr (node, e) ↦ elim (Option-cases (s.entries n)) [
      | inl none_there ↦ ground (arith, text_eq_iff node n, v.holds node q e)
      | inr (o, there) ↦ ground (arith, text_eq_iff node n, v.holds node q e, v.held n o there)
    ]
  ]

  destined-run :
      (n : Text) (truthy : C → Bool) (s : NodePositionPersistence P C) (es : List (Event P C))
      (o : Option P)
      → IsOwned s
      → destined n s ≡ o
      → destined n (run truthy s es) ≡ requested n o es
  unfolding run
  destined-run n truthy s [] o v e = e
  destined-run n truthy s (scheduled m p ∷ es) o v e =
      destined-run n truthy (schedule m p s) es (if text_eq m n then some p else o)
        (schedule-IsOwned m p s v) (rw (← e) (destined-schedule n m p s v))
  destined-run n truthy s (settled q x ∷ es) o v e =
      destined-run n truthy (settle truthy q x s) es o (settle-IsOwned truthy q x s v)
        (destined-settle n truthy q x s v ∙ e)

  -- Over any events of a new object, for every node: the position scheduled last for it either
  -- waits to be sent or is the one sent last. Other nodes' events make no difference.
  pub run-destined :
      (n : Text) (truthy : C → Bool) (es : List (Event P C))
      → destined n (run truthy new es) ≡ requested n none es
  run-destined n truthy es = destined-run n truthy new es none new-IsOwned refl

  -- When a node's save settles: a position that waits is sent at once, under the same entry, and
  -- nothing is reported; if none waits the node's entry goes and the last save's own outcome is
  -- reported, whatever failed before it.
  pub settle_lem :
      (truthy : C → Bool) (n : Text) (o : ℕ) (x : Option C) (s : NodePositionPersistence P C)
      → waiting o s.saving ≡ some n
      → let s' = settle truthy o x s in
        ((p : P)
          → (s.heap o).pending ≡ some p
          → (s'.saves ≡ (n, p) ∷ s.saves)
            × (s'.reports ≡ s.reports)
            × (waiting o s'.saving ≡ some n))
        × ((s.heap o).pending ≡ none
            → (s'.saves ≡ s.saves)
              × (s'.reports ≡ verdict truthy x ∷ s.reports)
              × (s'.entries n ≡ none))
  unfolding settle
  settle_lem truthy n o x s e = (λ p w. ground arith, λ w. ground (arith, text_eq_refl n))

  -- A save that is rejected with a falsy cause, and has no successor waiting, is reported as saved.
  pub falsy_rejection_reports_saved :
      (truthy : C → Bool) (n : Text) (o : ℕ) (cause : C) (s : NodePositionPersistence P C)
      → waiting o s.saving ≡ some n
      → (s.heap o).pending ≡ none
      → truthy cause ≡ false
      → (settle truthy o (some cause) s).reports ≡ saved ∷ s.reports
  falsy_rejection_reports_saved truthy n o cause s e w f =
      ((settle_lem truthy n o (some cause) s e).1 w).1 ∙ rw f
