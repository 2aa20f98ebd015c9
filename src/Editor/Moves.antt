-- ===== src/Editor/Moves.antt =====
-- What a batch of position changes does to the records.
use network_topology_map.Prelude.{
  ◌≡◌, refl, ap, sym, ◌∙◌, Bool, true, false, Option, none, some, List, [], ◌∷◌, map, Text, text_eq,
  text_eq_iff, any, if◌then◌else◌, arith, Bool-cases, Option-cases, inl, inr,
}
use network_topology_map.Numbers.{Comparison}
use network_topology_map.Types.{NodeRecord}
use network_topology_map.Editor.{
  Point, NodePositionChange, Table, get, set, finite_point, positions_of, move_to, move_all,
  apply_table, apply_node_position_changes,
}

pub get-set :
    {V : Type 0} (k j : Text) (v : V) (t : Table V)
    → get j (set k v t) ≡ (if text_eq k j then some v else get j t)
unfolding get set
get-set k j v [] = refl
get-set k j v ((i, w) ∷ t) =
    ground (arith, text_eq_iff k j, text_eq_iff i k, text_eq_iff i j, get-set k j v t)

module _ {N : Type 0} (n : Comparison N) where
  -- The position that the last usable change for a node asks for, or else `o`.
  abbrev wanted : Option (Point N) → Option (Point N) → Option (Point N)
  wanted o none = o
  wanted o (some p) = if finite_point n p then some p else o

  abbrev pub last_position :
      Option (Point N) → Text → List (NodePositionChange N) → Option (Point N)
  last_position o id [] = o
  last_position o id (c ∷ cs) =
      last_position (if text_eq c.id id then wanted o c.position else o) id cs

  get-positions_of :
      (id : Text) (t : Table (Point N)) (cs : List (NodePositionChange N))
      → get id (positions_of n t cs) ≡ last_position (get id t) id cs
  unfolding positions_of
  get-positions_of id t [] = refl
  get-positions_of id t (c ∷ cs) = elim (Option-cases c.position) [
    | inl e ↦ ground (arith, get-positions_of id t cs)
    | inr (p, e) ↦ ground (
      arith,
      get-positions_of id t cs,
      get-positions_of id (set c.id p t) cs,
      get-set c.id id p t,
    )
  ]

  -- The record of a node after the changes, and whether it is another one.
  abbrev pub moved : List (NodePositionChange N) → NodeRecord N → NodeRecord N × Bool
  moved cs node = move_to n (last_position none node.id cs) node

  move_all_lem :
      (t : Table (Point N)) (cs : List (NodePositionChange N)) (nodes : List (NodeRecord N))
      → ((id : Text) → get id t ≡ last_position none id cs)
      → (move_all n t nodes).0 ≡ map (λ node. (moved cs node).0) nodes
  unfolding move_all
  move_all_lem t cs [] h = refl
  move_all_lem t cs (node ∷ nodes) h = cc (h node.id, move_all_lem t cs nodes h)

  move_all_flag :
      (t : Table (Point N)) (cs : List (NodePositionChange N)) (nodes : List (NodeRecord N))
      → ((id : Text) → get id t ≡ last_position none id cs)
      → (move_all n t nodes).1 ≡ any (λ node. (moved cs node).1) nodes
  unfolding move_all
  move_all_flag t cs [] h = refl
  move_all_flag t cs (node ∷ nodes) h = cc (h node.id, move_all_flag t cs nodes h)

  move_to_same :
      (o : Option (Point N)) (node : NodeRecord N)
      → (move_to n o node).1 ≡ false
      → (move_to n o node).0 ≡ node
  move_to_same none node h = refl
  move_to_same (some p) node h = ground arith

  map_same :
      (cs : List (NodePositionChange N)) (nodes : List (NodeRecord N))
      → any (λ node. (moved cs node).1) nodes ≡ false
      → map (λ node. (moved cs node).0) nodes ≡ nodes
  map_same cs [] h = refl
  map_same cs (node ∷ nodes) h =
      ground (arith, move_to_same (last_position none node.id cs) node, map_same cs nodes)

  quiet_of_none :
      (cs : List (NodePositionChange N)) (nodes : List (NodeRecord N))
      → ((id : Text) → none ≡ last_position none id cs)
      → any (λ node. (moved cs node).1) nodes ≡ false
  quiet_of_none cs [] h = refl
  quiet_of_none cs (node ∷ nodes) h = ground (arith, h node.id, quiet_of_none cs nodes h)

  apply_table_lem :
      (t : Table (Point N)) (nodes : List (NodeRecord N)) (cs : List (NodePositionChange N))
      → ((id : Text) → get id t ≡ last_position none id cs)
      → ((apply_table n t nodes).0 ≡ map (λ node. (moved cs node).0) nodes)
        × ((apply_table n t nodes).1 ≡ any (λ node. (moved cs node).1) nodes)
  unfolding get
  apply_table_lem [] nodes cs h =
      let quiet = quiet_of_none cs nodes h in (sym (map_same cs nodes quiet), sym quiet)
  apply_table_lem (e ∷ t) nodes cs h = elim (Bool-cases (move_all n (e ∷ t) nodes).1) [
    | inl new ↦ rw new (move_all_lem (e ∷ t) cs nodes h, sym new ∙ move_all_flag (e ∷ t) cs nodes h)
    | inr old ↦
        let quiet = sym (move_all_flag (e ∷ t) cs nodes h) ∙ old in
        rw old (sym (map_same cs nodes quiet), sym quiet)
  ]

  -- Over any batch of changes: each record moves to the last usable position that the batch has for
  -- its node (usable: present and finite), keeping all else, and stays as it is if there is none or
  -- it is there already; the array is a new one exactly if some record is.
  pub apply_node_position_changes_lem :
      (nodes : List (NodeRecord N)) (cs : List (NodePositionChange N))
      → ((apply_node_position_changes n nodes cs).0 ≡ map (λ node. (moved cs node).0) nodes)
        × ((apply_node_position_changes n nodes cs).1 ≡ any (λ node. (moved cs node).1) nodes)
  unfolding apply_node_position_changes
  apply_node_position_changes_lem nodes cs =
      apply_table_lem (positions_of n [] cs) nodes cs
        (λ id. unfold get in get-positions_of id [] cs)

  last_position-finite :
      (o : Option (Point N)) (id : Text) (cs : List (NodePositionChange N)) (p : Point N)
      → ((q : Point N) → o ≡ some q → finite_point n q ≡ true)
      → last_position o id cs ≡ some p
      → finite_point n p ≡ true
  last_position-finite o id [] p h e = h p e
  last_position-finite o id (c ∷ cs) p h e =
      last_position-finite (if text_eq c.id id then wanted o c.position else o) id cs p
        (λ q g. elim (Option-cases c.position) [
          | inl absent ↦ h q (ground arith)
          | inr (r, present) ↦ ground (arith, h q)
        ])
        e

  move_to_again :
      (o : Option (Point N)) (node : NodeRecord N)
      → ((q : Point N) → o ≡ some q → finite_point n q ≡ true)
      → (move_to n o (move_to n o node).0).1 ≡ false
  move_to_again none node h = refl
  move_to_again (some p) node h = ground (arith, h p refl, n.same_refl p.x, n.same_refl p.y)

  move_to_id : (o : Option (Point N)) (node : NodeRecord N) → (move_to n o node).0.id ≡ node.id
  move_to_id none node = refl
  move_to_id (some p) node = ground arith

  moved_again :
      (cs : List (NodePositionChange N)) (node : NodeRecord N)
      → (moved cs (moved cs node).0).1 ≡ false
  moved_again cs node =
      let o = last_position none node.id cs in
      let once = (move_to n o node).0 in
      ap (λ (id : Text). (move_to n (last_position none id cs) once).1) (move_to_id o node)
      ∙ move_to_again o node (λ q e. last_position-finite none node.id cs q (λ r f. cc) e)

  any_again :
      (cs : List (NodePositionChange N)) (nodes : List (NodeRecord N))
      → any (λ node. (moved cs node).1) (map (λ node. (moved cs node).0) nodes) ≡ false
  any_again cs [] = refl
  any_again cs (node ∷ nodes) = rw moved_again (any_again cs nodes)

  -- The same batch applied again changes nothing, and the array stays the very same.
  pub apply_node_position_changes_idem :
      (nodes : List (NodeRecord N)) (cs : List (NodePositionChange N))
      → let once = (apply_node_position_changes n nodes cs).0 in
        apply_node_position_changes n once cs ≡ (once, false)
  apply_node_position_changes_idem nodes cs =
      let (same, flag) = apply_node_position_changes_lem nodes cs in
      let once = (apply_node_position_changes n nodes cs).0 in
      let (same', flag') = apply_node_position_changes_lem once cs in
      let quiet = ap (any (λ (node : NodeRecord N). (moved cs node).1)) same ∙ any_again cs nodes in
      λ i. ((same' ∙ map_same cs once quiet) i, (flag' ∙ quiet) i)
