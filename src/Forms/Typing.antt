-- ===== src/Forms/Typing.antt =====
-- What a node's form holds after typing, renders and canvas moves.
use network_topology_map.Prelude.{
  ℕ, ◌≡◌, refl, ap, sym, ◌∙◌, Bool, true, Option, none, some, List, [], ◌∷◌, Text, Bool-cases, inl,
  inr, arith, All,
}
use network_topology_map.Types.{NodeRecord, NodePayload}
use network_topology_map.Numbers.{Comparison}
use network_topology_map.Editor.{Point, merge_external_position}
use network_topology_map.Forms.{Form, reset-same_key, update, mount}
use network_topology_map.Forms.Node.{
  NodeField, typed_name, chosen_kind, typed_icon, chosen_icon, typed_ipv4, typed_display_port,
  typed_hyperlink, seen_eq, merge_if_moved, NodeStep, typed, rendered, NodeForm, initial_node,
  assign_node, open_node, node_step, node_run, node_key, seen_of, merge_node,
}

module _ {N : Type 0} where
  -- The fields but the position.
  abbrev pub fields : Point N → NodePayload N → NodePayload N
  fields p draft = record draft { x = p.x; y = p.y }

  -- Each field as it was typed last.
  abbrev pub type_all : (Text → Text) → List (NodeStep N) → NodePayload N → NodePayload N
  type_all lower [] draft = draft
  type_all lower (typed field ∷ steps) draft = type_all lower steps (assign_node lower field draft)
  type_all lower (rendered shown p revision ∷ steps) draft = type_all lower steps draft

  -- The node that the last render gives.
  abbrev pub last_node : Option (NodeRecord N) → List (NodeStep N) → Option (NodeRecord N)
  last_node shown [] = shown
  last_node shown (typed field ∷ steps) = last_node shown steps
  last_node shown (rendered next p revision ∷ steps) = last_node next steps

  -- A render gives the key `key`.
  abbrev pub HasKey : Text → NodeStep N → Type 0
  HasKey key (typed field) = Unit
  HasKey key (rendered shown p revision) = node_key shown revision ≡ key

  module _ (n : Comparison N) where
    -- The node's place is finite.
    abbrev pub IsPlaceable : Option (NodeRecord N) → Type 0
    IsPlaceable none = Unit
    IsPlaceable (some node) = (n.finite node.x ≡ true) × (n.finite node.y ≡ true)

    abbrev pub IsPlaceableStep : NodeStep N → Type 0
    IsPlaceableStep (typed field) = Unit
    IsPlaceableStep (rendered shown p revision) = IsPlaceable shown

    -- The draft has the place of the node.
    abbrev pub IsPlaced : Option (NodeRecord N) → NodePayload N → Type 0
    IsPlaced none draft = Unit
    IsPlaced (some node) draft = (n.same draft.x node.x ≡ true) × (n.same draft.y node.y ≡ true)

assign-fields :
    {N : Type 0} (lower : Text → Text) (field : NodeField) (o : Point N) (d : NodePayload N)
    → assign_node lower field (fields o d) ≡ fields o (assign_node lower field d)
unfolding assign_node
assign-fields lower (typed_name value) o d = refl
assign-fields lower (chosen_kind kind) o d = refl
assign-fields lower (typed_icon value) o d = refl
assign-fields lower (chosen_icon id) o d = refl
assign-fields lower (typed_ipv4 value) o d = refl
assign-fields lower (typed_display_port port) o d = refl
assign-fields lower (typed_hyperlink value) o d = refl

module _ {N : Type 0} (n : Comparison N) where
  assign-IsPlaced :
      (lower : Text → Text) (field : NodeField) (shown : Option (NodeRecord N)) (d : NodePayload N)
      → IsPlaced n shown d
      → IsPlaced n shown (assign_node lower field d)
  unfolding assign_node
  assign-IsPlaced lower field none d h = tt
  assign-IsPlaced lower (typed_name value) (some r) d h = h
  assign-IsPlaced lower (chosen_kind kind) (some r) d h = h
  assign-IsPlaced lower (typed_icon value) (some r) d h = h
  assign-IsPlaced lower (chosen_icon id) (some r) d h = h
  assign-IsPlaced lower (typed_ipv4 value) (some r) d h = h
  assign-IsPlaced lower (typed_display_port port) (some r) d h = h
  assign-IsPlaced lower (typed_hyperlink value) (some r) d h = h

  merge_node-IsPlaced :
      (shown : Option (NodeRecord N)) (d : NodePayload N)
      → IsPlaceable n shown
      → IsPlaced n shown (merge_node n shown d)
  unfolding merge_external_position
  merge_node-IsPlaced none d h = tt
  merge_node-IsPlaced (some r) d h =
      (ground (arith, n.same_refl r.x, h.0), ground (arith, n.same_refl r.y, h.1))

  merge_node-fields :
      (shown : Option (NodeRecord N)) (o : Point N) (d : NodePayload N)
      → fields o (merge_node n shown d) ≡ fields o d
  unfolding merge_external_position
  merge_node-fields none o d = refl
  merge_node-fields (some r) o d = ground arith

  -- The second effect runs, or the node stands where it stood.
  merge_if_moved-IsPlaced :
      (same_value : N → N → Bool)
      → ((a b : N) → same_value a b ≡ true → a ≡ b)
      → (old shown : Option (NodeRecord N)) (form : Form (NodePayload N))
      → IsPlaced n old form.draft
      → IsPlaceable n shown
      → IsPlaced n shown
          (merge_if_moved n same_value shown
            (record { form = form; seen = seen_of old })).form.draft
  merge_if_moved-IsPlaced same_value eq old none form h k = tt
  merge_if_moved-IsPlaced same_value eq none (some r) form h k =
      merge_node-IsPlaced (some r) form.draft k
  merge_if_moved-IsPlaced same_value eq (some q) (some r) form h k =
      elim (Bool-cases (seen_eq same_value (seen_of (some q)) (seen_of (some r)))) [
        | inl e ↦
            let ex = eq q.x r.x (ground arith) in
            let ey = eq q.y r.y (ground arith) in rw (e, sym ex, sym ey) h
        | inr e ↦ rw e (merge_node-IsPlaced (some r) form.draft k)
      ]

  merge_if_moved-fields :
      (same_value : N → N → Bool) (shown : Option (NodeRecord N)) (f : NodeForm N) (o : Point N)
      → fields o (merge_if_moved n same_value shown f).form.draft ≡ fields o f.form.draft
  merge_if_moved-fields same_value shown f o =
      elim (Bool-cases (seen_eq same_value f.seen (seen_of shown))) [
        | inl e ↦ rw e refl
        | inr e ↦ rw e (merge_node-fields shown o f.form.draft)
      ]

  type_all-fields :
      (lower : Text → Text) (steps : List (NodeStep N)) (o : Point N) (d e : NodePayload N)
      → fields o d ≡ fields o e
      → fields o (type_all lower steps d) ≡ fields o (type_all lower steps e)
  type_all-fields lower [] o d e h = h
  type_all-fields lower (rendered shown p revision ∷ steps) o d e h =
      type_all-fields lower steps o d e h
  type_all-fields lower (typed field ∷ steps) o d e h =
      type_all-fields lower steps o (assign_node lower field d) (assign_node lower field e) (
        sym (assign-fields lower field o d)
        ∙ ap (assign_node lower field) h
        ∙ assign-fields lower field o e)

  merge_if_moved-reset_key :
      (same_value : N → N → Bool) (shown : Option (NodeRecord N)) (f : NodeForm N)
      → (merge_if_moved n same_value shown f).form.reset_key ≡ f.form.reset_key
  merge_if_moved-reset_key same_value shown f =
      elim (Bool-cases (seen_eq same_value f.seen (seen_of shown))) [
        | inl e ↦ rw e refl
        | inr e ↦ rw e refl
      ]

  module _ (same_value : N → N → Bool) (lower : Text → Text) where
    node_step-typed :
        (field : NodeField) (f : NodeForm N)
        → node_step n same_value lower (typed field) f
          ≡ record f { form = update (assign_node lower field) f.form }
    unfolding node_step
    node_step-typed field f = refl

    node_step-rendered :
        (shown : Option (NodeRecord N)) (p : Point N) (revision : ℕ) (f : NodeForm N)
        → node_key shown revision ≡ f.form.reset_key
        → node_step n same_value lower (rendered shown p revision) f
          ≡ merge_if_moved n same_value shown f
    unfolding node_step
    node_step-rendered shown p revision f h =
        ap (λ form. merge_if_moved n same_value shown (record f { form = form }))
          (reset-same_key (node_key shown revision) (initial_node shown p) f.form h)

    node_run-draft :
        ((a b : N) → same_value a b ≡ true → a ≡ b)
        → (steps : List (NodeStep N)) (shown : Option (NodeRecord N)) (form : Form (NodePayload N))
          (key : Text) (o : Point N)
        → form.reset_key ≡ key
        → All (HasKey key) steps
        → All (IsPlaceableStep n) steps
        → IsPlaced n shown form.draft
        → let d =
            (node_run n same_value lower steps
              (record { form = form; seen = seen_of shown })).form.draft in
          (fields o d ≡ fields o (type_all lower steps form.draft))
          × IsPlaced n (last_node shown steps) d
    unfolding node_run
    node_run-draft eq [] shown form key o kf hk hp h = (refl, h)
    node_run-draft eq (typed field ∷ steps) shown form key o kf (k, hk) (p, hp) h =
        rw (node_run, node_step-typed field (record { form = form; seen = seen_of shown }))
          (node_run-draft eq steps shown (update (assign_node lower field) form) key o kf hk hp
            (assign-IsPlaced lower field shown form.draft h))
    node_run-draft eq (rendered next p revision ∷ steps) shown form key o kf (k, hk) (q, hp) h =
        rw
          (
            node_run,
            node_step-rendered next p revision (record { form = form; seen = seen_of shown })
                (k ∙ sym kf),
          )
          (let f : NodeForm N = record { form = form; seen = seen_of shown } in
            let merged = merge_if_moved n same_value next f in
            let (same_fields, place) =
              node_run-draft eq steps next merged.form key o
                (merge_if_moved-reset_key same_value next f ∙ kf) hk hp
                (merge_if_moved-IsPlaced same_value eq shown next form h q) in
            (
              same_fields
                  ∙ type_all-fields lower steps o merged.form.draft form.draft
                      (merge_if_moved-fields same_value next f o),
              place,
            ))

    -- A form opened with a new key, or for the first time, and then any typing and any renders with
    -- the same key, in any order, where every node rendered stands at a finite place: the draft has
    -- the place of the node rendered last, and each other field as typing alone makes it from the
    -- record that the form was opened with.
    pub node_run-open_node :
        ((a b : N) → same_value a b ≡ true → a ≡ b)
        → (steps : List (NodeStep N)) (shown : Option (NodeRecord N)) (p o : Point N) (revision : ℕ)
        → IsPlaceable n shown
        → All (IsPlaceableStep n) steps
        → All (HasKey (node_key shown revision)) steps
        → let d = (node_run n same_value lower steps (open_node n shown p revision)).form.draft in
          (fields o d ≡ fields o (type_all lower steps (initial_node shown p)))
          × IsPlaced n (last_node shown steps) d
    unfolding open_node
    node_run-open_node eq steps shown p o revision h hp hk =
        let initial = initial_node shown p in
        let opened = update (merge_node n shown) (mount (node_key shown revision) initial) in
        let (same_fields, place) =
          node_run-draft eq steps shown opened (node_key shown revision) o refl hk hp
            (merge_node-IsPlaced shown initial h) in
        (
          same_fields
              ∙ type_all-fields lower steps o opened.draft initial
                  (merge_node-fields shown o initial),
          place,
        )
