-- ===== src/Forms/Reverting.antt =====
-- Where a group's form puts the group when it is saved.
use network_topology_map.Prelude.{
  ℕ, ◌≡◌, ◌∙◌, refl, sym, ap, Option, some, List, [], ◌∷◌, Text, All,
}
use network_topology_map.Types.{GroupRecord, GroupPayload}
use network_topology_map.Editor.{Point}
use network_topology_map.Forms.{Form, reset-same_key, update}
use network_topology_map.Forms.Group.{
  GroupField, typed_group_name, typed_width, typed_height, GroupStep, group_typed, group_rendered,
  group_key, initial_group, assign_group, saved_group, open_group, group_step, group_run,
}

module _ {N : Type 0} where
  -- Each field as it was typed last.
  abbrev pub type_group : List (GroupStep N) → GroupPayload N → GroupPayload N
  type_group [] draft = draft
  type_group (group_typed field ∷ steps) draft = type_group steps (assign_group field draft)
  type_group (group_rendered group p revision ∷ steps) draft = type_group steps draft

  -- A render gives the key `key`.
  abbrev pub HasGroupKey : Text → GroupStep N → Type 0
  HasGroupKey key (group_typed field) = Unit
  HasGroupKey key (group_rendered group p revision) = group_key group revision ≡ key

  module _ (numeral : ℕ → N) where
    group_step-group_rendered :
        (group : Option (GroupRecord N)) (p : Point N) (revision : ℕ) (f : Form (GroupPayload N))
        → group_key group revision ≡ f.reset_key
        → group_step numeral (group_rendered group p revision) f ≡ f
    unfolding group_step
    group_step-group_rendered group p revision f h =
        reset-same_key (group_key group revision) (initial_group numeral group p) f h

    group_step-group_typed :
        (field : GroupField N) (f : Form (GroupPayload N))
        → group_step numeral (group_typed field) f ≡ update (assign_group field) f
    unfolding group_step
    group_step-group_typed field f = refl

    group_run-draft :
        (steps : List (GroupStep N)) (f : Form (GroupPayload N)) (key : Text)
        → f.reset_key ≡ key
        → All (HasGroupKey key) steps
        → (group_run numeral steps f).draft ≡ type_group steps f.draft
    unfolding group_run
    group_run-draft [] f key hk h = refl
    group_run-draft (group_typed field ∷ steps) f key hk (g, h) =
        rw (group_run, group_step-group_typed field f)
          (group_run-draft steps (update (assign_group field) f) key hk h)
    group_run-draft (group_rendered group p revision ∷ steps) f key hk (g, h) =
        rw (group_run, group_step-group_rendered group p revision f (g ∙ sym hk))
          (group_run-draft steps f key hk h)

  type_group-place :
      (steps : List (GroupStep N)) (d : GroupPayload N)
      → ((type_group steps d).x ≡ d.x) × ((type_group steps d).y ≡ d.y)
  unfolding assign_group
  type_group-place [] d = (refl, refl)
  type_group-place (group_rendered group p revision ∷ steps) d = type_group-place steps d
  type_group-place (group_typed (typed_group_name value) ∷ steps) d =
      type_group-place steps (record d { name = value })
  type_group-place (group_typed (typed_width value) ∷ steps) d =
      type_group-place steps (record d { width = value })
  type_group-place (group_typed (typed_height value) ∷ steps) d =
      type_group-place steps (record d { height = value })

  -- The form of a saved group, after any typing and any renders with the key that it was opened with,
  -- also renders of the group at another place: what it saves has the place that the group had when
  -- the form was opened, and the fields as they were typed last, the name trimmed.
  pub group_run-open_group :
      (numeral : ℕ → N) (steps : List (GroupStep N)) (group : GroupRecord N) (p : Point N)
      (revision : ℕ)
      → All (HasGroupKey (group_key (some group) revision)) steps
      → let opened = initial_group numeral (some group) p in
        let saved =
          saved_group
            (group_run numeral steps (open_group numeral (some group) p revision)).draft in
        (saved.x ≡ group.x) × (saved.y ≡ group.y) × (saved ≡ saved_group (type_group steps opened))
  unfolding open_group initial_group saved_group
  group_run-open_group numeral steps group p revision h =
      let opened = initial_group numeral (some group) p in
      let e = group_run-draft numeral steps (open_group numeral (some group) p revision) _ refl h in
      let (ex, ey) = type_group-place steps opened in
      (
        ap (λ (d : GroupPayload N). d.x) e ∙ ex,
        ap (λ (d : GroupPayload N). d.y) e ∙ ey,
        ap saved_group e,
      )
