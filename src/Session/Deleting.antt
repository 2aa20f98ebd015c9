-- ===== src/Session/Deleting.antt =====
-- What the Delete key deletes.
use network_topology_map.Prelude.{
  ◌≡◌, refl, Bool, true, false, not, ◌||◌, Option, none, some, List, Text, codes, text_eq, is_some,
  arith, Option-cases, Bool-cases, inl, inr, if◌then◌else◌,
}
use network_topology_map.Types.{NodeRecord, LinkRecord}
use network_topology_map.Client.Endpoints.{delete_node, delete_link}
use network_topology_map.Session.State.{
  Session, new, send, link_inspector, node_inspector, inspector, selected_node, selected_link,
}
use network_topology_map.Session.Saving.{
  on_key_down, is_id, delete_selected_node, delete_selected_link,
}
use network_topology_map.Session.Steps.{Act, run}
use network_topology_map.Session.Exclusion.{IsExclusive, run-IsExclusive}
use network_topology_map.Session.Showing.{beside, selected_link-none}

is_id-some : (o : Option Text) → is_id o ≡ true → is_some o ≡ true
is_id-some none h = h
is_id-some (some t) h = refl

module _ {N : Type 0} where
  -- What a key press does: nothing, or the deletion of the selected node or link, which the
  -- inspector shows unless the page is loading.
  pub data DeletesShown (s : Session N) (confirmed : Bool) : Session N → Type 0 where
    nothing : DeletesShown s confirmed s
    node :
        (n : NodeRecord N)
        → s.saving ≡ false
        → confirmed ≡ true
        → selected_node s ≡ some n
        → inspector s ≡ beside s (node_inspector (some n))
        → DeletesShown s confirmed (send (delete_node n.id) (record s { saving = true }))
    link :
        (l : LinkRecord)
        → s.saving ≡ false
        → confirmed ≡ true
        → selected_link s ≡ some l
        → inspector s ≡ beside s (link_inspector (some l))
        → DeletesShown s confirmed
            (send (delete_link l.id) (record s { saving = true; error = none }))

  inspector-selected_node :
      (s : Session N) (n : NodeRecord N)
      → IsExclusive s
      → is_some s.selected_node_id ≡ true
      → selected_node s ≡ some n
      → inspector s ≡ beside s (node_inspector (some n))
  unfolding inspector
  inspector-selected_node s n x chosen h =
      rw (selected_link-none s (x.one_target chosen), h, x.no_link_form chosen) refl

  inspector-selected_link :
      (s : Session N) (l : LinkRecord)
      → selected_link s ≡ some l
      → inspector s ≡ beside s (link_inspector (some l))
  unfolding inspector
  inspector-selected_link s l h = rw h refl

  delete_selected_node-DeletesShown :
      (s : Session N) (confirmed : Bool)
      → IsExclusive s
      → s.saving ≡ false
      → is_some s.selected_node_id ≡ true
      → DeletesShown s confirmed (delete_selected_node confirmed s)
  unfolding delete_selected_node
  delete_selected_node-DeletesShown s false x idle chosen = elim (Option-cases (selected_node s)) [
    | inl missing ↦ rw (missing, delete_selected_node) nothing
    | inr (n, h) ↦ rw (h, delete_selected_node) nothing
  ]
  delete_selected_node-DeletesShown s true x idle chosen = elim (Option-cases (selected_node s)) [
    | inl missing ↦ rw (missing, delete_selected_node) nothing
    | inr (n, h) ↦
        rw (h, delete_selected_node) (node n idle refl h (inspector-selected_node s n x chosen h))
  ]

  delete_selected_link-DeletesShown :
      (s : Session N) (confirmed : Bool)
      → s.saving ≡ false
      → DeletesShown s confirmed (delete_selected_link confirmed s)
  unfolding delete_selected_link
  delete_selected_link-DeletesShown s false idle = elim (Option-cases (selected_link s)) [
    | inl missing ↦ rw (missing, delete_selected_link) nothing
    | inr (l, h) ↦ rw (h, delete_selected_link) nothing
  ]
  delete_selected_link-DeletesShown s true idle = elim (Option-cases (selected_link s)) [
    | inl missing ↦ rw (missing, delete_selected_link) nothing
    | inr (l, h) ↦ rw (h, delete_selected_link) (link l idle refl h (inspector-selected_link s l h))
  ]

  pressed :
      (s : Session N) (confirmed : Bool)
      → IsExclusive s
      → s.saving ≡ false
      → DeletesShown s confirmed (
          if is_id s.selected_node_id
          then delete_selected_node confirmed s
          else if is_id s.selected_link_id
          then delete_selected_link confirmed s
          else s)
  pressed s confirmed x idle = elim (Bool-cases (is_id s.selected_node_id)) [
    | inl h ↦
        rw h
          (delete_selected_node-DeletesShown s confirmed x idle (is_id-some s.selected_node_id h))
    | inr h ↦ rw h (elim (Bool-cases (is_id s.selected_link_id)) [
      | inl k ↦ rw k (delete_selected_link-DeletesShown s confirmed idle)
      | inr k ↦ rw k nothing
    ])
  ]

  pressed_key-DeletesShown :
      (s : Session N) (key : Text) (in_form confirmed : Bool)
      → IsExclusive s
      → DeletesShown s confirmed (on_key_down key in_form confirmed s)
  unfolding on_key_down
  pressed_key-DeletesShown s key in_form confirmed x =
      elim (Bool-cases (not (text_eq key (codes "Delete")) || s.saving || in_form)) [
        | inl off ↦ rw off nothing
        | inr acts ↦ rw acts (pressed s confirmed x (ground arith))
      ]

  -- After any steps of a new page, in any order, a key press changes nothing; or, once the user has
  -- confirmed and while nothing is being saved, it asks to delete the one node or link that is
  -- selected, and that is the one the inspector shows, unless the page is loading: then it is asked
  -- for all the same, with the loading screen shown.
  pub on_key_down-DeletesShown :
      (es : List (Act N)) (key : Text) (in_form confirmed : Bool)
      → let s = run new es in DeletesShown s confirmed (on_key_down key in_form confirmed s)
  on_key_down-DeletesShown es key in_form confirmed =
      pressed_key-DeletesShown (run new es) key in_form confirmed (run-IsExclusive es)
