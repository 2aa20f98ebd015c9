-- ===== src/Session/Showing.antt =====
-- What stands beside the canvas after a selection.
use network_topology_map.Prelude.{
  ◌≡◌, refl, Bool, Option, none, some, List, [], ◌∷◌, Text, id_eq, find, if◌then◌else◌,
}
use network_topology_map.Types.{NodeRecord, LinkRecord, GroupRecord, Snapshot}
use network_topology_map.Session.State.{
  Session, Inspector, link_inspector, node_inspector, group_inspector, loading_screen, found,
  inspector, selected_node, selected_link, selected_group,
}
use network_topology_map.Session.Selecting.{click_group}
use network_topology_map.Session.Saving.{group_saved}

find_nothing :
    {A : Type 0} (id_of : A → Text) (xs : List A)
    → find (λ x. id_eq (some (id_of x)) none) xs ≡ none
find_nothing id_of [] = refl
find_nothing id_of (x ∷ xs) = find_nothing id_of xs

module _ {N : Type 0} where
  abbrev pub group_in : Option (Snapshot N) → Text → Option (GroupRecord N)
  group_in snapshot id = found (λ (g : GroupRecord N). g.id) (λ s. s.groups) snapshot (some id)

  found_nothing :
      {A : Type 0} (id_of : A → Text) (items : Snapshot N → List A) (snapshot : Option (Snapshot N))
      → found id_of items snapshot none ≡ none
  found_nothing id_of items none = refl
  found_nothing id_of items (some s) = find_nothing id_of (items s)

  pub selected_link-none : (s : Session N) → s.selected_link_id ≡ none → selected_link s ≡ none
  unfolding selected_link
  selected_link-none s h =
      rw h (found_nothing (λ (l : LinkRecord). l.id) (λ t. t.links) s.view.snapshot)

  pub selected_node-none : (s : Session N) → s.selected_node_id ≡ none → selected_node s ≡ none
  unfolding selected_node
  selected_node-none s h =
      rw h (found_nothing (λ (n : NodeRecord N). n.id) (λ t. t.nodes) s.view.snapshot)

  pub selected_group-none : (s : Session N) → s.selected_group_id ≡ none → selected_group s ≡ none
  unfolding selected_group
  selected_group-none s h =
      rw h (found_nothing (λ (g : GroupRecord N). g.id) (λ t. t.groups) s.view.snapshot)

  -- an inspector, unless the page is loading
  abbrev pub beside : Session N → Inspector N → Inspector N
  beside s i = if s.loading then loading_screen else i

  -- A group that the map has is in its inspector after a click on it, and after a save of it, unless
  -- the form for a new link or a new node is open: that form stays, as it was. While the page is
  -- loading, the loading screen stays.
  pub inspector-click_group :
      (s : Session N) (id : Text) (editing : Bool) (group : GroupRecord N)
      → group_in s.view.snapshot id ≡ some group
      → let shown =
          if s.adding_link
          then link_inspector none
          else if s.adding_node
          then node_inspector none
          else group_inspector (some group) in
        (inspector (click_group id s) ≡ beside s shown)
        × (inspector (group_saved id editing s) ≡ beside s shown)
  unfolding inspector click_group group_saved selected_group
  inspector-click_group s id editing group h = (
    rw (selected_link-none (click_group id s) refl, selected_node-none (click_group id s) refl, h)
        refl,
    rw
        (
          selected_link-none (group_saved id editing s) refl,
          selected_node-none (group_saved id editing s) refl,
          h,
        )
        refl,
  )
