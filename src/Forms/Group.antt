-- ===== src/Forms/Group.antt =====
-- frontend/src/components/GroupInspector.tsx. The number fields give numbers of `N`.
use network_topology_map.Prelude.{
  ℕ, Bool, not, ◌||◌, Option, none, some, List, [], ◌∷◌, Text, codes, trim, is_empty,
}
use network_topology_map.Types.{GroupRecord, GroupPayload}
use network_topology_map.Editor.{Point, draft_reset_key}
use network_topology_map.Forms.{Form, mount, reset, update}

pub data GroupField (N : Type 0) : Type 0 where
  typed_group_name : Text → GroupField N
  typed_width : N → GroupField N
  typed_height : N → GroupField N

pub data GroupStep (N : Type 0) : Type 0 where
  group_typed : GroupField N → GroupStep N
  -- a render with the props `group` and `defaultPosition` and the revision of the drafts
  group_rendered : Option (GroupRecord N) → Point N → ℕ → GroupStep N

module _ {N : Type 0} where
  abbrev pub group_key : Option (GroupRecord N) → ℕ → Text
  group_key none revision = draft_reset_key none revision
  group_key (some group) revision = draft_reset_key (some group.id) revision

  unfoldable pub assign_group : GroupField N → GroupPayload N → GroupPayload N
  assign_group (typed_group_name value) draft = record draft { name = value }
  assign_group (typed_width value) draft = record draft { width = value }
  assign_group (typed_height value) draft = record draft { height = value }

  -- what `save` hands to `onSave`
  unfoldable pub saved_group : GroupPayload N → GroupPayload N
  saved_group draft = record draft { name = trim draft.name }

  -- The button "Save group" is not disabled.
  unfoldable pub can_save_group : Bool → GroupPayload N → Bool
  can_save_group saving draft = not (saving || is_empty (trim draft.name))

  -- the numerals of the source are given by `numeral`
  unfoldable pub initial_group : (ℕ → N) → Option (GroupRecord N) → Point N → GroupPayload N
  initial_group numeral (some group) p = record {
    name = group.name;
    x = group.x;
    y = group.y;
    width = group.width;
    height = group.height;
  }
  initial_group numeral none p = record {
    name = codes "New group";
    x = p.x;
    y = p.y;
    width = numeral 360;
    height = numeral 240;
  }

  unfoldable pub open_group : (ℕ → N) → Option (GroupRecord N) → Point N → ℕ → Form (GroupPayload N)
  open_group numeral group p revision =
      mount (group_key group revision) (initial_group numeral group p)

  unfoldable pub group_step : (ℕ → N) → GroupStep N → Form (GroupPayload N) → Form (GroupPayload N)
  group_step numeral (group_typed field) f = update (assign_group field) f
  group_step numeral (group_rendered group p revision) f =
      reset (group_key group revision) (initial_group numeral group p) f

  unfoldable pub group_run :
      (ℕ → N) → List (GroupStep N) → Form (GroupPayload N) → Form (GroupPayload N)
  group_run numeral [] f = f
  group_run numeral (step ∷ steps) f = group_run numeral steps (group_step numeral step f)
