-- ===== src/Forms/Node.antt =====
-- frontend/src/components/NodeInspector.tsx. `n` compares coordinates, and `same_value` is the
-- Object.is with which React compares them; `lower` is toLocaleLowerCase, and `base` the address of
-- the bundled icons. A number field holds a whole number or nothing.
use network_topology_map.Prelude.{
  ℕ, Bool, true, false, not, ◌&&◌, ◌||◌, Option, none, some, List, [], ◌∷◌, Text, codes, text_eq,
  trim, is_empty, if◌then◌else◌, ◌==◌, take,
}
use network_topology_map.Types.{NodeRecord, NodePayload, NodeKind, device}
use network_topology_map.Numbers.{Comparison}
use network_topology_map.Editor.{Point, draft_reset_key, merge_external_position}
use network_topology_map.Icon.{IconOption, matching_icons, is_supported_icon_id}
use network_topology_map.Forms.{Form, mount, reset, update, non_empty, trimmed}

-- What the parser of addresses gives for an absolute address.
pub record ParsedUrl : Type 0 where
  pub protocol : Text
  pub hostname : Text
  pub username : Text
  pub password : Text

-- the tests of the parsed address; `none` where the parser throws
abbrev pub is_web_address : Option ParsedUrl → Bool
is_web_address none = false
is_web_address (some u) =
    (text_eq u.protocol (codes "http:") || text_eq u.protocol (codes "https:"))
    && not (is_empty u.hostname)
    && is_empty u.username
    && is_empty u.password

unfoldable pub is_valid_hyperlink : (Text → Option ParsedUrl) → Option Text → Bool
is_valid_hyperlink parse none = true
is_valid_hyperlink parse (some value) =
    if is_empty (trim value) then true else is_web_address (parse (trim value))

-- What the fields of the form are set to by typing or choosing.
pub data NodeField : Type 0 where
  typed_name : Text → NodeField
  chosen_kind : NodeKind → NodeField
  typed_icon : Text → NodeField
  chosen_icon : Text → NodeField
  typed_ipv4 : Text → NodeField
  typed_display_port : Option ℕ → NodeField
  typed_hyperlink : Text → NodeField

-- The form, with the node's identifier and place, as its second effect last saw them.
pub record NodeForm (N : Type 0) : Type 0 where
  pub form : Form (NodePayload N)
  pub seen : Option (Text × Point N)

pub data NodeStep (N : Type 0) : Type 0 where
  typed : NodeField → NodeStep N
  -- a render with the props `node`, `defaultPosition` and the revision of the drafts
  rendered : Option (NodeRecord N) → Point N → ℕ → NodeStep N

-- `Number(display_port)` of a number that is not zero
abbrev pub port_or_null : Option ℕ → Option ℕ
port_or_null none = none
port_or_null (some port) = if port == 0 then none else some port

module _ {N : Type 0} where
  unfoldable pub initial_node : Option (NodeRecord N) → Point N → NodePayload N
  initial_node none p = record {
    name = [];
    kind = device;
    icon_id = codes "mdi-server";
    hyperlink = none;
    ipv4 = none;
    display_port = none;
    x = p.x;
    y = p.y;
  }
  initial_node (some node) p = record {
    name = node.name;
    kind = node.kind;
    icon_id = node.icon_id;
    hyperlink = node.hyperlink;
    ipv4 = node.ipv4;
    display_port = node.display_port;
    x = node.x;
    y = node.y;
  }

  abbrev pub place_of : NodeRecord N → Point N
  place_of node = record { x = node.x; y = node.y }

  abbrev pub seen_of : Option (NodeRecord N) → Option (Text × Point N)
  seen_of none = none
  seen_of (some node) = some (node.id, place_of node)

  -- the key that App.tsx gives
  abbrev pub node_key : Option (NodeRecord N) → ℕ → Text
  node_key none revision = draft_reset_key none revision
  node_key (some node) revision = draft_reset_key (some node.id) revision

  unfoldable pub assign_node : (Text → Text) → NodeField → NodePayload N → NodePayload N
  assign_node lower (typed_name value) draft = record draft { name = value }
  assign_node lower (chosen_kind kind) draft = record draft { kind = kind }
  assign_node lower (typed_icon value) draft = record draft { icon_id = lower (trim value) }
  assign_node lower (chosen_icon id) draft = record draft { icon_id = id }
  assign_node lower (typed_ipv4 value) draft = record draft { ipv4 = non_empty value }
  assign_node lower (typed_display_port port) draft = record draft { display_port = port }
  assign_node lower (typed_hyperlink value) draft = record draft { hyperlink = non_empty value }

  -- what `save` hands to `onSave`
  unfoldable pub saved_node : NodePayload N → NodePayload N
  saved_node draft = record draft {
    name = trim draft.name;
    hyperlink = trimmed draft.hyperlink;
    ipv4 = trimmed draft.ipv4;
    display_port = port_or_null draft.display_port;
  }

  -- the bundled icons that the picker offers
  unfoldable pub icon_matches : (Text → Text) → Text → NodePayload N → List IconOption
  icon_matches lower base draft = take 6 (matching_icons base lower draft.icon_id)

  -- The button "Save node" is not disabled.
  unfoldable pub can_save_node : (Text → Option ParsedUrl) → Text → Bool → NodePayload N → Bool
  can_save_node parse base saving draft = not (
      saving
      || is_empty (trim draft.name)
      || not (is_supported_icon_id base draft.icon_id)
      || not (is_valid_hyperlink parse draft.hyperlink))

module _ {N : Type 0} (same_value : N → N → Bool) where
  -- The dependencies of the second effect are as they were.
  abbrev pub seen_eq : Option (Text × Point N) → Option (Text × Point N) → Bool
  seen_eq none none = true
  seen_eq none (some b) = false
  seen_eq (some a) none = false
  seen_eq (some (id, p)) (some (id', p')) =
      text_eq id id' && same_value p.x p'.x && same_value p.y p'.y

module _ {N : Type 0} (n : Comparison N) where
  -- the second effect's body
  abbrev pub merge_node : Option (NodeRecord N) → NodePayload N → NodePayload N
  merge_node none draft = draft
  merge_node (some node) draft = merge_external_position n draft (place_of node)

  -- the second effect
  abbrev pub merge_if_moved : (N → N → Bool) → Option (NodeRecord N) → NodeForm N → NodeForm N
  merge_if_moved same_value node f = record {
    form =
        if seen_eq same_value f.seen (seen_of node)
        then f.form
        else update (merge_node node) f.form;
    seen = seen_of node;
  }

  -- the first render, and its effects
  unfoldable pub open_node : Option (NodeRecord N) → Point N → ℕ → NodeForm N
  open_node node p revision = record {
    form = update (merge_node node) (mount (node_key node revision) (initial_node node p));
    seen = seen_of node;
  }

module _ {N : Type 0} (n : Comparison N) (same_value : N → N → Bool) (lower : Text → Text) where
  unfoldable pub node_step : NodeStep N → NodeForm N → NodeForm N
  node_step (typed field) f = record f { form = update (assign_node lower field) f.form }
  node_step (rendered node p revision) f =
      merge_if_moved n same_value node
        (record f { form = reset (node_key node revision) (initial_node node p) f.form })

  unfoldable pub node_run : List (NodeStep N) → NodeForm N → NodeForm N
  node_run [] f = f
  node_run (step ∷ steps) f = node_run steps (node_step step f)
