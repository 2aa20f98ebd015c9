-- ===== src/Forms/Link.antt =====
-- frontend/src/components/LinkInspector.tsx.
use network_topology_map.Prelude.{
  ℕ, Bool, false, not, ◌&&◌, ◌||◌, Option, none, some, List, [], ◌∷◌, Text, text_eq, is_some,
  is_empty, find, if◌then◌else◌,
}
use network_topology_map.Types.{NodeRecord, LinkRecord, LinkPayload, LinkKind, local}
use network_topology_map.Editor.{draft_reset_key}
use network_topology_map.Canvas.{kind_eq}
use network_topology_map.Forms.{Form, mount, reset, update}

pub data LinkField : Type 0 where
  chosen_source : Text → LinkField
  chosen_target : Text → LinkField
  chosen_link_kind : LinkKind → LinkField

pub data LinkStep (N : Type 0) : Type 0 where
  link_typed : LinkField → LinkStep N
  -- a render with the props `link` and `nodes` and the revision of the drafts
  link_rendered : Option LinkRecord → List (NodeRecord N) → ℕ → LinkStep N

-- The form, with the link of the last render.
pub record LinkForm : Type 0 where
  pub form : Form LinkPayload
  pub link : Option LinkRecord

-- the new draft; the handles are left out
abbrev pub new_link : Text → Text → LinkPayload
new_link source target = record {
  source_node_id = source;
  target_node_id = target;
  kind = local;
  source_handle = none;
  target_handle = none;
}

abbrev pub link_key : Option LinkRecord → ℕ → Text
link_key none revision = draft_reset_key none revision
link_key (some link) revision = draft_reset_key (some link.id) revision

module _ {N : Type 0} where
  unfoldable pub initial_link : Option LinkRecord → List (NodeRecord N) → LinkPayload
  initial_link (some link) nodes = record (new_link link.source_node_id link.target_node_id) {
    kind = link.kind;
  }
  initial_link none [] = new_link [] []
  initial_link none (a ∷ []) = new_link a.id a.id
  initial_link none (a ∷ b ∷ nodes) = new_link a.id b.id

  unfoldable pub open_link : Option LinkRecord → List (NodeRecord N) → ℕ → LinkForm
  open_link link nodes revision = record {
    form = mount (link_key link revision) (initial_link link nodes);
    link = link;
  }

abbrev pub assign_link : LinkField → LinkPayload → LinkPayload
assign_link (chosen_source id) draft = record draft { source_node_id = id }
assign_link (chosen_target id) draft = record draft { target_node_id = id }
assign_link (chosen_link_kind kind) draft = record draft { kind = kind }

-- The select of the field is disabled.
abbrev pub is_disabled : LinkField → Option LinkRecord → Bool
is_disabled (chosen_source id) link = is_some link
is_disabled (chosen_target id) link = is_some link
is_disabled (chosen_link_kind kind) link = false

unfoldable pub link_step : {N : Type 0} → LinkStep N → LinkForm → LinkForm
link_step (link_typed field) f =
    if is_disabled field f.link then f else record f { form = update (assign_link field) f.form }
link_step (link_rendered link nodes revision) f = record {
  form = reset (link_key link revision) (initial_link link nodes) f.form;
  link = link;
}

unfoldable pub link_run : {N : Type 0} → List (LinkStep N) → LinkForm → LinkForm
link_run [] f = f
link_run (step ∷ steps) f = link_run steps (link_step step f)

-- the callback of `links.find`
abbrev pub is_match : LinkPayload → LinkRecord → Bool
is_match draft candidate =
    kind_eq candidate.kind draft.kind
    && ((text_eq candidate.source_node_id draft.source_node_id
          && text_eq candidate.target_node_id draft.target_node_id)
        || (text_eq candidate.source_node_id draft.target_node_id
            && text_eq candidate.target_node_id draft.source_node_id))

unfoldable pub existing_match : List LinkRecord → LinkForm → Option LinkRecord
existing_match links f = if is_some f.link then none else find (is_match f.form.draft) links

unfoldable pub invalid_selection : List LinkRecord → LinkForm → Bool
invalid_selection links f =
    let draft = f.form.draft in
    not (is_some f.link)
    && (is_empty draft.source_node_id
        || is_empty draft.target_node_id
        || text_eq draft.source_node_id draft.target_node_id
        || is_some (existing_match links f))

-- The button "Save link" is not disabled. `save` hands the draft itself to `onSave`.
unfoldable pub can_save_link : Bool → List LinkRecord → LinkForm → Bool
can_save_link saving links f = not (saving || invalid_selection links f)
