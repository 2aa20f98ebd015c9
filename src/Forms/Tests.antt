-- ===== src/Forms/Tests.antt =====
-- Forms that are opened, typed in and saved, and the theorems at them.
use network_topology_map.Prelude.{
  ℕ, ◌≡◌, ◌≢◌, ◌↔◌, ◌⊎◌, refl, true, false, Option, some, none, List, [], ◌∷◌, Text, codes,
  is_empty, arith, trim, starts_with, is_space, ==_iff, ◌==◌, text_eq,
}
use network_topology_map.Types.{
  NodeRecord, NodePayload, LinkRecord, LinkPayload, GroupRecord, GroupPayload, device, local,
  virtual,
}
use network_topology_map.Sample.{node_at, plain, web_check}
use network_topology_map.Editor.{Point, merge_external_position, draft_reset_key}
use network_topology_map.Icon.{
  is_supported_icon_id, is_remote_mdi_icon_id, matches, is_slug_from, is_word_unit,
}
use network_topology_map.Monitor.Decimal.{to_string}
use network_topology_map.Canvas.Links.{IsApart}
use network_topology_map.Forms.Node.{
  ParsedUrl, NodeStep, typed, rendered, typed_name, typed_hyperlink, initial_node, open_node,
  node_step, assign_node, node_run, is_valid_hyperlink, saved_node, can_save_node,
}
use network_topology_map.Forms.Link.{
  LinkForm, LinkStep, link_typed, link_rendered, chosen_target, chosen_link_kind, open_link,
  link_run, can_save_link,
}
use network_topology_map.Forms.Group.{
  GroupStep, group_typed, group_rendered, typed_group_name, initial_group, open_group, group_run,
  saved_group,
}
use network_topology_map.Forms.Check.{
  CheckForm, CheckStep, check_typed, submitted_form, submit_rejected, check_rendered,
  checked_verify_tls, typed_port, open_check, check_run,
}
use network_topology_map.Forms.Submitting.{IsHeld, IsSubmitted, check_run-save_check}
use network_topology_map.Forms.Typing.{fields, type_all, last_node, IsPlaced, node_run-open_node}
use network_topology_map.Forms.Saved.{IsTidy, IsTidyOrNone, IsWebOrNone, can_save_node_lem}
use network_topology_map.Forms.Joining.{can_save_link_iff}
use network_topology_map.Forms.Reverting.{type_group, group_run-open_group}

abbrev here : Point ℕ
here = record { x = 0; y = 0 }

abbrev web_server : NodeRecord ℕ
web_server = node_at (codes "a") 10 20

-- A name is typed, the node is dragged, and a link is typed.
abbrev node_steps : List (NodeStep ℕ)
node_steps =
    typed (typed_name (codes " web "))
    ∷ rendered (some (node_at (codes "a") 300 40)) here 0
    ∷ typed (typed_hyperlink (codes "https://a.example"))
    ∷ []

abbrev node_draft : NodePayload ℕ
node_draft =
    (node_run plain ◌==◌ (λ s. s) node_steps (open_node plain (some web_server) here 0)).form.draft

dragged_and_typed : node_draft ≡ record (initial_node (some (node_at (codes "a") 300 40)) here) {
  name = codes " web ";
  hyperlink = some (codes "https://a.example");
}
unfolding node_run node_step open_node initial_node assign_node merge_external_position
    draft_reset_key text_eq to_string
dragged_and_typed = refl

node_run-open_node_example :
    (fields here node_draft
      ≡ fields here (type_all (λ s. s) node_steps (initial_node (some web_server) here)))
    × IsPlaced plain (last_node (some web_server) node_steps) node_draft
node_run-open_node_example =
    node_run-open_node plain ◌==◌ (λ s. s) (λ a b. (==_iff a b).0) node_steps (some web_server) here
      here 0 (refl, refl) (tt, ((refl, refl), (tt, tt))) (tt, (refl, (tt, tt)))

-- a parser that knows one address
abbrev parse : Text → Option ParsedUrl
parse s = elim (text_eq s (codes "https://a.example")) [
  | true ↦ some (record {
    protocol = codes "https:";
    hostname = codes "a.example";
    username = [];
    password = [];
  })
  | false ↦ none
]

abbrev ready : NodePayload ℕ
ready = record {
  name = codes " web ";
  kind = device;
  icon_id = codes "mdi-server-network";
  hyperlink = some (codes "https://a.example");
  ipv4 = some (codes " ");
  display_port = none;
  x = 1;
  y = 2;
}

saveable : can_save_node parse [] false ready ≡ true
unfolding can_save_node is_valid_hyperlink is_supported_icon_id is_remote_mdi_icon_id matches
    is_slug_from is_word_unit trim starts_with text_eq is_space
saveable = ground arith

can_save_node_lem_example :
    let p = saved_node ready in
    IsTidy p.name
    × (is_supported_icon_id [] p.icon_id ≡ true)
    × IsTidyOrNone p.ipv4
    × IsTidyOrNone p.hyperlink
    × IsWebOrNone parse p.hyperlink
    × (can_save_node parse [] false p ≡ true)
    × (saved_node p ≡ p)
can_save_node_lem_example = can_save_node_lem parse [] ready saveable

abbrev link_ab : LinkRecord
link_ab = record {
  id = codes "l";
  map_id = codes "home";
  source_node_id = codes "a";
  target_node_id = codes "b";
  kind = local;
  source_handle = none;
  target_handle = none;
  created_at = [];
}

-- a new form for the two nodes that the link joins
abbrev new_form : LinkForm
new_form = open_link none (web_server ∷ node_at (codes "b") 0 0 ∷ []) 0

unlinked : new_form.link ≡ none
unfolding open_link
unlinked = refl

can_save_link_iff_example :
    let draft = new_form.form.draft in
    (can_save_link false (link_ab ∷ []) new_form ≡ true) ↔ (
      (is_empty draft.source_node_id ≡ false)
      × (is_empty draft.target_node_id ≡ false)
      × (draft.source_node_id ≢ draft.target_node_id)
      × IsApart draft.source_node_id draft.target_node_id draft.kind (link_ab ∷ []))
can_save_link_iff_example = can_save_link_iff (link_ab ∷ []) new_form unlinked

abbrev link_steps : List (LinkStep ℕ)
link_steps =
    link_typed (chosen_target (codes "c"))
    ∷ link_rendered (some link_ab) [] 0
    ∷ link_typed (chosen_link_kind virtual)
    ∷ []

abbrev link_draft : LinkPayload
link_draft = (link_run link_steps (open_link (some link_ab) (web_server ∷ []) 0)).form.draft

abbrev rack : ℕ → GroupRecord ℕ
rack x = record {
  id = codes "g";
  map_id = codes "home";
  name = codes "Rack";
  x = x;
  y = 5;
  width = 400;
  height = 300;
  created_at = [];
  updated_at = [];
}

-- The group is dragged while its form is open.
abbrev group_steps : List (GroupStep ℕ)
group_steps =
    group_typed (typed_group_name (codes "Row ")) ∷ group_rendered (some (rack 900)) here 0 ∷ []

abbrev group_saved : GroupPayload ℕ
group_saved =
    saved_group
      (group_run (λ k. k) group_steps (open_group (λ k. k) (some (rack 100)) here 0)).draft

group_run-open_group_example :
    (group_saved.x ≡ 100)
    × (group_saved.y ≡ 5)
    × (group_saved
        ≡ saved_group (type_group group_steps (initial_group (λ k. k) (some (rack 100)) here)))
group_run-open_group_example =
    group_run-open_group (λ k. k) group_steps (rack 100) here 0 (tt, (refl, tt))

-- Certificates are left unverified, the save is rejected, and the form is rendered again.
abbrev check_steps : List (CheckStep ℕ)
check_steps =
    check_typed (checked_verify_tls false)
    ∷ submitted_form
    ∷ submit_rejected (some (codes "offline"))
    ∷ check_rendered (some web_check) none (codes "a:m1:0")
    ∷ check_typed (typed_port (codes "443"))
    ∷ []

abbrev edited : CheckForm
edited = check_run check_steps (open_check (some web_check) none (codes "a:m1:0"))

check_run-save_check_example : IsHeld edited ⊎ IsSubmitted edited
check_run-save_check_example =
    check_run-save_check check_steps (some web_check) none (codes "a:m1:0") refl
      (tt, (tt, (tt, (refl, (tt, tt)))))
