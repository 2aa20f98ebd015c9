-- ===== src/Forms/Joining.antt =====
-- Which links a form lets be saved.
use network_topology_map.Prelude.{
  ℕ, ◌≡◌, ◌≢◌, ◌↔◌, ◌∙◌, refl, ap, sym, true, false, Option, none, some, List, [], ◌∷◌, Text,
  text_eq_iff, is_empty, is_some, arith, All,
}
use network_topology_map.Types.{NodeRecord, LinkRecord, LinkPayload, LinkKind}
use network_topology_map.Canvas.{matching_link}
use network_topology_map.Canvas.Links.{IsApart, matching_link-none_iff}
use network_topology_map.Forms.{Form, reset-same_key, update}
use network_topology_map.Forms.Link.{
  LinkForm, LinkStep, link_typed, link_rendered, chosen_source, chosen_target, chosen_link_kind,
  link_key, open_link, initial_link, link_run, link_step, existing_match, invalid_selection,
  can_save_link,
}

existing_match-matching_link :
    (links : List LinkRecord) (f : LinkForm)
    → f.link ≡ none
    → let draft = f.form.draft in
      existing_match links f
      ≡ matching_link links draft.source_node_id draft.target_node_id draft.kind
unfolding existing_match matching_link
existing_match-matching_link links f h = rw h refl

-- A new link can be saved exactly if both ends are chosen, they are not the same node, and no link of
-- that kind joins them yet, in either direction.
pub can_save_link_iff :
    (links : List LinkRecord) (f : LinkForm)
    → f.link ≡ none
    → let draft = f.form.draft in
      (can_save_link false links f ≡ true) ↔ (
        (is_empty draft.source_node_id ≡ false)
        × (is_empty draft.target_node_id ≡ false)
        × (draft.source_node_id ≢ draft.target_node_id)
        × IsApart draft.source_node_id draft.target_node_id draft.kind links)
unfolding can_save_link invalid_selection
can_save_link_iff links f h =
    let draft = f.form.draft in
    ground (
      arith,
      h,
      existing_match-matching_link links f h,
      matching_link-none_iff links draft.source_node_id draft.target_node_id draft.kind,
      text_eq_iff draft.source_node_id draft.target_node_id,
    )

-- The kind that was chosen last.
abbrev pub kind_chosen : {N : Type 0} → LinkKind → List (LinkStep N) → LinkKind
kind_chosen kind [] = kind
kind_chosen kind (link_typed (chosen_link_kind next) ∷ steps) = kind_chosen next steps
kind_chosen kind (step ∷ steps) = kind_chosen kind steps

-- A render gives a link and the key `key`.
abbrev pub GivesLink : {N : Type 0} → Text → LinkStep N → Type 0
GivesLink key (link_typed field) = Unit
GivesLink key (link_rendered none nodes revision) = ⊥
GivesLink key (link_rendered (some link) nodes revision) = link_key (some link) revision ≡ key

link_step-link_rendered :
    {N : Type 0} (link : Option LinkRecord) (nodes : List (NodeRecord N)) (revision : ℕ)
    (f : LinkForm)
    → link_key link revision ≡ f.form.reset_key
    → link_step (link_rendered link nodes revision) f ≡ record f { link = link }
unfolding link_step
link_step-link_rendered link nodes revision f h =
    ap (λ (form : Form LinkPayload). record f { form = form; link = link })
      (reset-same_key (link_key link revision) (initial_link link nodes) f.form h)

link_run-draft :
    {N : Type 0} (steps : List (LinkStep N)) (f : LinkForm) (key : Text)
    → f.form.reset_key ≡ key
    → is_some f.link ≡ true
    → All (GivesLink key) steps
    → (link_run steps f).form.draft
      ≡ record f.form.draft { kind = kind_chosen f.form.draft.kind steps }
unfolding link_run link_step
link_run-draft [] f key hk hl h = refl
link_run-draft (link_typed (chosen_source id) ∷ steps) f key hk hl (g, h) =
    rw (link_run, hl) (link_run-draft steps f key hk hl h)
link_run-draft (link_typed (chosen_target id) ∷ steps) f key hk hl (g, h) =
    rw (link_run, hl) (link_run-draft steps f key hk hl h)
link_run-draft (link_typed (chosen_link_kind kind) ∷ steps) f key hk hl (g, h) =
    link_run-draft steps (record f { form = update (λ d. record d { kind = kind }) f.form }) key hk
      hl h
link_run-draft (link_rendered none nodes revision ∷ steps) f key hk hl (g, h) = absurd g
link_run-draft (link_rendered (some link) nodes revision ∷ steps) f key hk hl (g, h) =
    rw (link_run, link_step-link_rendered (some link) nodes revision f (g ∙ sym hk))
      (link_run-draft steps (record f { link = some link }) key hk refl h)

-- The form of a saved link, after any choices and any renders of a link with the key that it was
-- opened with: the draft has the two ends of that link, and the kind that was chosen last.
pub link_run-open_link :
    {N : Type 0} (steps : List (LinkStep N)) (link : LinkRecord) (nodes : List (NodeRecord N))
    (revision : ℕ)
    → All (GivesLink (link_key (some link) revision)) steps
    → let draft = (link_run steps (open_link (some link) nodes revision)).form.draft in
      (draft.source_node_id ≡ link.source_node_id)
      × (draft.target_node_id ≡ link.target_node_id)
      × (draft.kind ≡ kind_chosen link.kind steps)
unfolding open_link initial_link
link_run-open_link steps link nodes revision h =
    let e =
      link_run-draft steps (open_link (some link) nodes revision) (link_key (some link) revision)
        refl refl h in
    rw e (refl, refl, refl)
