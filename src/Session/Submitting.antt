-- ===== src/Session/Submitting.antt =====
-- frontend/src/components/MonitorPanel.tsx with frontend/src/app/App.tsx: a submission of the monitor
-- editor, through the panel and the page's change of the monitor, back to the editor.
use network_topology_map.Prelude.{
  ◌+◌, true, false, Option, none, some, List, ◌∷◌, Text, codes, ◌≡◌, ◌∙◌, ap, refl,
}
use network_topology_map.Types.{MonitorRecord, MonitorPayload, Snapshot}
use network_topology_map.Snapshot.{SnapshotLoadResult}
use network_topology_map.Client.Endpoints.{Call, create_monitor}
use network_topology_map.Monitor.Validate.{
  MonitorValidation, valid, invalid, validate_monitor_draft,
}
use network_topology_map.Panel.{EditorState, cause_message}
use network_topology_map.Forms.{Form}
use network_topology_map.Monitor.Draft.{MonitorDraft}
use network_topology_map.Forms.Check.{CheckForm, no_errors, save_check, save_rejected}
use network_topology_map.Session.State.{Session, LoadOutcome, loaded, not_loaded}
use network_topology_map.Session.Saving.{map_id_of, is_id}
use network_topology_map.Session.Monitoring.{
  create_check, update_check, change_check-loaded, change_check-not_loaded,
}

abbrev pub refresh_failed : Text
refresh_failed = codes "Unable to refresh monitor diagnostics."

-- The open editor: its state in the panel, its form, and the page.
pub record Editing (N : Type 0) : Type 0 where
  pub editor : EditorState N
  pub form : CheckForm
  pub page : Session N

module _ {N : Type 0} where
  -- what `saveMonitor` awaits: `onCreate` of the node, or `onUpdate` of the edited monitor
  abbrev requested :
      Text
      → Option (MonitorRecord N)
      → MonitorPayload
      → LoadOutcome N
      → Session N
      → Session N × Option Text
  requested node_id none payload outcome s = create_check node_id payload outcome s
  requested node_id (some monitor) payload outcome s = update_check monitor.id payload outcome s

  -- the rest of `saveMonitor`, and the `catch` of the form
  abbrev settled : MonitorRecord N → Editing N → Session N × Option Text → Editing N
  settled stored e (s, none) = record e {
    page = s;
    editor = record { revision = e.editor.revision + 1; monitor = some stored };
  }
  settled stored e (s, some message) = record e {
    page = s;
    form = save_rejected (some message) e.form;
  }

  abbrev handed_over :
      Text → MonitorRecord N → LoadOutcome N → MonitorValidation → Editing N → Editing N
  handed_over node_id stored outcome (invalid errors) e = e
  handed_over node_id stored outcome (valid payload) e =
      settled stored e (requested node_id e.editor.monitor payload outcome e.page)

  -- A submission of the editor on the node, up to the next render. If the request is made, the
  -- server stores it and answers with `stored`, and the load behind it ends with `outcome`.
  unfoldable pub submit : Text → MonitorRecord N → LoadOutcome N → Editing N → Editing N
  submit node_id stored outcome e =
      handed_over node_id stored outcome (validate_monitor_draft e.form.form.draft)
        (record e { form = save_check e.form })

  submit-valid :
      (node_id : Text) (stored : MonitorRecord N) (outcome : LoadOutcome N) (e : Editing N)
      (p : MonitorPayload)
      → validate_monitor_draft e.form.form.draft ≡ valid p
      → submit node_id stored outcome e
        ≡ settled stored
            (record e {
              form = record e.form { errors = no_errors; submitted = p ∷ e.form.submitted };
            })
            (requested node_id e.editor.monitor p outcome e.page)
  unfolding submit save_check
  submit-valid node_id stored outcome e p v = rw v refl

  -- The editor is as it was and shows that the refresh failed, and may be submitted again.
  pub record IsRefused (e e' : Editing N) : Type 0 where
    pub editor : e'.editor ≡ e.editor
    pub form : e'.form.form ≡ e.form.form
    pub message : e'.form.errors.form ≡ some refresh_failed
    pub idle : e'.page.saving ≡ false
    pub snapshot : e'.page.view.snapshot ≡ e.page.view.snapshot

  -- The editor edits the stored monitor, and shows no message.
  pub record IsCreated (stored : MonitorRecord N) (e e' : Editing N) : Type 0 where
    pub editor : e'.editor ≡ record { revision = e.editor.revision + 1; monitor = some stored }
    pub message : e'.form.errors.form ≡ none
    pub idle : e'.page.saving ≡ false

  module _ (node_id : Text) (stored : MonitorRecord N) (e : Editing N) (p : MonitorPayload) where
    create-IsCreated :
        (result : SnapshotLoadResult N)
        → e.editor.monitor ≡ none
        → is_id (map_id_of e.page.view.snapshot) ≡ true
        → validate_monitor_draft e.form.form.draft ≡ valid p
        → let e' = submit node_id stored (loaded result) e in
          IsCreated stored e e' × (e'.page.requests ≡ create_monitor node_id p ∷ e.page.requests)
    unfolding create_check
    create-IsCreated result creates drawn v =
        let (kept, _, (sent, idle)) =
          change_check-loaded (create_monitor node_id p) (codes "Check added") result e.page
            drawn in
        rw (submit-valid node_id stored (loaded result) e p v, creates, kept)
          (record { editor = refl; message = refl; idle = idle }, sent)

    create-IsRefused :
        (cause : Option Text)
        → e.editor.monitor ≡ none
        → is_id (map_id_of e.page.view.snapshot) ≡ true
        → validate_monitor_draft e.form.form.draft ≡ valid p
        → let e' = submit node_id stored (not_loaded cause) e in
          IsRefused e e' × (e'.page.requests ≡ create_monitor node_id p ∷ e.page.requests)
    unfolding create_check save_rejected cause_message
    create-IsRefused cause creates drawn v =
        let (refused, _, _, (sent, idle), same) =
          change_check-not_loaded (create_monitor node_id p) (codes "Check added") cause e.page
            drawn in
        rw (submit-valid node_id stored (not_loaded cause) e p v, creates, refused)
          (
            record { editor = refl; form = refl; message = refl; idle = idle; snapshot = same },
            sent,
          )

    create-requests :
        (outcome : LoadOutcome N)
        → e.editor.monitor ≡ none
        → is_id (map_id_of e.page.view.snapshot) ≡ true
        → validate_monitor_draft e.form.form.draft ≡ valid p
        → (submit node_id stored outcome e).page.requests
          ≡ create_monitor node_id p ∷ e.page.requests
    create-requests (loaded result) creates drawn v = (create-IsCreated result creates drawn v).1
    create-requests (not_loaded cause) creates drawn v = (create-IsRefused cause creates drawn v).1

  -- The editor of a new check on a drawn map, with a draft that is valid, is submitted, and the
  -- server stores the check. If the load behind it brings a snapshot, the editor edits the stored
  -- check. If that load fails, the editor is as it was and shows that the refresh failed, and
  -- submitting it once more, as it stands, sends a second creation of the same check.
  pub submit-again :
      (node_id : Text) (stored stored' : MonitorRecord N) (result : SnapshotLoadResult N)
      (cause : Option Text) (outcome : LoadOutcome N) (e : Editing N) (p : MonitorPayload)
      → e.editor.monitor ≡ none
      → is_id (map_id_of e.page.view.snapshot) ≡ true
      → validate_monitor_draft e.form.form.draft ≡ valid p
      → let once = submit node_id stored (not_loaded cause) e in
        let twice = submit node_id stored' outcome once in
        IsCreated stored e (submit node_id stored (loaded result) e)
        × IsRefused e once
        × (twice.page.requests
            ≡ create_monitor node_id p ∷ create_monitor node_id p ∷ e.page.requests)
  submit-again node_id stored stored' result cause outcome e p creates drawn v =
      let once = submit node_id stored (not_loaded cause) e in
      let (same, sent) = create-IsRefused node_id stored e p cause creates drawn v in
      (
        (create-IsCreated node_id stored e p result creates drawn v).0,
        same,
        create-requests node_id stored' once p outcome
              (ap (λ (d : EditorState N). d.monitor) same.editor ∙ creates)
              (ap (λ (x : Option (Snapshot N)). is_id (map_id_of x)) same.snapshot ∙ drawn)
              (ap (λ (f : Form MonitorDraft). validate_monitor_draft f.draft) same.form ∙ v)
            ∙ ap (λ (calls : List (Call N)). create_monitor node_id p ∷ calls) sent,
      )
