-- ===== src/Panel.antt =====
-- frontend/src/components/MonitorPanel.tsx, the component MonitorPanel: its editor, its feedback, and
-- the receipts of manual runs, which it polls. A step is one handler, or the part of one between two
-- awaits. The record holds the component's state and refs and, below them, its environment: the
-- receipts asked for that have no answer yet, and the timers of the next polls, both by token.
pub mod Counting
pub mod Moves
pub mod Polling
pub mod Staleness
mod Tests
use network_topology_map.Prelude.{
  ℕ, ◌+◌, Bool, true, false, not, ◌&&◌, ◌||◌, Option, none, some, List, [], ◌∷◌, ◌++◌, Text, codes,
  text_eq, get_or, is_some, is_number, any, ◌==◌, if◌then◌else◌,
}
use network_topology_map.Prelude.Timer.{waiting, without}
use network_topology_map.Types.{MonitorRecord, RunStatus, queued, completed, unavailable}

pub data Tone : Type 0 where
  queued_tone completed_tone unavailable_tone error_tone : Tone

pub record ManualFeedback : Type 0 where
  pub monitor_id : Text
  pub tone : Tone
  pub message : Text

-- `none` for the monitor: the editor creates one
pub record EditorState (N : Type 0) : Type 0 where
  pub revision : ℕ
  pub monitor : Option (MonitorRecord N)

-- What the closure of `poll` holds, beside its token.
pub record Run : Type 0 where
  pub monitor_id : Text
  pub run_id : Text

pub record Panel (N : Type 0) : Type 0 where
  pub editor : Option (EditorState N)
  pub feedback : Option ManualFeedback
  pub running_monitor_ids : Text → Bool
  pub run_receipt_tokens : Text → Option ℕ
  pub next_run_receipt_token : ℕ
  pub asked : List (ℕ × Run)
  pub polls : List (ℕ × Run)

-- manualRunFeedback of frontend/src/app/monitorState.ts, for a monitor
pub manual_run_feedback : Text → RunStatus → ManualFeedback
manual_run_feedback id completed = record {
  monitor_id = id;
  tone = completed_tone;
  message = codes "Check completed — the latest result below shows whether it passed or failed.";
}
manual_run_feedback id unavailable = record {
  monitor_id = id;
  tone = unavailable_tone;
  message =
      codes
        "Check unavailable — its queued execution could not complete. Diagnostics were refreshed from the API.";
}
manual_run_feedback id queued = record {
  monitor_id = id;
  tone = queued_tone;
  message = codes "Check queued — waiting for the scheduler to report its outcome.";
}

-- `causeMessage`, of the message that an Error has
unfoldable pub cause_message : Option Text → Text
cause_message cause = get_or cause (codes "The monitor request could not be completed.")

abbrev pub change {ℓ} : {A : Type ℓ} → Text → A → (Text → A) → Text → A
change k v f j = if text_eq k j then v else f j

module _ {N : Type 0} where
  abbrev pub new : Panel N
  new = record {
    editor = none;
    feedback = none;
    running_monitor_ids = λ id. false;
    run_receipt_tokens = λ id. none;
    next_run_receipt_token = 0;
    asked = [];
    polls = [];
  }

  abbrev say : Text → Tone → Text → Panel N → Panel N
  say id tone message s = record s {
    feedback = some (record { monitor_id = id; tone = tone; message = message });
  }

  pub set_monitor_running : Text → Bool → Panel N → Panel N
  set_monitor_running id running s = record s {
    running_monitor_ids = change id running s.running_monitor_ids;
  }

  -- The effect of another node.
  pub change_node : Panel N → Panel N
  change_node s = record s {
    run_receipt_tokens = λ id. none;
    editor = none;
    feedback = none;
    running_monitor_ids = λ id. false;
  }

  -- The cleanup when the component goes.
  pub unmount : Panel N → Panel N
  unmount s = record s { run_receipt_tokens = λ id. none }

  -- The first effect of another list of monitors, of which only the identifiers count.
  pub keep_live : (Text → Bool) → Panel N → Panel N
  keep_live live s = record s {
    run_receipt_tokens = λ id. if live id then s.run_receipt_tokens id else none;
    running_monitor_ids = λ id. s.running_monitor_ids id && live id;
  }

  abbrev close_removed : (Text → Bool) → Option (MonitorRecord N) → Panel N → Panel N
  close_removed live none s = s
  close_removed live (some monitor) s =
      if live monitor.id
      then s
      else say monitor.id error_tone (codes "This monitor was removed by a topology update.")
          (record s { editor = none })

  -- The second one: an edited monitor that is gone.
  pub close_editor : (Text → Bool) → Panel N → Panel N
  close_editor live s = elim s.editor [
    | none ↦ s
    | some editor ↦ close_removed live editor.monitor s
  ]

  -- The buttons "Add check" and "Edit"; `now` is Date.now().
  pub begin_editing : ℕ → Option (MonitorRecord N) → Panel N → Panel N
  begin_editing now monitor s = record s {
    feedback = none;
    editor = some (record { revision = now; monitor = monitor });
  }

  pub cancel_editing : Panel N → Panel N
  cancel_editing s = record s { editor = none }

  -- The end of `saveMonitor`, begun with the editor's revision.
  pub monitor_saved : ℕ → MonitorRecord N → Panel N → Panel N
  monitor_saved revision saved s = record s {
    editor = some (record { revision = revision + 1; monitor = some saved });
  }

  -- `removeMonitor`, confirmed, up to its `await`; `edited` in its end is the editor it began with.
  pub remove_monitor : Panel N → Panel N
  remove_monitor s = record s { feedback = none }

  abbrev edits : Option (EditorState N) → Text → Bool
  edits none id = false
  edits (some editor) id = elim editor.monitor [
    | none ↦ false
    | some monitor ↦ text_eq monitor.id id
  ]

  pub monitor_removed : Text → Option (EditorState N) → Panel N → Panel N
  monitor_removed id edited s = if edits edited id then record s { editor = none } else s

  pub monitor_not_removed : Text → Option Text → Panel N → Panel N
  monitor_not_removed id cause s =
      say id error_tone (codes "Unable to delete check: " ++ cause_message cause) s

  -- `poll`, up to its `await`
  abbrev pub poll : ℕ → Run → Panel N → Panel N
  poll token run s =
      if is_number (s.run_receipt_tokens run.monitor_id) token
      then record s { asked = (token, run) ∷ s.asked }
      else s

  pub poll_run_receipt : Text → Text → Panel N → Panel N
  poll_run_receipt id run_id s =
      let token = s.next_run_receipt_token + 1 in
      poll token (record { monitor_id = id; run_id = run_id })
        (record s {
          next_run_receipt_token = token;
          run_receipt_tokens = change id (some token) s.run_receipt_tokens;
        })

  -- The event loop runs the timer of a poll.
  pub poll_due : ℕ → Panel N → Panel N
  poll_due token s = elim (waiting token s.polls) [
    | none ↦ s
    | some run ↦ poll token run (record s { polls = without token s.polls })
  ]

  -- the two lines that end a poll
  abbrev forget : Text → Panel N → Panel N
  forget id s =
      set_monitor_running id false
        (record s { run_receipt_tokens = change id none s.run_receipt_tokens })

  -- what follows the `await`, once the token has been tested
  abbrev pub settle_receipt : ℕ → Run → RunStatus → Panel N → Panel N
  settle_receipt token run queued s = record s { polls = (token, run) ∷ s.polls }
  settle_receipt token run completed s = record (forget run.monitor_id s) {
    feedback = some (manual_run_feedback run.monitor_id completed);
  }
  settle_receipt token run unavailable s = record (forget run.monitor_id s) {
    feedback = some (manual_run_feedback run.monitor_id unavailable);
  }

  abbrev answered : ℕ → Run → RunStatus → Panel N → Panel N
  answered token run status s =
      if is_number (s.run_receipt_tokens run.monitor_id) token
      then settle_receipt token run status s
      else s

  -- A receipt that was asked for arrives.
  pub receipt_answered : ℕ → RunStatus → Panel N → Panel N
  unfolding set_monitor_running
  receipt_answered token status s = elim (waiting token s.asked) [
    | none ↦ s
    | some run ↦ answered token run status (record s { asked = without token s.asked })
  ]

  abbrev lost : ℕ → Run → Option Text → Panel N → Panel N
  lost token run cause s =
      if is_number (s.run_receipt_tokens run.monitor_id) token
      then say run.monitor_id unavailable_tone
          (codes
              "Check status is unavailable. Diagnostics will recover from the next live snapshot: "
            ++ cause_message cause)
          (forget run.monitor_id s)
      else s

  -- Asking for a receipt fails.
  pub receipt_failed : ℕ → Option Text → Panel N → Panel N
  unfolding set_monitor_running
  receipt_failed token cause s = elim (waiting token s.asked) [
    | none ↦ s
    | some run ↦ lost token run cause (record s { asked = without token s.asked })
  ]

  -- The `catch` of `refreshAfterReceipt`.
  pub refresh_failed : Text → Bool → Option Text → Panel N → Panel N
  refresh_failed id was_run cause s =
      say id error_tone
        ((if was_run
            then codes "Check completed, but its diagnostics could not refresh: "
            else codes "Check is unavailable, and diagnostics could not refresh: ")
          ++ cause_message cause)
        s

  -- `requestRun`, up to its `await`
  pub request_run : Text → Panel N → Panel N
  unfolding set_monitor_running
  request_run id s = record (set_monitor_running id true s) { feedback = none }

  -- the server took the run
  pub run_queued : Text → Text → Panel N → Panel N
  unfolding poll_run_receipt
  run_queued id run_id s =
      poll_run_receipt id run_id (record s { feedback = some (manual_run_feedback id queued) })

  pub run_unavailable : Text → Panel N → Panel N
  unfolding set_monitor_running
  run_unavailable id s =
      say id unavailable_tone
        (codes "Check unavailable — the scheduler did not accept a runnable receipt.")
        (set_monitor_running id false s)

  -- its `catch`; `no_scheduler` is the test of the cause's status and code
  pub run_failed : Text → Bool → Option Text → Panel N → Panel N
  unfolding set_monitor_running
  run_failed id no_scheduler cause s =
      say id (if no_scheduler then unavailable_tone else error_tone)
        (if no_scheduler
          then codes "Check unavailable — the monitor scheduler cannot accept work right now."
          else codes "Unable to queue check: " ++ cause_message cause)
        (set_monitor_running id false s)

-- What may happen to the panel, in any order.
pub data Act (N : Type 0) : Type 0 where
  node_changed : Act N
  unmounted : Act N
  monitors_changed : (Text → Bool) → Act N
  removal_noticed : (Text → Bool) → Act N
  editing_begun : ℕ → Option (MonitorRecord N) → Act N
  editing_cancelled : Act N
  saved : ℕ → MonitorRecord N → Act N
  removal_begun : Act N
  removed : Text → Option (EditorState N) → Act N
  removal_failed : Text → Option Text → Act N
  run_requested : Text → Act N
  run_accepted : Text → Text → Act N
  run_declined : Text → Act N
  run_rejected : Text → Bool → Option Text → Act N
  poll_timer : ℕ → Act N
  receipt : ℕ → RunStatus → Act N
  receipt_lost : ℕ → Option Text → Act N
  refresh_lost : Text → Bool → Option Text → Act N

module _ {N : Type 0} where
  abbrev pub step : Act N → Panel N → Panel N
  step node_changed s = change_node s
  step unmounted s = unmount s
  step (monitors_changed live) s = keep_live live s
  step (removal_noticed live) s = close_editor live s
  step (editing_begun now monitor) s = begin_editing now monitor s
  step editing_cancelled s = cancel_editing s
  step (saved revision monitor) s = monitor_saved revision monitor s
  step removal_begun s = remove_monitor s
  step (removed id edited) s = monitor_removed id edited s
  step (removal_failed id cause) s = monitor_not_removed id cause s
  step (run_requested id) s = request_run id s
  step (run_accepted id run_id) s = run_queued id run_id s
  step (run_declined id) s = run_unavailable id s
  step (run_rejected id no_scheduler cause) s = run_failed id no_scheduler cause s
  step (poll_timer token) s = poll_due token s
  step (receipt token status) s = receipt_answered token status s
  step (receipt_lost token cause) s = receipt_failed token cause s
  step (refresh_lost id was_run cause) s = refresh_failed id was_run cause s

  pub run : Panel N → List (Act N) → Panel N
  run s [] = s
  run s (e ∷ es) = run (step e s) es
