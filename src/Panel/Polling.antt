-- ===== src/Panel/Polling.antt =====
-- Every run whose receipt is awaited is being polled, once.
use network_topology_map.Prelude.{
  ℕ, ◌+◌, ◌≡◌, refl, Bool, Option, none, some, List, [], ◌∷◌, Text, text_eq_refl, is_number, arith,
  Bool-cases, Option-cases, inl, inr,
}
use network_topology_map.Prelude.Timer.{waiting, without}
use network_topology_map.Types.{MonitorRecord, RunStatus, queued, completed, unavailable}
use network_topology_map.Panel.{
  Panel, Run, EditorState, ManualFeedback, settle_receipt, manual_run_feedback, new, change,
  change_node, unmount, keep_live, close_editor, begin_editing, cancel_editing, monitor_saved,
  remove_monitor, monitor_removed, monitor_not_removed, request_run, run_queued, run_unavailable,
  run_failed, poll_due, receipt_answered, receipt_failed, refresh_failed, set_monitor_running,
  poll_run_receipt, Act, step, run, node_changed, unmounted, monitors_changed, removal_noticed,
  editing_begun, editing_cancelled, saved, removal_begun, removed, removal_failed, run_requested,
  run_accepted, run_declined, run_rejected, poll_timer, receipt, receipt_lost, refresh_lost,
}
use network_topology_map.Panel.Counting.{forgotten, ==-refl, is_number-some}
use network_topology_map.Panel.Moves.{
  IsPolled, new-IsPolled, same_polls, asked_again, dropped_poll, waits_again, dropped_receipt,
  started,
}

module _ {N : Type 0} where
  change_node-IsPolled : (s : Panel N) → IsPolled s → IsPolled (change_node s)
  unfolding change_node
  change_node-IsPolled s h = same_polls s (change_node s) refl refl refl (λ id t e. cc) h

  unmount-IsPolled : (s : Panel N) → IsPolled s → IsPolled (unmount s)
  unfolding unmount
  unmount-IsPolled s h = same_polls s (unmount s) refl refl refl (λ id t e. cc) h

  keep_live-IsPolled : (live : Text → Bool) (s : Panel N) → IsPolled s → IsPolled (keep_live live s)
  unfolding keep_live
  keep_live-IsPolled live s h =
      same_polls s (keep_live live s) refl refl refl (λ id t e. ground arith) h

  close_editor-IsPolled :
      (live : Text → Bool) (s : Panel N) → IsPolled s → IsPolled (close_editor live s)
  unfolding close_editor
  close_editor-IsPolled live s h =
      same_polls s (close_editor live s) (ground arith) (ground arith) (ground arith)
        (λ j t e. ground arith) h

  begin_editing-IsPolled :
      (now : ℕ) (monitor : Option (MonitorRecord N)) (s : Panel N)
      → IsPolled s
      → IsPolled (begin_editing now monitor s)
  unfolding begin_editing
  begin_editing-IsPolled now monitor s h =
      same_polls s (begin_editing now monitor s) refl refl refl (λ j t e. e) h

  cancel_editing-IsPolled : (s : Panel N) → IsPolled s → IsPolled (cancel_editing s)
  unfolding cancel_editing
  cancel_editing-IsPolled s h = same_polls s (cancel_editing s) refl refl refl (λ j t e. e) h

  monitor_saved-IsPolled :
      (revision : ℕ) (monitor : MonitorRecord N) (s : Panel N)
      → IsPolled s
      → IsPolled (monitor_saved revision monitor s)
  unfolding monitor_saved
  monitor_saved-IsPolled revision monitor s h =
      same_polls s (monitor_saved revision monitor s) refl refl refl (λ j t e. e) h

  remove_monitor-IsPolled : (s : Panel N) → IsPolled s → IsPolled (remove_monitor s)
  unfolding remove_monitor
  remove_monitor-IsPolled s h = same_polls s (remove_monitor s) refl refl refl (λ j t e. e) h

  monitor_removed-IsPolled :
      (id : Text) (edited : Option (EditorState N)) (s : Panel N)
      → IsPolled s
      → IsPolled (monitor_removed id edited s)
  unfolding monitor_removed
  monitor_removed-IsPolled id edited s h =
      same_polls s (monitor_removed id edited s) (ground arith) (ground arith) (ground arith)
        (λ j t e. ground arith) h

  monitor_not_removed-IsPolled :
      (id : Text) (cause : Option Text) (s : Panel N)
      → IsPolled s
      → IsPolled (monitor_not_removed id cause s)
  unfolding monitor_not_removed
  monitor_not_removed-IsPolled id cause s h =
      same_polls s (monitor_not_removed id cause s) refl refl refl (λ j t e. e) h

  request_run-IsPolled : (id : Text) (s : Panel N) → IsPolled s → IsPolled (request_run id s)
  unfolding request_run
  request_run-IsPolled id s h = same_polls s (request_run id s) refl refl refl (λ j t e. e) h

  run_unavailable-IsPolled :
      (id : Text) (s : Panel N) → IsPolled s → IsPolled (run_unavailable id s)
  unfolding run_unavailable
  run_unavailable-IsPolled id s h =
      same_polls s (run_unavailable id s) refl refl refl (λ j t e. e) h

  run_failed-IsPolled :
      (id : Text) (no_scheduler : Bool) (cause : Option Text) (s : Panel N)
      → IsPolled s
      → IsPolled (run_failed id no_scheduler cause s)
  unfolding run_failed
  run_failed-IsPolled id no_scheduler cause s h =
      same_polls s (run_failed id no_scheduler cause s) refl refl refl (λ j t e. e) h

  refresh_failed-IsPolled :
      (id : Text) (was_run : Bool) (cause : Option Text) (s : Panel N)
      → IsPolled s
      → IsPolled (refresh_failed id was_run cause s)
  unfolding refresh_failed
  refresh_failed-IsPolled id was_run cause s h =
      same_polls s (refresh_failed id was_run cause s) refl refl refl (λ j t e. e) h

  poll_due-IsPolled : (token : ℕ) (s : Panel N) → IsPolled s → IsPolled (poll_due token s)
  unfolding poll_due
  poll_due-IsPolled token s h = elim (Option-cases (waiting token s.polls)) [
    | inl gone ↦ rw (gone, poll_due) h
    | inr (r, found) ↦
        rw (found, poll_due)
          (elim (Bool-cases (is_number (s.run_receipt_tokens r.monitor_id) token)) [
            | inl current ↦ rw current (
                asked_again s token r h found
                  (is_number-some (s.run_receipt_tokens r.monitor_id) token current))
            | inr stale ↦ rw stale (dropped_poll s token r h found stale)
          ])
  ]

  -- A receipt ends the polling of its monitor.
  ended :
      (s : Panel N) (token : ℕ) (r : Run) (running : Text → Bool) (said : Option ManualFeedback)
      → IsPolled s
      → waiting token s.asked ≡ some r
      → IsPolled (record s {
        asked = without token s.asked;
        run_receipt_tokens = change r.monitor_id none s.run_receipt_tokens;
        running_monitor_ids = running;
        feedback = said;
      })
  ended s token r running said h found =
      let tokens = change r.monitor_id none s.run_receipt_tokens in
      let t = record s { asked = without token s.asked; run_receipt_tokens = tokens } in
      same_polls t (record t { running_monitor_ids = running; feedback = said }) refl refl refl
        (λ j u e. e)
        (dropped_receipt s token r tokens h found (ground (arith, text_eq_refl r.monitor_id))
          (forgotten r.monitor_id s.run_receipt_tokens))

  receipt_answered-IsPolled :
      (token : ℕ) (status : RunStatus) (s : Panel N)
      → IsPolled s
      → IsPolled (receipt_answered token status s)
  unfolding receipt_answered set_monitor_running
  receipt_answered-IsPolled token status s h = elim (Option-cases (waiting token s.asked)) [
    | inl gone ↦ rw (gone, receipt_answered) h
    | inr (r, found) ↦
        rw (found, receipt_answered)
          (elim (Bool-cases (is_number (s.run_receipt_tokens r.monitor_id) token)) [
            | inl current ↦ rw current (
                by_status status r found
                  (is_number-some (s.run_receipt_tokens r.monitor_id) token current))
            | inr stale ↦
                rw stale (dropped_receipt s token r s.run_receipt_tokens h found stale (λ j u e. e))
          ])
  ]
    where
      by_status :
          (status : RunStatus) (r : Run)
          → waiting token s.asked ≡ some r
          → s.run_receipt_tokens r.monitor_id ≡ some token
          → IsPolled (settle_receipt token r status (record s { asked = without token s.asked }))
      by_status queued r found current = waits_again s token r h found current
      by_status completed r found current = ended s token r _ _ h found
      by_status unavailable r found current = ended s token r _ _ h found

  receipt_failed-IsPolled :
      (token : ℕ) (cause : Option Text) (s : Panel N)
      → IsPolled s
      → IsPolled (receipt_failed token cause s)
  unfolding receipt_failed set_monitor_running
  receipt_failed-IsPolled token cause s h = elim (Option-cases (waiting token s.asked)) [
    | inl gone ↦ rw (gone, receipt_failed) h
    | inr (r, found) ↦
        rw (found, receipt_failed)
          (elim (Bool-cases (is_number (s.run_receipt_tokens r.monitor_id) token)) [
            | inl current ↦ rw current (ended s token r _ _ h found)
            | inr stale ↦
                rw stale (dropped_receipt s token r s.run_receipt_tokens h found stale (λ j u e. e))
          ])
  ]

  run_queued-IsPolled :
      (id run_id : Text) (s : Panel N) → IsPolled s → IsPolled (run_queued id run_id s)
  unfolding run_queued poll_run_receipt
  run_queued-IsPolled id run_id s h =
      let said = record s { feedback = some (manual_run_feedback id queued) } in
      rw (text_eq_refl id, ==-refl (s.next_run_receipt_token + 1))
        (started said (record { monitor_id = id; run_id = run_id })
          (same_polls s said refl refl refl (λ j t e. e) h))

  step-IsPolled : (e : Act N) (s : Panel N) → IsPolled s → IsPolled (step e s)
  step-IsPolled node_changed s h = change_node-IsPolled s h
  step-IsPolled unmounted s h = unmount-IsPolled s h
  step-IsPolled (monitors_changed live) s h = keep_live-IsPolled live s h
  step-IsPolled (removal_noticed live) s h = close_editor-IsPolled live s h
  step-IsPolled (editing_begun now m) s h = begin_editing-IsPolled now m s h
  step-IsPolled editing_cancelled s h = cancel_editing-IsPolled s h
  step-IsPolled (saved r m) s h = monitor_saved-IsPolled r m s h
  step-IsPolled removal_begun s h = remove_monitor-IsPolled s h
  step-IsPolled (removed id e) s h = monitor_removed-IsPolled id e s h
  step-IsPolled (removal_failed id c) s h = monitor_not_removed-IsPolled id c s h
  step-IsPolled (run_requested id) s h = request_run-IsPolled id s h
  step-IsPolled (run_accepted id r) s h = run_queued-IsPolled id r s h
  step-IsPolled (run_declined id) s h = run_unavailable-IsPolled id s h
  step-IsPolled (run_rejected id b c) s h = run_failed-IsPolled id b c s h
  step-IsPolled (poll_timer t) s h = poll_due-IsPolled t s h
  step-IsPolled (receipt t st) s h = receipt_answered-IsPolled t st s h
  step-IsPolled (receipt_lost t c) s h = receipt_failed-IsPolled t c s h
  step-IsPolled (refresh_lost id b c) s h = refresh_failed-IsPolled id b c s h

  run_from-IsPolled : (s : Panel N) (es : List (Act N)) → IsPolled s → IsPolled (run s es)
  unfolding run
  run_from-IsPolled s [] h = h
  run_from-IsPolled s (e ∷ es) h = run_from-IsPolled (step e s) es (step-IsPolled e s h)

  -- After any steps of a new panel, in any order, every token that the panel keeps for a monitor is
  -- carried by exactly one poll, which is that monitor's, either asking for the receipt or waiting for
  -- its timer; and no poll carries a token that is still to be drawn.
  pub run-IsPolled : (es : List (Act N)) → IsPolled (run new es)
  run-IsPolled es = run_from-IsPolled new es new-IsPolled
