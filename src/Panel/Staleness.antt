-- ===== src/Panel/Staleness.antt =====
-- A receipt of a token that the panel has given up has no effect.
use network_topology_map.Prelude.{
  ℕ, ◌≤◌, ◌<◌, ◌≡◌, refl, Bool, true, false, Option, some, List, [], ◌∷◌, Text, is_number, arith,
  Option-cases, inl, inr,
}
use network_topology_map.Prelude.Timer.{waiting}
use network_topology_map.Types.{MonitorRecord, RunStatus}
use network_topology_map.Panel.{
  Panel, EditorState, new, change_node, unmount, keep_live, close_editor, begin_editing,
  cancel_editing, monitor_saved, remove_monitor, monitor_removed, monitor_not_removed, request_run,
  run_queued, run_unavailable, run_failed, poll_due, receipt_answered, receipt_failed,
  refresh_failed, poll_run_receipt, set_monitor_running, Act, step, run, node_changed, unmounted,
  monitors_changed, removal_noticed, editing_begun, editing_cancelled, saved, removal_begun,
  removed, removal_failed, run_requested, run_accepted, run_declined, run_rejected, poll_timer,
  receipt, receipt_lost, refresh_lost,
}

module _ {N : Type 0} where
  -- Every token that the panel keeps was drawn after the first `k`.
  pub record IsNewer (k : ℕ) (s : Panel N) : Type 0 where
    pub drawn : k ≤ s.next_run_receipt_token
    pub newer : (id : Text) (t : ℕ) → s.run_receipt_tokens id ≡ some t → k < t

  change_node-IsNewer : (k : ℕ) (s : Panel N) → IsNewer k s → IsNewer k (change_node s)
  unfolding change_node
  change_node-IsNewer k s h = record {
    drawn = ground (arith, h.drawn);
    newer = λ j u g. ground (arith, h.drawn, h.newer j u);
  }

  unmount-IsNewer : (k : ℕ) (s : Panel N) → IsNewer k s → IsNewer k (unmount s)
  unfolding unmount
  unmount-IsNewer k s h = record {
    drawn = ground (arith, h.drawn);
    newer = λ j u g. ground (arith, h.drawn, h.newer j u);
  }

  keep_live-IsNewer :
      (k : ℕ) (live : Text → Bool) (s : Panel N) → IsNewer k s → IsNewer k (keep_live live s)
  unfolding keep_live
  keep_live-IsNewer k live s h = record {
    drawn = ground (arith, h.drawn);
    newer = λ j u g. ground (arith, h.drawn, h.newer j u);
  }

  close_editor-IsNewer :
      (k : ℕ) (live : Text → Bool) (s : Panel N) → IsNewer k s → IsNewer k (close_editor live s)
  unfolding close_editor
  close_editor-IsNewer k live s h = record {
    drawn = ground (arith, h.drawn);
    newer = λ j u g. ground (arith, h.drawn, h.newer j u);
  }

  begin_editing-IsNewer :
      (k : ℕ) (now : ℕ) (m : Option (MonitorRecord N)) (s : Panel N)
      → IsNewer k s
      → IsNewer k (begin_editing now m s)
  unfolding begin_editing
  begin_editing-IsNewer k now m s h = record {
    drawn = ground (arith, h.drawn);
    newer = λ j u g. ground (arith, h.drawn, h.newer j u);
  }

  cancel_editing-IsNewer : (k : ℕ) (s : Panel N) → IsNewer k s → IsNewer k (cancel_editing s)
  unfolding cancel_editing
  cancel_editing-IsNewer k s h = record {
    drawn = ground (arith, h.drawn);
    newer = λ j u g. ground (arith, h.drawn, h.newer j u);
  }

  monitor_saved-IsNewer :
      (k : ℕ) (r : ℕ) (m : MonitorRecord N) (s : Panel N)
      → IsNewer k s
      → IsNewer k (monitor_saved r m s)
  unfolding monitor_saved
  monitor_saved-IsNewer k r m s h = record {
    drawn = ground (arith, h.drawn);
    newer = λ j u g. ground (arith, h.drawn, h.newer j u);
  }

  remove_monitor-IsNewer : (k : ℕ) (s : Panel N) → IsNewer k s → IsNewer k (remove_monitor s)
  unfolding remove_monitor
  remove_monitor-IsNewer k s h = record {
    drawn = ground (arith, h.drawn);
    newer = λ j u g. ground (arith, h.drawn, h.newer j u);
  }

  monitor_removed-IsNewer :
      (k : ℕ) (id : Text) (e : Option (EditorState N)) (s : Panel N)
      → IsNewer k s
      → IsNewer k (monitor_removed id e s)
  unfolding monitor_removed
  monitor_removed-IsNewer k id e s h = record {
    drawn = ground (arith, h.drawn);
    newer = λ j u g. ground (arith, h.drawn, h.newer j u);
  }

  monitor_not_removed-IsNewer :
      (k : ℕ) (id : Text) (c : Option Text) (s : Panel N)
      → IsNewer k s
      → IsNewer k (monitor_not_removed id c s)
  unfolding monitor_not_removed
  monitor_not_removed-IsNewer k id c s h = record {
    drawn = ground (arith, h.drawn);
    newer = λ j u g. ground (arith, h.drawn, h.newer j u);
  }

  request_run-IsNewer :
      (k : ℕ) (id : Text) (s : Panel N) → IsNewer k s → IsNewer k (request_run id s)
  unfolding request_run
  request_run-IsNewer k id s h = record {
    drawn = ground (arith, h.drawn);
    newer = λ j u g. ground (arith, h.drawn, h.newer j u);
  }

  run_queued-IsNewer :
      (k : ℕ) (id r : Text) (s : Panel N) → IsNewer k s → IsNewer k (run_queued id r s)
  unfolding run_queued poll_run_receipt
  run_queued-IsNewer k id r s h = record {
    drawn = ground (arith, h.drawn);
    newer = λ j u g. ground (arith, h.drawn, h.newer j u);
  }

  run_unavailable-IsNewer :
      (k : ℕ) (id : Text) (s : Panel N) → IsNewer k s → IsNewer k (run_unavailable id s)
  unfolding run_unavailable
  run_unavailable-IsNewer k id s h = record {
    drawn = ground (arith, h.drawn);
    newer = λ j u g. ground (arith, h.drawn, h.newer j u);
  }

  run_failed-IsNewer :
      (k : ℕ) (id : Text) (b : Bool) (c : Option Text) (s : Panel N)
      → IsNewer k s
      → IsNewer k (run_failed id b c s)
  unfolding run_failed
  run_failed-IsNewer k id b c s h = record {
    drawn = ground (arith, h.drawn);
    newer = λ j u g. ground (arith, h.drawn, h.newer j u);
  }

  poll_due-IsNewer : (k : ℕ) (t : ℕ) (s : Panel N) → IsNewer k s → IsNewer k (poll_due t s)
  unfolding poll_due
  poll_due-IsNewer k t s h = record {
    drawn = ground (arith, h.drawn);
    newer = λ j u g. ground (arith, h.drawn, h.newer j u);
  }

  receipt_answered-IsNewer :
      (k : ℕ) (t : ℕ) (st : RunStatus) (s : Panel N)
      → IsNewer k s
      → IsNewer k (receipt_answered t st s)
  unfolding receipt_answered set_monitor_running
  receipt_answered-IsNewer k t st s h = record {
    drawn = ground (arith, h.drawn);
    newer = λ j u g. ground (arith, h.drawn, h.newer j u);
  }

  receipt_failed-IsNewer :
      (k : ℕ) (t : ℕ) (c : Option Text) (s : Panel N)
      → IsNewer k s
      → IsNewer k (receipt_failed t c s)
  unfolding receipt_failed set_monitor_running
  receipt_failed-IsNewer k t c s h = record {
    drawn = ground (arith, h.drawn);
    newer = λ j u g. ground (arith, h.drawn, h.newer j u);
  }

  refresh_failed-IsNewer :
      (k : ℕ) (id : Text) (b : Bool) (c : Option Text) (s : Panel N)
      → IsNewer k s
      → IsNewer k (refresh_failed id b c s)
  unfolding refresh_failed
  refresh_failed-IsNewer k id b c s h = record {
    drawn = ground (arith, h.drawn);
    newer = λ j u g. ground (arith, h.drawn, h.newer j u);
  }

  step-IsNewer : (k : ℕ) (e : Act N) (s : Panel N) → IsNewer k s → IsNewer k (step e s)
  step-IsNewer k node_changed s h = change_node-IsNewer k s h
  step-IsNewer k unmounted s h = unmount-IsNewer k s h
  step-IsNewer k (monitors_changed live) s h = keep_live-IsNewer k live s h
  step-IsNewer k (removal_noticed live) s h = close_editor-IsNewer k live s h
  step-IsNewer k (editing_begun now m) s h = begin_editing-IsNewer k now m s h
  step-IsNewer k editing_cancelled s h = cancel_editing-IsNewer k s h
  step-IsNewer k (saved r m) s h = monitor_saved-IsNewer k r m s h
  step-IsNewer k removal_begun s h = remove_monitor-IsNewer k s h
  step-IsNewer k (removed id e) s h = monitor_removed-IsNewer k id e s h
  step-IsNewer k (removal_failed id c) s h = monitor_not_removed-IsNewer k id c s h
  step-IsNewer k (run_requested id) s h = request_run-IsNewer k id s h
  step-IsNewer k (run_accepted id r) s h = run_queued-IsNewer k id r s h
  step-IsNewer k (run_declined id) s h = run_unavailable-IsNewer k id s h
  step-IsNewer k (run_rejected id b c) s h = run_failed-IsNewer k id b c s h
  step-IsNewer k (poll_timer t) s h = poll_due-IsNewer k t s h
  step-IsNewer k (receipt t st) s h = receipt_answered-IsNewer k t st s h
  step-IsNewer k (receipt_lost t c) s h = receipt_failed-IsNewer k t c s h
  step-IsNewer k (refresh_lost id b c) s h = refresh_failed-IsNewer k id b c s h

  run-IsNewer : (k : ℕ) (s : Panel N) (es : List (Act N)) → IsNewer k s → IsNewer k (run s es)
  unfolding run
  run-IsNewer k s [] h = h
  run-IsNewer k s (e ∷ es) h = run-IsNewer k (step e s) es (step-IsNewer k e s h)

  -- The panel is shown another node (`true`), or goes.
  abbrev pub cleared : Bool → Panel N → Panel N
  cleared true s = change_node s
  cleared false s = unmount s

  cleared-IsNewer : (b : Bool) (s : Panel N) → IsNewer s.next_run_receipt_token (cleared b s)
  unfolding change_node unmount
  cleared-IsNewer true s = record { drawn = omega arith; newer = λ id t e. cc }
  cleared-IsNewer false s = record { drawn = omega arith; newer = λ id t e. cc }

  not_current :
      (k : ℕ) (u : Panel N) (id : Text) (t : ℕ)
      → IsNewer k u
      → t ≤ k
      → is_number (u.run_receipt_tokens id) t ≡ false
  not_current k u id t h l = elim (Option-cases (u.run_receipt_tokens id)) [
    | inl empty ↦ rw empty refl
    | inr (v, kept) ↦ ground (arith, h.newer id v kept)
  ]

  -- What an answer to a poll, the failure of one, and the timer of one change, leaving out the poll.
  pub record HasNoEffect (t : ℕ) (u : Panel N) : Type 0 where
    pub answer : (status : RunStatus) → record (receipt_answered t status u) { asked = u.asked } ≡ u
    pub failure : (cause : Option Text) → record (receipt_failed t cause u) { asked = u.asked } ≡ u
    pub timer : record (poll_due t u) { polls = u.polls } ≡ u

  old-HasNoEffect : (k : ℕ) (t : ℕ) (u : Panel N) → IsNewer k u → t ≤ k → HasNoEffect t u
  unfolding receipt_answered receipt_failed poll_due
  old-HasNoEffect k t u h l = record {
    answer = λ status. elim (Option-cases (waiting t u.asked)) [
      | inl gone ↦ rw (gone, receipt_answered) refl
      | inr (r, found) ↦ rw (found, receipt_answered, not_current k u r.monitor_id t h l) refl
    ];
    failure = λ cause. elim (Option-cases (waiting t u.asked)) [
      | inl gone ↦ rw (gone, receipt_failed) refl
      | inr (r, found) ↦ rw (found, receipt_failed, not_current k u r.monitor_id t h l) refl
    ];
    timer = elim (Option-cases (waiting t u.polls)) [
      | inl gone ↦ rw (gone, poll_due) refl
      | inr (r, found) ↦ rw (found, poll_due, not_current k u r.monitor_id t h l) refl
    ];
  }

  -- After any steps of a new panel, another node or the end of the panel, and any further steps, the
  -- polls of tokens drawn before change nothing: an answer, a failure and a timer only end the poll.
  pub run-HasNoEffect :
      (es es' : List (Act N)) (b : Bool) (t : ℕ)
      → t ≤ (run new es).next_run_receipt_token
      → HasNoEffect t (run (cleared b (run new es)) es')
  run-HasNoEffect es es' b t l =
      let s = run new es in
      let k = s.next_run_receipt_token in
      old-HasNoEffect k t (run (cleared b s) es')
        (run-IsNewer k (cleared b s) es' (cleared-IsNewer b s)) l
