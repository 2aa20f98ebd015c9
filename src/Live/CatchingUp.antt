-- ===== src/Live/CatchingUp.antt =====
-- A live connection that is behind what was announced catches up with it.
use network_topology_map.Prelude.{
  ℕ, ◌≤◌, ◌<◌, ◌≡◌, true, false, max, List, [], ◌∷◌, arith, is_some, Option-cases, inl, inr, refl,
  id_eq_refl, dec_lt, ap, ◌∙◌, Bool-cases, some,
}
use network_topology_map.Types.{Snapshot}
use network_topology_map.Snapshot.{SnapshotLoadResult}
use network_topology_map.Live.Defs.{
  Sync, new, start, retry_timeout, on_loaded, on_load_finished, Event, step, run, started,
  retry_due, loaded, load_finished, delivered, Effect,
}
use network_topology_map.Live.Streams.{IsValid, new-IsValid, step-IsValid, run_from-IsValid}
use network_topology_map.Live.Recovery.{WillLoad, AllOfMap, run-IsRecovering}
use network_topology_map.Live.Announced.{announced, run-IsTold}

module _ {N C : Type 0} where
  -- An answer of the map that is followed, while the object runs: too old for what is required,
  -- it is dropped and a new load is queued; else it is delivered, and applied if it is newer.
  pub on_loaded_lem :
      (r : SnapshotLoadResult N) (s : Sync N C)
      → 0 < s.loading
      → s.stopped ≡ false
      → s.map_id ≡ some r.snapshot.map.id
      → let s' = on_loaded r s in
        (r.snapshot.revision < s.required_revision
          → (s'.refresh_queued ≡ true)
            × (s'.effects ≡ s.effects)
            × (s'.applied_revision ≡ s.applied_revision))
        × (s.required_revision ≤ r.snapshot.revision
            → (s'.effects ≡ delivered r ∷ s.effects)
              × (r.snapshot.revision ≤ s'.applied_revision)
              × (s.applied_revision ≤ s'.applied_revision))
  unfolding on_loaded
  on_loaded_lem r s l a e = (
    λ old. ground (arith, id_eq_refl (some r.snapshot.map.id)),
    λ enough. ground (arith, id_eq_refl (some r.snapshot.map.id)),
  )

  -- The events by which the environment lets the object load, and no others.
  abbrev pub IsProgress : SnapshotLoadResult N → Event N C → Type 0
  IsProgress r (loaded r') = r' ≡ r
  IsProgress r (retry_due t) = Unit
  IsProgress r load_finished = Unit
  IsProgress r _ = ⊥

  abbrev pub AllProgress : SnapshotLoadResult N → List (Event N C) → Type 0
  AllProgress r [] = Unit
  AllProgress r (e ∷ es) = IsProgress r e × AllProgress r es

  -- The object runs and follows the map of an answer that is new enough, also for the revision `n`.
  record Expects (n : ℕ) (r : SnapshotLoadResult N) (s : Sync N C) : Type 0 where
    running : s.stopped ≡ false
    follows : s.map_id ≡ some r.snapshot.map.id
    enough : s.required_revision ≤ r.snapshot.revision
    covers : n ≤ r.snapshot.revision

  -- Some progress of the environment has the answer delivered, and the revision `n` or a later one
  -- applied.
  pub record CatchesUp (n : ℕ) (r : SnapshotLoadResult N) (s : Sync N C) : Type 0 where
    pub events : List (Event N C)
    pub progress : AllProgress r events
    pub delivers : (run s events).effects ≡ delivered r ∷ s.effects
    pub applies : n ≤ (run s events).applied_revision

  module _ (n : ℕ) (r : SnapshotLoadResult N) (s : Sync N C) (x : Expects n r s) where
    on_loaded_delivers :
        0 < s.loading
        → ((on_loaded r s).effects ≡ delivered r ∷ s.effects)
          × (n ≤ (on_loaded r s).applied_revision)
    on_loaded_delivers l =
        let good = (on_loaded_lem r s l x.running x.follows).1 x.enough in
        (good.0, ground (arith, good, x.covers))

    finished_queued :
        0 < s.settling
        → s.refresh_queued ≡ true
        → Expects n r (on_load_finished s)
          × (0 < (on_load_finished s).loading)
          × ((on_load_finished s).effects ≡ s.effects)
    unfolding on_load_finished
    finished_queued h q = ground arith

    finished_idle :
        0 < s.settling
        → s.refresh_queued ≡ false
        → Expects n r (on_load_finished s)
          × ((on_load_finished s).refreshing ≡ false)
          × ((on_load_finished s).retry_timers ≡ s.retry_timers)
          × ((on_load_finished s).effects ≡ s.effects)
    unfolding on_load_finished
    finished_idle h q = ground arith

    retried :
        (t : ℕ)
        → s.refreshing ≡ false
        → s.retry_timers.pending ≡ (t, tt) ∷ []
        → Expects n r (retry_timeout t s)
          × (0 < (retry_timeout t s).loading)
          × ((retry_timeout t s).effects ≡ s.effects)
    unfolding retry_timeout
    retried t i p = ground arith

  module _ (n : ℕ) where
    catch_up_loading :
        (r : SnapshotLoadResult N) (s : Sync N C) → Expects n r s → 0 < s.loading → CatchesUp n r s
    catch_up_loading r s x l = record {
      events = loaded r ∷ [];
      progress = (refl, tt);
      delivers = unfold run in (on_loaded_delivers n r s x l).0;
      applies = unfold run in (on_loaded_delivers n r s x l).1;
    }

    -- A first event that shows nothing may be put before the others.
    catch_up_after :
        (e : Event N C) (r : SnapshotLoadResult N) (s : Sync N C)
        → IsProgress r e
        → (step e s).effects ≡ s.effects
        → CatchesUp n r (step e s)
        → CatchesUp n r s
    catch_up_after e r s p quiet c = record {
      events = e ∷ c.events;
      progress = (p, c.progress);
      delivers = unfold run in (c.delivers ∙ ap (λ (l : List (Effect N C)). delivered r ∷ l) quiet);
      applies = unfold run in c.applies;
    }

    catch_up_retry :
        (t : ℕ) (r : SnapshotLoadResult N) (s : Sync N C)
        → Expects n r s
        → s.refreshing ≡ false
        → s.retry_timers.pending ≡ (t, tt) ∷ []
        → CatchesUp n r s
    catch_up_retry t r s x i p =
        let (x', l, quiet) = retried n r s x t i p in
        catch_up_after (retry_due t) r s tt quiet (catch_up_loading r (retry_timeout t s) x' l)

    catch_up_queued :
        (r : SnapshotLoadResult N) (s : Sync N C)
        → Expects n r s
        → 0 < s.settling
        → s.refresh_queued ≡ true
        → CatchesUp n r s
    catch_up_queued r s x h q =
        let (x', l, quiet) = finished_queued n r s x h q in
        catch_up_after load_finished r s tt quiet (catch_up_loading r (on_load_finished s) x' l)

    catch_up_idle :
        (t : ℕ) (r : SnapshotLoadResult N) (s : Sync N C)
        → Expects n r s
        → 0 < s.settling
        → s.refresh_queued ≡ false
        → s.retry_timers.pending ≡ (t, tt) ∷ []
        → CatchesUp n r s
    catch_up_idle t r s x h q p =
        let (x', i, same, quiet) = finished_idle n r s x h q in
        catch_up_after load_finished r s tt quiet
          (catch_up_retry t r (on_load_finished s) x' i (ap (λ ts. ts.pending) same ∙ p))

    -- The pending retry of a valid object.
    retry_pending :
        (s : Sync N C)
        → IsValid s
        → is_some s.refresh_retry_timer ≡ true
        → (t : ℕ) × (s.retry_timers.pending ≡ (t, tt) ∷ [])
    retry_pending s v h = elim (Option-cases s.refresh_retry_timer) [
      | inl e ↦ cc
      | inr (t, e) ↦ (t, ground arith)
    ]

    catch_up_with_retry :
        (t : ℕ) (r : SnapshotLoadResult N) (s : Sync N C)
        → Expects n r s
        → IsValid s
        → s.retry_timers.pending ≡ (t, tt) ∷ []
        → CatchesUp n r s
    catch_up_with_retry t r s x v p = elim (Bool-cases s.refreshing) [
      | inr idle ↦ catch_up_retry t r s x idle p
      | inl busy ↦ elim (dec_lt 0 s.loading) [
        | yes l ↦ catch_up_loading r s x l
        | no n ↦ elim (Bool-cases s.refresh_queued) [
          | inl q ↦ catch_up_queued r s x (ground arith) q
          | inr q ↦ catch_up_idle t r s x (ground arith) q p
        ]
      ]
    ]

    catch_up_from :
        (r : SnapshotLoadResult N) (s : Sync N C)
        → Expects n r s
        → IsValid s
        → WillLoad s
        → CatchesUp n r s
    catch_up_from r s x v (inl l) = catch_up_loading r s x l
    catch_up_from r s x v (inr (inl (q, busy))) = elim (dec_lt 0 s.loading) [
      | yes l ↦ catch_up_loading r s x l
      | no n ↦ catch_up_queued r s x (ground arith) q
    ]
    catch_up_from r s x v (inr (inr retry)) =
        let (t, p) = retry_pending s v retry in catch_up_with_retry t r s x v p

  -- No dead end: once started on a map, after any events whose snapshots are all of that map, while
  -- the object runs and is behind a revision that was announced since it was last started (the one
  -- of the snapshot that it started from, or one for that map in a message on its stream), it is
  -- caught up by progress of the environment alone (a `finally` that runs, a retry timer that fires,
  -- a load that answers with a snapshot of the map at the highest announced revision or a later
  -- one): that snapshot is the one thing shown, and the highest announced revision or a later one is
  -- applied.
  pub run-CatchesUp :
      (x : Snapshot N) (es : List (Event N C)) (r : SnapshotLoadResult N)
      → AllOfMap x.map.id es
      → let s : Sync N C = run (start x new) es in
        let n = announced x.map.id x.revision (start x new) es in
        s.stopped ≡ false
        → s.applied_revision < n
        → r.snapshot.map.id ≡ x.map.id
        → n ≤ r.snapshot.revision
        → CatchesUp n r s
  run-CatchesUp x es r o running behind same enough =
      let s : Sync N C = run (start x new) es in
      let n = announced x.map.id x.revision (start x new) es in
      let h = run-IsRecovering x es o in
      let k = run-IsTold x es o in
      let (low, high) : (s.required_revision ≤ n)
          × (n ≤ max s.applied_revision s.required_revision) =
        (k.no_more, k.no_less) in
      catch_up_from n r s
        (record {
          running = running;
          follows = rw same h.follows;
          enough = omega (arith, low, enough);
          covers = enough;
        })
        (run_from-IsValid (start x new) es (step-IsValid (started x) new new-IsValid))
        (h.will_load running (omega (arith, high, behind)))
