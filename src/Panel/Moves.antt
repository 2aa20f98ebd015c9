-- ===== src/Panel/Moves.antt =====
-- The tokens that the panel keeps and the polls that carry them, and how a poll moves.
use network_topology_map.Prelude.{
  ℕ, ◌+◌, ◌≤◌, ◌<◌, ◌≡◌, refl, false, Option, some, ◌∷◌, Text, text_eq, text_eq_iff, is_number,
  arith, Bool-cases, inl, inr,
}
use network_topology_map.Prelude.Timer.{waiting, without}
use network_topology_map.Panel.{Panel, Run, new, change}
use network_topology_map.Panel.Counting.{
  count, OwnedBy, count-without, waiting-without, count-waiting, waiting-zero,
}

module _ {N : Type 0} where
  -- The token `t`, which the panel keeps for the monitor: one poll carries it, and it is that monitor's.
  pub record IsAwaited (s : Panel N) (id : Text) (t : ℕ) : Type 0 where
    pub drawn : t ≤ s.next_run_receipt_token
    pub once : count t s.asked + count t s.polls ≡ 1
    pub asks : OwnedBy id (waiting t s.asked)
    pub waits : OwnedBy id (waiting t s.polls)

  pub record IsPolled (s : Panel N) : Type 0 where
    pub awaited : (id : Text) (t : ℕ) → s.run_receipt_tokens id ≡ some t → IsAwaited s id t
    pub fresh :
        (t : ℕ) → s.next_run_receipt_token < t → (count t s.asked ≡ 0) × (count t s.polls ≡ 0)

  pub new-IsPolled : IsPolled new
  new-IsPolled = record { awaited = λ id t e. cc; fresh = λ t h. (refl, refl) }

  -- A step that leaves the polls and the counter, and takes tokens away at most.
  pub same_polls :
      (s s' : Panel N)
      → s'.asked ≡ s.asked
      → s'.polls ≡ s.polls
      → s'.next_run_receipt_token ≡ s.next_run_receipt_token
      → ((id : Text) (t : ℕ) → s'.run_receipt_tokens id ≡ some t → s.run_receipt_tokens id ≡ some t)
      → IsPolled s
      → IsPolled s'
  same_polls s s' a p n k h = record {
    awaited = λ id t e.
        let w = h.awaited id t (k id t e) in
        record {
          drawn = rw n w.drawn;
          once = rw (a, p) w.once;
          asks = rw a w.asks;
          waits = rw p w.waits;
        };
    fresh = λ t l. rw (a, p) (h.fresh t (rw n at l));
  }

  -- The poll of a token moves from the timers to the receipts asked for, if it is still awaited.
  pub asked_again :
      (s : Panel N) (token : ℕ) (r : Run)
      → IsPolled s
      → waiting token s.polls ≡ some r
      → s.run_receipt_tokens r.monitor_id ≡ some token
      → IsPolled (record s { polls = without token s.polls; asked = (token, r) ∷ s.asked })
  asked_again s token r h found current = record {
    awaited = λ id t e.
        let w = h.awaited id t e in
        record {
          drawn = w.drawn;
          once =
              ground
                (arith, w.once, count-without token t s.polls, count-waiting token s.polls found);
          asks = ground (arith, w.asks, w.waits, found);
          waits = ground (arith, w.waits, waiting-without token t s.polls);
        };
    fresh = λ t l.
        let w = h.awaited r.monitor_id token current in
        ground (arith, w.drawn, l, h.fresh t l, count-without token t s.polls);
  }

  -- A poll whose token is no longer the monitor's goes.
  pub dropped_poll :
      (s : Panel N) (token : ℕ) (r : Run)
      → IsPolled s
      → waiting token s.polls ≡ some r
      → is_number (s.run_receipt_tokens r.monitor_id) token ≡ false
      → IsPolled (record s { polls = without token s.polls })
  dropped_poll s token r h found stale = record {
    awaited = λ id t e.
        let w = h.awaited id t e in
        record {
          drawn = w.drawn;
          once = ground (arith, w.once, w.waits, found, e, stale, count-without token t s.polls);
          asks = w.asks;
          waits = ground (arith, w.waits, waiting-without token t s.polls);
        };
    fresh = λ t l. ground (arith, h.fresh t l, count-without token t s.polls);
  }

  -- The poll of a token moves from the receipts asked for back to the timers.
  pub waits_again :
      (s : Panel N) (token : ℕ) (r : Run)
      → IsPolled s
      → waiting token s.asked ≡ some r
      → s.run_receipt_tokens r.monitor_id ≡ some token
      → IsPolled (record s { asked = without token s.asked; polls = (token, r) ∷ s.polls })
  waits_again s token r h found current = record {
    awaited = λ id t e.
        let w = h.awaited id t e in
        record {
          drawn = w.drawn;
          once =
              ground
                (arith, w.once, count-without token t s.asked, count-waiting token s.asked found);
          asks = ground (arith, w.asks, waiting-without token t s.asked);
          waits = ground (arith, w.asks, w.waits, found);
        };
    fresh = λ t l.
        let w = h.awaited r.monitor_id token current in
        ground (arith, w.drawn, l, h.fresh t l, count-without token t s.asked);
  }

  -- A receipt of a token that is no longer the monitor's goes; so it does if the token is then taken
  -- from its monitor.
  pub dropped_receipt :
      (s : Panel N) (token : ℕ) (r : Run) (tokens : Text → Option ℕ)
      → IsPolled s
      → waiting token s.asked ≡ some r
      → is_number (tokens r.monitor_id) token ≡ false
      → ((id : Text) (t : ℕ) → tokens id ≡ some t → s.run_receipt_tokens id ≡ some t)
      → IsPolled (record s { asked = without token s.asked; run_receipt_tokens = tokens })
  dropped_receipt s token r tokens h found stale less = record {
    awaited = λ id t e.
        let w = h.awaited id t (less id t e) in
        record {
          drawn = w.drawn;
          once = ground (arith, w.once, w.asks, found, e, stale, count-without token t s.asked);
          asks = ground (arith, w.asks, waiting-without token t s.asked);
          waits = w.waits;
        };
    fresh = λ t l. ground (arith, h.fresh t l, count-without token t s.asked);
  }

  -- A fresh token is asked for.
  pub started :
      (s : Panel N) (r : Run)
      → IsPolled s
      → let token = s.next_run_receipt_token + 1 in
        IsPolled (record s {
          next_run_receipt_token = token;
          run_receipt_tokens = change r.monitor_id (some token) s.run_receipt_tokens;
          asked = (token, r) ∷ s.asked;
        })
  started s r h =
      let token = s.next_run_receipt_token + 1 in
      record {
        awaited = λ id t e. elim (Bool-cases (text_eq r.monitor_id id)) [
          | inl same ↦
              let zero = h.fresh token (omega arith) in
              record {
                drawn = ground arith;
                once = ground (arith, zero);
                asks = ground (arith, (text_eq_iff r.monitor_id id).0 same);
                waits = ground (arith, waiting-zero token s.polls zero.1);
              }
          | inr differ ↦
              let w = h.awaited id t (rw differ at e) in
              record {
                drawn = ground (arith, w.drawn);
                once = ground (arith, w.drawn, w.once);
                asks = ground (arith, w.drawn, w.asks);
                waits = w.waits;
              }
        ];
        fresh = λ t l. ground (arith, h.fresh t (omega (arith, l)));
      }
