-- ===== src/Prelude/Timer.antt =====
-- The timers of the JavaScript event loop: setTimeout returns a fresh handle, clearTimeout takes a
-- pending call back, and a call that fires is pending no more. `A` says what the callback does.
use Prim.Native.Nat.{ℕ, suc}
use mathlib.Core.Path.{◌≡◌}
use mathlib.Core.Option.{Option, none, some}
use mathlib.Core.List.{List, [], ◌∷◌}
use native.Mathlib.Omega.{arith}
use network_topology_map.Prelude.Tests.{◌==◌, if◌then◌else◌}

pub record Timers {ℓ} (A : Type ℓ) : Type ℓ where
  pub next : ℕ
  pub pending : List (ℕ × A)

module _ {ℓ} {A : Type ℓ} where
  abbrev pub no_timers : Timers A
  no_timers = record { next = 0; pending = [] }

  -- the call that waits behind a handle
  abbrev pub waiting : ℕ → List (ℕ × A) → Option A
  waiting t [] = none
  waiting t ((u, a) ∷ ts) = if u == t then some a else waiting t ts

  abbrev pub without : ℕ → List (ℕ × A) → List (ℕ × A)
  without t [] = []
  without t ((u, a) ∷ ts) = if u == t then without t ts else (u, a) ∷ without t ts

  -- setTimeout; the handle that it returns is `ts.next`
  abbrev pub set_timer : A → Timers A → Timers A
  set_timer a ts = record { next = suc ts.next; pending = (ts.next, a) ∷ ts.pending }

  -- clearTimeout
  abbrev pub clear_timer : ℕ → Timers A → Timers A
  clear_timer t ts = record ts { pending = without t ts.pending }

  -- `if (handle !== null) { clearTimeout(handle); }`
  abbrev pub cancel : Option ℕ → Timers A → Timers A
  cancel none ts = ts
  cancel (some t) ts = clear_timer t ts

  -- The handle that an object keeps stands for the one call that is pending.
  abbrev pub Owns : Option ℕ → List (ℕ × A) → Type ℓ
  Owns none ts = ts ≡ []
  Owns (some t) ts = (a : A) × (ts ≡ (t, a) ∷ [])

  pub without-Owns : (h : Option ℕ) (ts : Timers A) → Owns h ts.pending → (cancel h ts).pending ≡ []
  without-Owns none ts o = o
  without-Owns (some t) ts o = ground arith
