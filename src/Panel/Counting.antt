-- ===== src/Panel/Counting.antt =====
-- Entries of a list by token.
use network_topology_map.Prelude.{
  ℕ, suc, ◌≤◌, ◌≡◌, refl, true, Option, none, some, List, [], ◌∷◌, Text, is_number, ◌==◌,
  if◌then◌else◌, arith,
}
use network_topology_map.Prelude.Timer.{waiting, without}
use network_topology_map.Panel.{Run, change}

-- how many entries a list has for a token
abbrev pub count : ℕ → List (ℕ × Run) → ℕ
count t [] = 0
count t ((u, r) ∷ rs) = if u == t then suc (count t rs) else count t rs

-- the monitor of the entry, if there is one, is this
abbrev pub OwnedBy : Text → Option Run → Type 0
OwnedBy id none = Unit
OwnedBy id (some r) = r.monitor_id ≡ id

pub count-without :
    (t u : ℕ) (rs : List (ℕ × Run)) → count u (without t rs) ≡ (if t == u then 0 else count u rs)
count-without t u [] = ground arith
count-without t u ((v, r) ∷ rs) = ground (arith, count-without t u rs)

pub waiting-without :
    (t u : ℕ) (rs : List (ℕ × Run))
    → waiting u (without t rs) ≡ (if t == u then none else waiting u rs)
waiting-without t u [] = ground arith
waiting-without t u ((v, r) ∷ rs) = ground (arith, waiting-without t u rs)

pub count-waiting : (t : ℕ) (rs : List (ℕ × Run)) {r : Run} → waiting t rs ≡ some r → 1 ≤ count t rs
count-waiting t [] h = ground arith
count-waiting t ((v, r) ∷ rs) {r = s} h = ground (arith, count-waiting t rs {r = s})

pub waiting-zero : (t : ℕ) (rs : List (ℕ × Run)) → count t rs ≡ 0 → waiting t rs ≡ none
waiting-zero t [] h = refl
waiting-zero t ((v, r) ∷ rs) h = ground (arith, waiting-zero t rs)

pub forgotten :
    (k : Text) (tokens : Text → Option ℕ) (id : Text) (t : ℕ)
    → change k none tokens id ≡ some t
    → tokens id ≡ some t
forgotten k tokens id t e = ground arith

pub ==-refl : (n : ℕ) → (n == n) ≡ true
==-refl n = ground arith

pub is_number-some : (o : Option ℕ) (t : ℕ) → is_number o t ≡ true → o ≡ some t
is_number-some none t h = absurd (cc)
is_number-some (some u) t h = ground arith
