-- ===== src/Prelude/Trim.antt =====
-- `String.prototype.trim`, and `split` at one character, on code units.
use Prim.Native.Nat.{ℕ}
use mathlib.Core.Path.{◌≡◌, refl}
use mathlib.Core.Bool.{Bool, true, false, ◌&&◌, ◌||◌}
use mathlib.Core.List.{List, [], ◌∷◌}
use native.Mathlib.Omega.{arith}
use network_topology_map.Prelude.Tests.{◌==◌, leb, if◌then◌else◌}
use network_topology_map.Prelude.Lists.{All}
use network_topology_map.Prelude.CodeUnits.{Text}

-- the white space and line terminators that `trim` takes off
unfoldable pub is_space : ℕ → Bool
is_space c =
    (leb 9 c && leb c 13)
    || c == 32
    || c == 160
    || c == 0x1680
    || (leb 0x2000 c && leb c 0x200a)
    || c == 0x2028
    || c == 0x2029
    || c == 0x202f
    || c == 0x205f
    || c == 0x3000
    || c == 0xfeff

unfoldable pub trim_start : Text → Text
trim_start [] = []
trim_start (c ∷ s) = if is_space c then trim_start s else c ∷ s

abbrev pub is_empty : Text → Bool
is_empty [] = true
is_empty (c ∷ s) = false

unfoldable pub trim_end : Text → Text
trim_end [] = []
trim_end (c ∷ s) = let r = trim_end s in if is_space c && is_empty r then [] else c ∷ r

unfoldable pub trim : Text → Text
unfolding trim_start trim_end is_space
trim s = trim_end (trim_start s)

abbrev pub extend : ℕ → List Text → List Text
extend c [] = (c ∷ []) ∷ []
extend c (w ∷ ws) = (c ∷ w) ∷ ws

-- `s.split(sep)` for a separator of one code unit
unfoldable pub split : ℕ → Text → List Text
split sep [] = [] ∷ []
split sep (c ∷ s) = if c == sep then [] ∷ split sep s else extend c (split sep s)

abbrev pub IsInk : ℕ → Type 0
IsInk c = is_space c ≡ false

trim_start-ink : (s : Text) → All IsInk s → trim_start s ≡ s
unfolding trim_start
trim_start-ink [] h = refl
trim_start-ink (c ∷ s) h = ground arith

trim_end-ink : (s : Text) → All IsInk s → trim_end s ≡ s
unfolding trim_end
trim_end-ink [] h = refl
trim_end-ink (c ∷ s) h = ground (arith, trim_end-ink s)

-- A text with no white space is its own trim.
pub trim_ink : (s : Text) → All IsInk s → trim s ≡ s
unfolding trim
trim_ink s h = rw (trim_start-ink s h) (trim_end-ink s h)

is_empty-trim_end : (s : Text) → is_empty (trim_end (trim_end s)) ≡ is_empty (trim_end s)
unfolding trim_end
is_empty-trim_end [] = refl
is_empty-trim_end (c ∷ s) = ground (arith, is_empty-trim_end s)

trim_end_idem : (s : Text) → trim_end (trim_end s) ≡ trim_end s
unfolding trim_end
trim_end_idem [] = refl
trim_end_idem (c ∷ s) = ground (arith, trim_end_idem s)

-- what `trim_start` leaves begins with ink, or is empty
abbrev StartsInk : Text → Type 0
StartsInk [] = Unit
StartsInk (c ∷ s) = IsInk c

trim_start-StartsInk : (s : Text) → StartsInk (trim_start s)
unfolding trim_start
trim_start-StartsInk [] = tt
trim_start-StartsInk (c ∷ s) = ground (arith, trim_start-StartsInk s)

trim_start-trim_end : (s : Text) → StartsInk s → trim_start (trim_end s) ≡ trim_end s
unfolding trim_start trim_end
trim_start-trim_end [] h = refl
trim_start-trim_end (c ∷ s) h = ground arith

pub trim_idem : (s : Text) → trim (trim s) ≡ trim s
unfolding trim
trim_idem s =
    rw (trim_start-trim_end (trim_start s) (trim_start-StartsInk s)) (trim_end_idem (trim_start s))
