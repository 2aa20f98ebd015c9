-- ===== src/Prelude/CodeUnits.antt =====
-- Text as the list of its UTF-16 code units, which is how the source compares, slices and walks
-- a string. `codes` gives the units of a literal (all literals of the model are in the BMP).
use Prim.Native.Nat.{ℕ}
use Prim.Native.Char.{code}
use Prim.Native.String.{String}
use mathlib.Core.Path.{◌≡◌, refl}
use mathlib.Core.Logic.{◌↔◌, ◌≢◌}
use mathlib.Core.Bool.{Bool, true, false, ◌&&◌, ◌||◌, not}
use mathlib.Core.Option.{Option, none, some}
use mathlib.Core.List.{List, [], ◌∷◌, ◌++◌}
use native.Mathlib.Omega.{arith}
use network_topology_map.Prelude.Tests.{◌==◌}
use network_topology_map.Prelude.Lists.{every}

abbrev pub Text : Type 0
Text = List ℕ

abbrev pub codes : String → Text
codes String.[] = []
codes (String.◌∷◌ c s) = code c ∷ codes s

-- `a === b` on strings
unfoldable pub text_eq : Text → Text → Bool
text_eq [] [] = true
text_eq [] (d ∷ t) = false
text_eq (c ∷ s) [] = false
text_eq (c ∷ s) (d ∷ t) = c == d && text_eq s t

-- `a === b` where either may be null
abbrev pub id_eq : Option Text → Option Text → Bool
id_eq none none = true
id_eq none (some t) = false
id_eq (some s) none = false
id_eq (some s) (some t) = text_eq s t

pub text_eq_iff : (s t : Text) → (text_eq s t ≡ true) ↔ (s ≡ t)
unfolding text_eq
text_eq_iff [] [] = ground arith
text_eq_iff [] (d ∷ t) = ground arith
text_eq_iff (c ∷ s) [] = ground arith
text_eq_iff (c ∷ s) (d ∷ t) = ground (arith, text_eq_iff s t)

pub text_eq_refl : (s : Text) → text_eq s s ≡ true
text_eq_refl s = (text_eq_iff s s).1 refl

-- `s.startsWith(p)`
unfoldable pub starts_with : Text → Text → Bool
starts_with [] s = true
starts_with (c ∷ p) [] = false
starts_with (c ∷ p) (d ∷ s) = c == d && starts_with p s

-- `s.includes(p)`
unfoldable pub includes : Text → Text → Bool
unfolding starts_with
includes p [] = starts_with p []
includes p (c ∷ s) = starts_with p (c ∷ s) || includes p s

pub id_eq_iff : (a b : Option Text) → (id_eq a b ≡ true) ↔ (a ≡ b)
id_eq_iff none none = ground arith
id_eq_iff none (some t) = ground arith
id_eq_iff (some s) none = ground arith
id_eq_iff (some s) (some t) = ground (arith, text_eq_iff s t)

pub id_eq_refl : (a : Option Text) → id_eq a a ≡ true
id_eq_refl a = (id_eq_iff a a).1 refl

pub id_eq-ne : (a b : Option Text) → id_eq a b ≡ false → a ≢ b
id_eq-ne a b h e = cc (h, (id_eq_iff a b).1 e)

-- no unit of the text is this one
abbrev pub HasNo : ℕ → Text → Type 0
HasNo c s = every (λ d. not (d == c)) s ≡ true

-- The first separator splits a text in one way.
pub first_separator :
    (sep : ℕ) (s s' r r' : Text)
    → HasNo sep s
    → HasNo sep s'
    → s ++ (sep ∷ r) ≡ s' ++ (sep ∷ r')
    → (s ≡ s') × (r ≡ r')
first_separator sep [] [] r r' h h' e = (refl, cc)
first_separator sep [] (c ∷ s') r r' h h' e = ground arith
first_separator sep (c ∷ s) [] r r' h h' e = ground arith
first_separator sep (c ∷ s) (c' ∷ s') r r' h h' e =
    let (p, q) = first_separator sep s s' r r' (ground arith) (ground arith) (cc) in (cc, q)

pub cancel_front : (p s s' : Text) → p ++ s ≡ p ++ s' → s ≡ s'
cancel_front [] s s' e = e
cancel_front (c ∷ p) s s' e = cancel_front p s s' (cc)
