-- ===== src/Generator/Scripting.antt =====
-- Loops and single writes of the generator as scripts.
use network_topology_map.Prelude.{
  ℕ, ◌≡◌, ◌∙◌, sym, refl, ap, Bool, none, some, Option, List, [], ◌∷◌, ◌++◌, Text, All,
}
use network_topology_map.Generator.{Files, Stop, Generation, go_on, write_or_check, then_go, each}
use network_topology_map.Generator.Writing.{
  Script, finish, put, halt, exec, append, exec-append, Covers, then_go_ext,
}

pub All-front : (P : Text → Type 0) (xs ys : List Text) → All P (xs ++ ys) → All P xs
All-front P [] ys h = tt
All-front P (x ∷ xs) ys (h, hs) = (h, All-front P xs ys hs)

pub Covers-append :
    (ps qs : List Text) (s t : Script) → Covers ps s → Covers qs t → Covers (ps ++ qs) (append s t)
Covers-append ps qs finish t c d = rw c d
Covers-append ps qs (halt reason) t c d = tt
Covers-append [] qs (put path contents s) t c d = absurd c
Covers-append (p ∷ ps) qs (put path contents s) t (e, c) d = (e, Covers-append ps qs s t c d)

then_go_done : (g : Generation) → then_go go_on g ≡ g
then_go_done g = done g.files g.stopped
  where
    done :
        (files : Files) (stopped : Option Stop)
        → then_go go_on (record { files = files; stopped = stopped })
          ≡ record { files = files; stopped = stopped }
    done files none = refl
    done files (some reason) = refl

-- one write
abbrev pub single : Text → List ℕ → Script
single path contents = put path contents finish

pub exec-single :
    (c : Bool) (path : Text) (contents : List ℕ) (f : Files)
    → exec c (single path contents) f ≡ write_or_check c path contents f
unfolding exec
exec-single c path contents f = then_go_done (write_or_check c path contents f)

pub then_go-exec :
    (c : Bool) (next : Files → Generation) (s t : Script)
    → ((f : Files) → next f ≡ exec c t f)
    → (g : Generation) (f : Files) → g ≡ exec c s f
    → then_go next g ≡ exec c (append s t) f
then_go-exec c next s t h g f e =
    then_go_ext next (exec c t) g h ∙ ap (then_go (exec c t)) e ∙ sym (exec-append c s t f)

module _ {A : Type 0} where
  abbrev pub script_each : (A → Script) → List A → Script
  script_each script [] = finish
  script_each script (a ∷ rest) = append (script a) (script_each script rest)

  abbrev pub paths_each : (A → List Text) → List A → List Text
  paths_each paths [] = []
  paths_each paths (a ∷ rest) = paths a ++ paths_each paths rest

  pub exec-each :
      (c : Bool) (body : A → Files → Generation) (script : A → Script)
      → ((a : A) (f : Files) → body a f ≡ exec c (script a) f)
      → (xs : List A) (f : Files) → each body xs f ≡ exec c (script_each script xs) f
  unfolding exec
  exec-each c body script h [] f = refl
  exec-each c body script h (a ∷ rest) f =
      then_go_ext (each body rest) (exec c (script_each script rest)) (body a f)
        (exec-each c body script h rest)
      ∙ ap (then_go (exec c (script_each script rest))) (h a f)
      ∙ sym (exec-append c (script a) (script_each script rest) f)

  pub Covers-each :
      (paths : A → List Text) (script : A → Script)
      → ((a : A) → Covers (paths a) (script a))
      → (xs : List A) → Covers (paths_each paths xs) (script_each script xs)
  Covers-each paths script h [] = refl
  Covers-each paths script h (a ∷ rest) =
      Covers-append (paths a) (paths_each paths rest) (script a) (script_each script rest) (h a)
        (Covers-each paths script h rest)
