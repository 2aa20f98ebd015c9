-- ===== src/Generator/Writing.antt =====
-- A run of the generator as a script of writes, and what a script leaves.
use network_topology_map.Prelude.{
  ℕ, ◌≡◌, ◌∙◌, sym, refl, ap, Bool, true, false, not, ◌&&◌, Option, none, some, List, [], ◌∷◌, Text,
  text_eq, text_eq_iff, text_eq_refl, any, Bool-cases, Option-cases, is_some, inl, inr, arith, All,
}
use network_topology_map.Generator.{
  Files, Stop, Generation, go_on, stop, put_file, check_file, write_or_check, then_go,
}

pub data Script : Type 0 where
  finish : Script
  put : Text → List ℕ → Script → Script
  halt : Stop → Script

unfoldable pub exec : Bool → Script → Files → Generation
exec check_only finish files = go_on files
exec check_only (put path contents s) files =
    then_go (exec check_only s) (write_or_check check_only path contents files)
exec check_only (halt reason) files = stop reason files

abbrev pub append : Script → Script → Script
append finish t = t
append (put path contents s) t = put path contents (append s t)
append (halt reason) t = halt reason

-- The script writes these paths, in this order, or halts before.
abbrev pub Covers : List Text → Script → Type 0
Covers paths finish = paths ≡ []
Covers paths (halt reason) = Unit
Covers [] (put path contents s) = ⊥
Covers (p ∷ paths) (put path contents s) = (p ≡ path) × Covers paths s

abbrev pub is_distinct : List Text → Bool
is_distinct [] = true
is_distinct (p ∷ ps) = not (any (text_eq p) ps) && is_distinct ps

pub then_go_ext :
    (n n' : Files → Generation) (g : Generation)
    → ((f : Files) → n f ≡ n' f)
    → then_go n g ≡ then_go n' g
then_go_ext n n' g h = elim (Option-cases g.stopped) [
  | inl e ↦ rw e (h g.files)
  | inr (reason, e) ↦ rw e refl
]

then_go_assoc :
    (n m : Files → Generation) (files : Files) (stopped : Option Stop)
    → let g : Generation = record { files = files; stopped = stopped } in
      then_go (λ f. then_go n (m f)) g ≡ then_go n (then_go m g)
then_go_assoc n m files none = refl
then_go_assoc n m files (some reason) = refl

pub exec-append :
    (c : Bool) (s t : Script) (f : Files) → exec c (append s t) f ≡ then_go (exec c t) (exec c s f)
unfolding exec
exec-append c finish t f = refl
exec-append c (halt reason) t f = refl
exec-append c (put path contents s) t f =
    then_go_ext (exec c (append s t)) (λ x. then_go (exec c t) (exec c s x))
      (write_or_check c path contents f) (exec-append c s t)
    ∙ (let g = write_or_check c path contents f in
        then_go_assoc (exec c t) (exec c s) g.files g.stopped)

put_file-other :
    (path p : Text) (contents : List ℕ) (f : Files)
    → text_eq p path ≡ false
    → put_file path contents f p ≡ f p
put_file-other path p contents f h = ground (arith, text_eq_iff path p, text_eq_iff p path)

put_file-same :
    (path : Text) (contents : List ℕ) (f : Files) → put_file path contents f path ≡ some contents
put_file-same path contents f = rw (text_eq_refl path) refl

-- A script that writes and does not stop, on distinct paths, leaves other paths as they are.
exec-other :
    (paths : List Text) (s : Script) (f : Files) (p : Text)
    → Covers paths s
    → any (text_eq p) paths ≡ false
    → (exec false s f).files p ≡ f p
unfolding exec write_or_check
exec-other paths finish f p c h = refl
exec-other paths (halt reason) f p c h = refl
exec-other [] (put path contents s) f p c h = absurd c
exec-other (q ∷ paths) (put path contents s) f p (e, c) h =
    exec-other paths s (put_file path contents f) p c (ground arith)
    ∙ put_file-other path p contents f (rw (← e) (ground arith))

write_or_check-good :
    (path : Text) (contents : List ℕ) (f : Files)
    → f path ≡ some contents
    → write_or_check true path contents f ≡ go_on f
unfolding write_or_check
write_or_check-good path contents f h = rw (h, text_eq_refl contents) refl

check_file-found :
    (path : Text) (contents : List ℕ) (o : Option (List ℕ)) (next : Files → Generation) (f : Files)
    → (then_go next (check_file path contents o f)).stopped ≡ none
    → (o ≡ some contents) × ((next f).stopped ≡ none)
check_file-found path contents none next f h = absurd cc
check_file-found path contents (some existing) next f h =
    elim (Bool-cases (text_eq existing contents)) [
      | inl e ↦ (ap (λ (b : List ℕ). some b) ((text_eq_iff existing contents).0 e), rw e at h)
      | inr e ↦ absurd (let k = rw e at h in cc)
    ]

-- A check that goes on has found what it wanted.
write_or_check-found :
    (path : Text) (contents : List ℕ) (next : Files → Generation) (f : Files)
    → (then_go next (write_or_check true path contents f)).stopped ≡ none
    → (f path ≡ some contents) × ((next f).stopped ≡ none)
unfolding write_or_check
write_or_check-found path contents next f h = check_file-found path contents (f path) next f h

-- What a script that was not stopped wrote passes its check.
pub exec-again :
    (paths : List Text) (s : Script) (f : Files)
    → Covers paths s
    → is_distinct paths ≡ true
    → (exec false s f).stopped ≡ none
    → exec true s (exec false s f).files ≡ go_on (exec false s f).files
unfolding exec write_or_check
exec-again paths finish f c d h = refl
exec-again paths (halt reason) f c d h = absurd cc
exec-again [] (put path contents s) f c d h = absurd c
exec-again (q ∷ paths) (put path contents s) f (e, c) d h =
    let f' = put_file path contents f in
    let there =
      exec-other paths s f' path c (rw (← e) (ground arith)) ∙ put_file-same path contents f in
    ap (then_go (exec true s)) (write_or_check-good path contents (exec false s f').files there)
    ∙ exec-again paths s f' c (ground arith) h

put_file-settled :
    (path : Text) (contents : List ℕ) (f g : Files)
    → f path ≡ some contents
    → ((p : Text) → g p ≡ f p)
    → (p : Text) → put_file path contents g p ≡ f p
put_file-settled path contents f g there same p = elim (Bool-cases (text_eq path p)) [
  | inl e ↦ rw (e, ← (text_eq_iff path p).0 e) (sym there)
  | inr e ↦ rw e (same p)
]

-- What the check accepts is what a script writes.
pub exec-settled :
    (s : Script) (f g : Files)
    → ((p : Text) → g p ≡ f p)
    → (exec true s f).stopped ≡ none
    → ((exec false s g).stopped ≡ none) × ((p : Text) → (exec false s g).files p ≡ f p)
unfolding exec write_or_check
exec-settled finish f g same h = (refl, same)
exec-settled (halt reason) f g same h = absurd cc
exec-settled (put path contents s) f g same h =
    let (there, rest) = write_or_check-found path contents (exec true s) f h in
    exec-settled s f (put_file path contents g) (put_file-settled path contents f g there same) rest

-- The check accepts only if every file is there.
pub exec_complete :
    (paths : List Text) (s : Script) (f : Files)
    → Covers paths s
    → (exec true s f).stopped ≡ none
    → All (λ p. is_some (f p) ≡ true) paths
unfolding exec write_or_check
exec_complete paths finish f c h = rw c tt
exec_complete paths (halt reason) f c h = absurd cc
exec_complete [] (put path contents s) f c h = absurd c
exec_complete (q ∷ paths) (put path contents s) f (e, c) h =
    let (there, rest) = write_or_check-found path contents (exec true s) f h in
    (rw (e, there) refl, exec_complete paths s f c rest)
