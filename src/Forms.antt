-- ===== src/Forms.antt =====
-- frontend/src/components: the forms of NodeInspector.tsx, LinkInspector.tsx and GroupInspector.tsx.
-- A form is its draft with what its effects last saw; the record it edits comes with every render,
-- and the key that resets it is the one that App.tsx computes. `D` is the type of drafts.
pub mod Node
pub mod Link
pub mod Group
pub mod Check
mod Typing
mod Saved
mod Joining
mod Reverting
mod Submitting
mod Tests
use network_topology_map.Prelude.{
  Option, none, some, Text, text_eq, text_eq_refl, ◌≡◌, refl, trim, is_empty, if◌then◌else◌,
}

pub record Form (D : Type 0) : Type 0 where
  pub draft : D
  -- the key of the effect on `resetKey`
  pub reset_key : Text

module _ {D : Type 0} where
  -- `useState(() => initial)`, and the effect on `resetKey` after the first render
  abbrev pub mount : Text → D → Form D
  mount key initial = record { draft = initial; reset_key = key }

  -- the effect on `resetKey` after another render
  abbrev pub reset : Text → D → Form D → Form D
  reset key initial form = if text_eq key form.reset_key then form else mount key initial

  pub reset-same_key :
      (key : Text) (initial : D) (form : Form D)
      → key ≡ form.reset_key
      → reset key initial form ≡ form
  reset-same_key key initial form h = rw (h, text_eq_refl form.reset_key) refl

  -- `update`, given the assignment of its field
  abbrev pub update : (D → D) → Form D → Form D
  update assign form = record form { draft = assign form.draft }

-- `text || null`
abbrev pub non_empty : Text → Option Text
non_empty text = if is_empty text then none else some text

-- `text?.trim() || null`
abbrev pub trimmed : Option Text → Option Text
trimmed none = none
trimmed (some text) = non_empty (trim text)
