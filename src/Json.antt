-- ===== src/Json.antt =====
-- The values that JSON.parse returns, as the frontend tests them (`typeof`, Array.isArray). A number
-- is a whole number, or any other with the text that String() gives it. Text is code units.
use network_topology_map.Prelude.{
  ℕ, ◌-◌, ◌^◌, Bool, Option, none, some, List, [], ◌∷◌, Text, text_eq, leb, if◌then◌else◌,
}
use network_topology_map.Prelude.Int.{ℤ, pos}

pub data Number : Type 0 where
  whole : ℤ → Number
  other : Text → Number

mutual
  pub data Json : Type 0 where
    null : Json
    bool : Bool → Json
    number : Number → Json
    string : Text → Json
    array : Items → Json
    object : Fields → Json

  pub data Items : Type 0 where
    nil : Items
    item : Json → Items → Items

  pub data Fields : Type 0 where
    end : Fields
    field : Text → Json → Fields → Fields

abbrev pub items : Items → List Json
items nil = []
items (item v vs) = v ∷ items vs

-- A property of an object; `none` is `undefined`. JSON.parse keeps the last of equal keys, so the
-- fields stand here as it leaves them, and the first match is the only one.
unfoldable pub property : Text → Fields → Option Json
property k end = none
property k (field j v fs) = if text_eq j k then some v else property k fs

-- `value.k`, where the value is an object or an array; an array has no such property.
abbrev pub get : Text → Json → Option Json
get k (object fs) = property k fs
get k _ = none

-- `typeof v === "string"`
abbrev pub as_string : Option Json → Option Text
as_string (some (string t)) = some t
as_string _ = none

-- Number.isSafeInteger(n) && n >= 0
abbrev pub as_revision : Option Json → Option ℕ
as_revision (some (number (whole (pos n)))) = if leb n (2 ^ 53 - 1) then some n else none
as_revision _ = none
