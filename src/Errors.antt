-- ===== src/Errors.antt =====
-- frontend/src/api/errors.ts: the short message that a failed request shows. A body that is not
-- JSON is `none`, as the client leaves it undefined.
pub mod Messages
mod Tests
use network_topology_map.Prelude.{
  ℕ, suc, Bool, true, false, not, Option, none, some, List, [], ◌∷◌, ◌++◌, Text, codes, text_eq,
  get_or, take, is_empty, if◌then◌else◌,
}
use network_topology_map.Prelude.Int.{ℤ, pos, negsuc}
use network_topology_map.Json.{
  Json, null, bool, number, string, array, object, Number, whole, other, Items, items, get,
  as_string,
}
use network_topology_map.Monitor.Decimal.{to_string}

pub record ApiErrorInfo : Type 0 where
  pub code : Text
  pub message : Text

-- `typeof value === "object" && value !== null`; arrays are objects
unfoldable pub is_record : Json → Bool
is_record (object fs) = true
is_record (array vs) = true
is_record _ = false

-- the items of an array; `none` for anything else
abbrev pub as_array : Option Json → Option (List Json)
as_array (some (array vs)) = some (items vs)
as_array _ = none

-- `a ?? b` where `b` may be null too
abbrev pub or_else {ℓ} : {A : Type ℓ} → Option A → Option A → Option A
or_else none o = o
or_else (some a) o = some a

-- what join() writes for a number
abbrev pub number_text : Number → Text
number_text (whole (pos n)) = to_string n
number_text (whole (negsuc n)) = b'-' ∷ to_string (suc n)
number_text (other t) = t

-- the callback of `filter`: a part of a location that is shown, as text
abbrev pub location_part : Json → Option Text
location_part (string t) = if text_eq t (codes "body") then none else some t
location_part (number n) = some (number_text n)
location_part _ = none

unfoldable pub location_parts : List Json → List Text
location_parts [] = []
location_parts (v ∷ vs) = elim (location_part v) [
  | none ↦ location_parts vs
  | some t ↦ t ∷ location_parts vs
]

-- `parts.join(sep)`
unfoldable pub join : Text → List Text → Text
join sep [] = []
join sep (t ∷ []) = t
join sep (t ∷ u ∷ ts) = t ++ (sep ++ join sep (u ∷ ts))

unfoldable pub location_of : Option (List Json) → Text
unfolding location_parts join
location_of none = []
location_of (some vs) = join (codes " → ") (location_parts vs)

-- an empty text is falsy
abbrev pub filled : Option Text → Option Text
filled none = none
filled (some t) = if is_empty t then none else some t

abbrev pub with_location : Text → Text → Text
with_location location message =
    if is_empty location then message else location ++ (codes ": " ++ message)

abbrev pub located : Json → Option Text → Option Text
located item none = none
located item (some message) =
    some (with_location (location_of (as_array (get (codes "loc") item))) message)

-- `item.message` if that is a text, else `item.msg` if that is one
abbrev pub message_of : Json → Option Text
message_of item =
    or_else (as_string (get (codes "message") item)) (as_string (get (codes "msg") item))

-- the callback of `flatMap`
unfoldable pub detail_message : Json → Option Text
unfolding location_of is_record
detail_message item = if not (is_record item) then none else located item (filled (message_of item))

unfoldable pub detail_messages : List Json → List Text
detail_messages [] = []
detail_messages (v ∷ vs) = elim (detail_message v) [
  | none ↦ detail_messages vs
  | some t ↦ t ∷ detail_messages vs
]

abbrev pub joined : List Text → Option Text
joined [] = none
joined (t ∷ ts) = some (join (codes "; ") (t ∷ ts))

unfoldable pub validation_message : List Json → Option Text
validation_message detail = joined (detail_messages (take 3 detail))

abbrev pub info : Text → Text → ApiErrorInfo
info code message = record { code = code; message = message }

-- `Array.isArray(details)`, and a message that is not empty
abbrev pub details_message : Option Json → Option Text
details_message v = elim (as_array v) [ none ↦ none | some vs ↦ filled (validation_message vs) ]

abbrev pub from_text : Text → Option Text → Option ApiErrorInfo
from_text code none = none
from_text code (some message) = some (info code message)

-- the branch on `payload.error`
unfoldable pub error_branch : Json → Option ApiErrorInfo
error_branch error =
    if is_record error
    then or_else
        (from_text (get_or (as_string (get (codes "code") error)) (codes "validation_error"))
          (details_message (get (codes "details") error)))
        (from_text (get_or (as_string (get (codes "code") error)) (codes "request_failed"))
          (as_string (get (codes "message") error)))
    else none

abbrev pub on_error : Option Json → Option ApiErrorInfo
on_error none = none
on_error (some error) = error_branch error

-- the branches on `payload.detail`
abbrev pub on_detail : Option Json → Option ApiErrorInfo
on_detail detail =
    or_else (from_text (codes "validation_error") (as_string detail))
      (from_text (codes "validation_error") (details_message detail))

abbrev pub on_payload : Option Json → Option ApiErrorInfo
on_payload none = none
on_payload (some payload) =
    if is_record payload
    then or_else (on_error (get (codes "error") payload)) (on_detail (get (codes "detail") payload))
    else none

unfoldable pub api_error_info : Option Json → ℕ → ApiErrorInfo
api_error_info payload status =
    get_or (on_payload payload)
      (info (codes "request_failed") (codes "Request failed with status " ++ to_string status))
