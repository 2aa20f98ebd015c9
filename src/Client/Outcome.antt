-- ===== src/Client/Outcome.antt =====
-- frontend/src/api/client.ts: `request`, after the answer of fetch.
use network_topology_map.Prelude.{ℕ, Bool, Option, none, some, Text, ◌==◌, if◌then◌else◌}
use network_topology_map.Json.{Json}
use network_topology_map.Errors.{ApiErrorInfo, api_error_info}

pub record ApiError : Type 0 where
  pub status : ℕ
  pub code : Text
  pub message : Text

-- An answer of fetch. `json` is `none` where `response.json()` rejects.
pub record Response : Type 0 where
  pub ok : Bool
  pub status : ℕ
  pub json : Option Json

-- What fetch settles with: an answer, or a cause of type `C`.
pub data Reply (C : Type 0) : Type 0 where
  answered : Response → Reply C
  unreachable : C → Reply C

-- What `request` settles with. `resolved none` is `undefined`.
pub data Outcome (C : Type 0) : Type 0 where
  resolved : Option Json → Outcome C
  refused : ApiError → Outcome C
  no_json : Outcome C
  failed : C → Outcome C

abbrev pub api_error : ℕ → ApiErrorInfo → ApiError
api_error status error = record { status = status; code = error.code; message = error.message }

abbrev pub read_json : {C : Type 0} → Option Json → Outcome C
read_json none = no_json
read_json (some value) = resolved (some value)

unfoldable pub settle_response : {C : Type 0} → Response → Outcome C
settle_response response =
    if response.ok
    then (if response.status == 204 then resolved none else read_json response.json)
    else refused (api_error response.status (api_error_info response.json response.status))

unfoldable pub settle_reply : {C : Type 0} → Reply C → Outcome C
unfolding settle_response
settle_reply (answered response) = settle_response response
settle_reply (unreachable cause) = failed cause
