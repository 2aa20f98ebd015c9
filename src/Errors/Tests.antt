-- ===== src/Errors/Tests.antt =====
-- Bodies of failed requests, and the theorem at one.
use network_topology_map.Prelude.{◌≡◌, refl, some, none, codes, text_eq}
use network_topology_map.Prelude.Int.{pos}
use network_topology_map.Json.{
  Json, string, number, whole, array, object, nil, item, end, field, property,
}
use network_topology_map.Monitor.Decimal.{to_string}
use network_topology_map.Errors.{
  api_error_info, is_record, error_branch, validation_message, detail_messages, detail_message,
}

-- What FastAPI sends when a request does not validate.
abbrev fast_api : Json
fast_api = object (
    field (codes "detail")
      (array (
        item
          (object (
            field (codes "loc")
              (array (
                item (string (codes "body"))
                  (item (string (codes "ports")) (item (number (whole (pos 2))) nil))))
              (field (codes "msg") (string (codes "too large")) end)))
          nil))
      end)

abbrev envelope : Json
envelope = object (
    field (codes "error")
      (object (
        field (codes "code") (string (codes "duplicate_link"))
          (field (codes "message") (string (codes "Link exists")) end)))
      end)

shown :
    (api_error_info (some fast_api) 422
      ≡ record { code = codes "validation_error"; message = codes "ports → 2: too large" })
    × (api_error_info (some envelope) 409
        ≡ record { code = codes "duplicate_link"; message = codes "Link exists" })
    × (api_error_info none 502 ≡ record {
      code = codes "request_failed";
      message = codes "Request failed with status 502";
    })
unfolding api_error_info is_record error_branch validation_message detail_messages detail_message
    property text_eq to_string
shown = (refl, refl, refl)
