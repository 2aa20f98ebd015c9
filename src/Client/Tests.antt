-- ===== src/Client/Tests.antt =====
-- Requests and answers of the client, and the theorems at some.
use network_topology_map.Prelude.{
  ℕ, ◌≡◌, ◌⊎◌, refl, false, some, none, [], ◌∷◌, Text, codes, All, arith,
}
use network_topology_map.Client.Uri.{encode_uri_component}
use network_topology_map.Client.Utf8.{IsUnit}
use network_topology_map.Monitor.Decimal.{to_string}
use network_topology_map.Client.Endpoints.{Call, get_monitor_run, http_request, events_url}
use network_topology_map.Client.Outcome.{Response, Outcome, answered, settle_reply}
use network_topology_map.Client.Routes.{route, route-http_request}
use network_topology_map.Client.Events.{events_url-injective}
use network_topology_map.Client.Rejecting.{IsRefused, IsEmptied, IsRead, settle_reply_lem}

-- "é", "/" and a pair of surrogates
abbrev odd : Text
odd = 233 ∷ 47 ∷ 55357 ∷ 56832 ∷ []

encoded_odd : encode_uri_component odd ≡ some (codes "%C3%A9%2F%F0%9F%98%80")
unfolding encode_uri_component
encoded_odd = refl

abbrev lone : Text
lone = 55357 ∷ 47 ∷ []

unpaired : encode_uri_component lone ≡ none
unfolding encode_uri_component
unpaired = refl

odd-units : All IsUnit odd
odd-units = (ground arith, (ground arith, (ground arith, (ground arith, tt))))

abbrev revision : ℕ
revision = 42

abbrev stream : Text
stream = codes "/api/v1/maps/%C3%A9%2F%F0%9F%98%80/events?after=42"

stream_of : events_url (codes "/api/v1") odd 42 ≡ some stream
unfolding events_url encode_uri_component to_string
stream_of = refl

events_url-injective_example : (odd ≡ odd) × (revision ≡ revision)
events_url-injective_example =
    events_url-injective (codes "/api/v1") odd odd revision revision stream odd-units odd-units
      stream_of stream_of

abbrev poll : Call ℕ
poll = get_monitor_run (codes "m1") (codes "r7")

poll_path : (http_request poll).path ≡ codes "/monitors/m1/runs/r7"
unfolding http_request
poll_path = refl

route-http_request_example : route (http_request poll) ≡ some poll
route-http_request_example = route-http_request poll (refl, refl)

-- a gateway's page, which is not JSON
abbrev gateway : Response
gateway = record { ok = false; status = 502; json = none }

settle_reply_lem_example :
    let o : Outcome ℕ = settle_reply (answered gateway) in
    IsRefused gateway o ⊎ IsEmptied gateway o ⊎ IsRead gateway o
settle_reply_lem_example = settle_reply_lem ℕ gateway
