-- ===== src/Client/Endpoints.antt =====
-- frontend/src/api/client.ts: `api`, the requests. `base` is API_BASE. A body is the object that
-- JSON.stringify prints, which is a function of the language.
use network_topology_map.Prelude.{ℕ, Bool, false, Option, none, some, ◌∷◌, ◌++◌, Text, codes}
use network_topology_map.Types.{NodePayload, GroupPayload, LinkPayload, LinkKind, MonitorPayload}
use network_topology_map.Monitor.Decimal.{to_string}
use network_topology_map.Client.Uri.{encode_uri_component}

pub data Method : Type 0 where
  get post patch delete : Method

-- The bodies. In a position, `none` for the group is a field that is left out, `some none` is null.
pub data Body (N : Type 0) : Type 0 where
  no_body : Body N
  node_body : NodePayload N → Body N
  group_body : GroupPayload N → Body N
  -- a patch of a group's place
  group_position_body : N → N → Body N
  link_body : LinkPayload → Body N
  link_kind_body : LinkKind → Body N
  position_body : N → N → Option (Option Text) → Body N
  viewport_body : N → N → N → Body N
  monitor_body : MonitorPayload → Body N

pub record HttpRequest (N : Type 0) : Type 0 where
  pub method : Method
  pub path : Text
  pub body : Body N
  pub keepalive : Bool

abbrev pub slash : ℕ
slash = b'/'

-- "/name"
abbrev pub at_root : Text → Text
at_root name = slash ∷ name

-- `/${name}/${id}`
abbrev pub at_item : Text → Text → Text
at_item name id = slash ∷ name ++ (slash ∷ id)

-- `/${name}/${id}/${part}`
abbrev pub at_part : Text → Text → Text → Text
at_part name id part = slash ∷ name ++ (slash ∷ id ++ (slash ∷ part))

-- `/${name}/${id}/${part}/${sub}`
abbrev pub at_sub : Text → Text → Text → Text → Text
at_sub name id part sub = slash ∷ name ++ (slash ∷ id ++ (slash ∷ part ++ (slash ∷ sub)))

-- The calls of `api` with their arguments.
pub data Call (N : Type 0) : Type 0 where
  list_maps : Call N
  get_snapshot : Text → Call N
  create_node : Text → NodePayload N → Call N
  create_group : Text → GroupPayload N → Call N
  patch_group : Text → GroupPayload N → Call N
  patch_group_position : Text → N → N → Call N
  delete_group : Text → Call N
  patch_node : Text → NodePayload N → Call N
  delete_node : Text → Call N
  create_link : Text → LinkPayload → Call N
  patch_link : Text → LinkKind → Call N
  delete_link : Text → Call N
  patch_node_position : Text → N → N → Option (Option Text) → Call N
  patch_viewport : Text → N → N → N → Bool → Call N
  create_monitor : Text → MonitorPayload → Call N
  patch_monitor : Text → MonitorPayload → Call N
  delete_monitor : Text → Call N
  run_monitor : Text → Call N
  get_monitor_run : Text → Text → Call N

module _ {N : Type 0} where
  -- a request with the defaults of `request`
  abbrev ask : Method → Text → Body N → HttpRequest N
  ask method path body = record { method = method; path = path; body = body; keepalive = false }

  -- What the call passes to `request`.
  unfoldable pub http_request : Call N → HttpRequest N
  http_request list_maps = ask get (at_root (codes "maps")) no_body
  http_request (get_snapshot id) = ask get (at_part (codes "maps") id (codes "snapshot")) no_body
  http_request (create_node id p) =
      ask post (at_part (codes "maps") id (codes "nodes")) (node_body p)
  http_request (create_group id p) =
      ask post (at_part (codes "maps") id (codes "groups")) (group_body p)
  http_request (patch_group id p) = ask patch (at_item (codes "groups") id) (group_body p)
  http_request (patch_group_position id x y) =
      ask patch (at_item (codes "groups") id) (group_position_body x y)
  http_request (delete_group id) = ask delete (at_item (codes "groups") id) no_body
  http_request (patch_node id p) = ask patch (at_item (codes "nodes") id) (node_body p)
  http_request (delete_node id) = ask delete (at_item (codes "nodes") id) no_body
  http_request (create_link id p) =
      ask post (at_part (codes "maps") id (codes "links")) (link_body p)
  http_request (patch_link id k) = ask patch (at_item (codes "links") id) (link_kind_body k)
  http_request (delete_link id) = ask delete (at_item (codes "links") id) no_body
  http_request (patch_node_position id x y g) =
      ask patch (at_part (codes "nodes") id (codes "position")) (position_body x y g)
  http_request (patch_viewport id x y z keepalive) =
      record (ask patch (at_item (codes "maps") id) (viewport_body x y z)) { keepalive = keepalive }
  http_request (create_monitor id p) =
      ask post (at_part (codes "nodes") id (codes "monitors")) (monitor_body p)
  http_request (patch_monitor id p) = ask patch (at_item (codes "monitors") id) (monitor_body p)
  http_request (delete_monitor id) = ask delete (at_item (codes "monitors") id) no_body
  http_request (run_monitor id) = ask post (at_part (codes "monitors") id (codes "run")) no_body
  http_request (get_monitor_run id run_id) =
      ask get (at_sub (codes "monitors") id (codes "runs") run_id) no_body

-- `api.eventsUrl`: the map and the revision after which events are wanted; `none` where a surrogate
-- stands alone, and encodeURIComponent throws
abbrev events_path : Text → Option Text → Option Text → Option Text
events_path base none after = none
events_path base (some map) none = none
events_path base (some map) (some after) =
    some (base ++ (codes "/maps/" ++ (map ++ (codes "/events?after=" ++ after))))

unfoldable pub events_url : Text → Text → ℕ → Option Text
events_url base map_id after =
    events_path base (encode_uri_component map_id) (encode_uri_component (to_string after))
