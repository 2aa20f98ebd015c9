-- ===== src/Client/Routes.antt =====
-- The routes of the API, as a server reads them: by the method and the segments of the path. It is
-- written down independently of the client, and tells which call a request is.
use network_topology_map.Prelude.{
  HasNo, ◌≡◌, refl, ap, ◌∙◌, Bool, Option, none, some, List, [], ◌∷◌, ◌++◌, Text, codes, text_eq,
  split, if◌then◌else◌, arith,
}
use network_topology_map.Client.Endpoints.{
  Method, get, post, patch, delete, Body, no_body, node_body, group_body, group_position_body,
  link_body, link_kind_body, position_body, viewport_body, monitor_body, HttpRequest, slash,
  at_root, at_item, at_part, at_sub, Call, http_request, list_maps, get_snapshot, create_node,
  create_group, patch_group, patch_group_position, delete_group, patch_node, delete_node,
  create_link, patch_link, delete_link, patch_node_position, patch_viewport, create_monitor,
  patch_monitor, delete_monitor, run_monitor, get_monitor_run,
}

pub data Resource : Type 0 where
  maps groups nodes links monitors nothing : Resource

unfoldable pub resource : Text → Resource
unfolding text_eq
resource name =
    if text_eq name (codes "maps")
    then maps
    else if text_eq name (codes "groups")
    then groups
    else if text_eq name (codes "nodes")
    then nodes
    else if text_eq name (codes "links")
    then links
    else if text_eq name (codes "monitors")
    then monitors
    else nothing

module _ {N : Type 0} where
  -- /{resource}/{id}
  abbrev route_item : Method → Resource → Text → Body N → Bool → Option (Call N)
  route_item patch maps id (viewport_body x y z) keepalive =
      some (patch_viewport id x y z keepalive)
  route_item patch groups id (group_body p) keepalive = some (patch_group id p)
  route_item patch groups id (group_position_body x y) keepalive =
      some (patch_group_position id x y)
  route_item delete groups id no_body keepalive = some (delete_group id)
  route_item patch nodes id (node_body p) keepalive = some (patch_node id p)
  route_item delete nodes id no_body keepalive = some (delete_node id)
  route_item patch links id (link_kind_body k) keepalive = some (patch_link id k)
  route_item delete links id no_body keepalive = some (delete_link id)
  route_item patch monitors id (monitor_body p) keepalive = some (patch_monitor id p)
  route_item delete monitors id no_body keepalive = some (delete_monitor id)
  route_item method r id body keepalive = none

  -- /maps/{id}/{part}
  abbrev route_map_part : Method → Text → Resource → Text → Body N → Option (Call N)
  route_map_part post id nodes part (node_body p) = some (create_node id p)
  route_map_part post id groups part (group_body p) = some (create_group id p)
  route_map_part post id links part (link_body p) = some (create_link id p)
  route_map_part get id nothing part no_body =
      if text_eq part (codes "snapshot") then some (get_snapshot id) else none
  route_map_part method id r part body = none

  -- /nodes/{id}/{part}
  abbrev route_node_part : Method → Text → Resource → Text → Body N → Option (Call N)
  route_node_part post id monitors part (monitor_body p) = some (create_monitor id p)
  route_node_part patch id nothing part (position_body x y g) =
      if text_eq part (codes "position") then some (patch_node_position id x y g) else none
  route_node_part method id r part body = none

  -- /monitors/{id}/{part}
  abbrev route_monitor_part : Method → Text → Text → Body N → Option (Call N)
  route_monitor_part post id part no_body =
      if text_eq part (codes "run") then some (run_monitor id) else none
  route_monitor_part method id part body = none

  abbrev route_part : Method → Resource → Text → Text → Body N → Option (Call N)
  route_part method maps id part body = route_map_part method id (resource part) part body
  route_part method nodes id part body = route_node_part method id (resource part) part body
  route_part method monitors id part body = route_monitor_part method id part body
  route_part method r id part body = none

  -- /monitors/{id}/runs/{run_id}
  abbrev route_sub : Method → Resource → Text → Text → Text → Body N → Option (Call N)
  route_sub get monitors id part run_id no_body =
      if text_eq part (codes "runs") then some (get_monitor_run id run_id) else none
  route_sub method r id part sub body = none

  abbrev route_root : Method → Resource → Body N → Option (Call N)
  route_root get maps no_body = some list_maps
  route_root method r body = none

  abbrev route_segments : HttpRequest N → List Text → Option (Call N)
  route_segments r ([] ∷ name ∷ []) = route_root r.method (resource name) r.body
  route_segments r ([] ∷ name ∷ id ∷ []) = route_item r.method (resource name) id r.body r.keepalive
  route_segments r ([] ∷ name ∷ id ∷ part ∷ []) = route_part r.method (resource name) id part r.body
  route_segments r ([] ∷ name ∷ id ∷ part ∷ sub ∷ []) =
      route_sub r.method (resource name) id part sub r.body
  route_segments r segments = none

  pub route : HttpRequest N → Option (Call N)
  unfolding resource
  route r = route_segments r (split slash r.path)

abbrev pub IsSegment : Text → Type 0
IsSegment = HasNo slash

split-segment : (s r : Text) → IsSegment s → split slash (s ++ (slash ∷ r)) ≡ s ∷ split slash r
unfolding split
split-segment [] r h = refl
split-segment (c ∷ s) r h = ground (arith, split-segment s r)

split-last : (s : Text) → IsSegment s → split slash s ≡ s ∷ []
unfolding split
split-last [] h = refl
split-last (c ∷ s) h = ground (arith, split-last s)

split_root : (name : Text) → IsSegment name → split slash (at_root name) ≡ [] ∷ name ∷ []
split_root name n = split-segment [] name refl ∙ ap (λ (w : List Text). [] ∷ w) (split-last name n)

split_item :
    (name id : Text)
    → IsSegment name
    → IsSegment id
    → split slash (at_item name id) ≡ [] ∷ name ∷ id ∷ []
split_item name id n i =
    split-segment [] _ refl
    ∙ ap (λ (w : List Text). [] ∷ w) (split-segment name id n)
    ∙ ap (λ (w : List Text). [] ∷ name ∷ w) (split-last id i)

split_part :
    (name id part : Text)
    → IsSegment name
    → IsSegment id
    → IsSegment part
    → split slash (at_part name id part) ≡ [] ∷ name ∷ id ∷ part ∷ []
split_part name id part n i p =
    split-segment [] _ refl
    ∙ ap (λ (w : List Text). [] ∷ w) (split-segment name _ n)
    ∙ ap (λ (w : List Text). [] ∷ name ∷ w) (split-segment id part i)
    ∙ ap (λ (w : List Text). [] ∷ name ∷ id ∷ w) (split-last part p)

split_sub :
    (name id part sub : Text)
    → IsSegment name
    → IsSegment id
    → IsSegment part
    → IsSegment sub
    → split slash (at_sub name id part sub) ≡ [] ∷ name ∷ id ∷ part ∷ sub ∷ []
split_sub name id part sub n i p s =
    split-segment [] _ refl
    ∙ ap (λ (w : List Text). [] ∷ w) (split-segment name _ n)
    ∙ ap (λ (w : List Text). [] ∷ name ∷ w) (split-segment id _ i)
    ∙ ap (λ (w : List Text). [] ∷ name ∷ id ∷ w) (split-segment part sub p)
    ∙ ap (λ (w : List Text). [] ∷ name ∷ id ∷ part ∷ w) (split-last sub s)

module _ {N : Type 0} where
  -- The identifiers of the call have no slash.
  abbrev pub IsRoutable : Call N → Type 0
  IsRoutable list_maps = Unit
  IsRoutable (get_snapshot id) = IsSegment id
  IsRoutable (create_node id p) = IsSegment id
  IsRoutable (create_group id p) = IsSegment id
  IsRoutable (patch_group id p) = IsSegment id
  IsRoutable (patch_group_position id x y) = IsSegment id
  IsRoutable (delete_group id) = IsSegment id
  IsRoutable (patch_node id p) = IsSegment id
  IsRoutable (delete_node id) = IsSegment id
  IsRoutable (create_link id p) = IsSegment id
  IsRoutable (patch_link id k) = IsSegment id
  IsRoutable (delete_link id) = IsSegment id
  IsRoutable (patch_node_position id x y g) = IsSegment id
  IsRoutable (patch_viewport id x y z keepalive) = IsSegment id
  IsRoutable (create_monitor id p) = IsSegment id
  IsRoutable (patch_monitor id p) = IsSegment id
  IsRoutable (delete_monitor id) = IsSegment id
  IsRoutable (run_monitor id) = IsSegment id
  IsRoutable (get_monitor_run id run_id) = IsSegment id × IsSegment run_id

  -- Every call of the client whose identifiers have no slash reaches its own route, with all its
  -- arguments.
  pub route-http_request : (c : Call N) → IsRoutable c → route (http_request c) ≡ some c
  unfolding route http_request
  route-http_request list_maps h = rw (split_root (codes "maps") refl) refl
  route-http_request (get_snapshot id) h =
      rw (split_part (codes "maps") id (codes "snapshot") refl h refl) refl
  route-http_request (create_node id p) h =
      rw (split_part (codes "maps") id (codes "nodes") refl h refl) refl
  route-http_request (create_group id p) h =
      rw (split_part (codes "maps") id (codes "groups") refl h refl) refl
  route-http_request (patch_group id p) h = rw (split_item (codes "groups") id refl h) refl
  route-http_request (patch_group_position id x y) h =
      rw (split_item (codes "groups") id refl h) refl
  route-http_request (delete_group id) h = rw (split_item (codes "groups") id refl h) refl
  route-http_request (patch_node id p) h = rw (split_item (codes "nodes") id refl h) refl
  route-http_request (delete_node id) h = rw (split_item (codes "nodes") id refl h) refl
  route-http_request (create_link id p) h =
      rw (split_part (codes "maps") id (codes "links") refl h refl) refl
  route-http_request (patch_link id k) h = rw (split_item (codes "links") id refl h) refl
  route-http_request (delete_link id) h = rw (split_item (codes "links") id refl h) refl
  route-http_request (patch_node_position id x y g) h =
      rw (split_part (codes "nodes") id (codes "position") refl h refl) refl
  route-http_request (patch_viewport id x y z keepalive) h =
      rw (split_item (codes "maps") id refl h) refl
  route-http_request (create_monitor id p) h =
      rw (split_part (codes "nodes") id (codes "monitors") refl h refl) refl
  route-http_request (patch_monitor id p) h = rw (split_item (codes "monitors") id refl h) refl
  route-http_request (delete_monitor id) h = rw (split_item (codes "monitors") id refl h) refl
  route-http_request (run_monitor id) h =
      rw (split_part (codes "monitors") id (codes "run") refl h refl) refl
  route-http_request (get_monitor_run id run_id) h =
      rw (split_sub (codes "monitors") id (codes "runs") run_id refl h.0 refl h.1) refl
