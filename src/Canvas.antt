-- ===== src/Canvas.antt =====
-- frontend/src/app/App.tsx, the functions above the component, and its values derived from them:
-- what the canvas draws. `N` is the type of coordinates; `lower` is toLocaleLowerCase.
pub mod Edges
pub mod Drop
pub mod Links
pub mod Search
mod Tests
use network_topology_map.Prelude.{
  ℕ, suc, ◌+◌, Bool, true, false, not, ◌&&◌, ◌||◌, Option, none, some, List, [], ◌∷◌, ◌++◌, map,
  Text, codes, text_eq, id_eq, get_or, any, every, find, keep, includes, is_empty, trim, split, ltb,
  if◌then◌else◌,
}
use network_topology_map.Types.{
  NodeKind, device, vm, container, kubernetes, service, cloud, other, LinkKind, local, virtual,
  LinkHandle, top, right, bottom, left, Status, unknown, NodeStatus, NodeRecord, LinkRecord,
  GroupRecord, Snapshot,
}
use network_topology_map.Numbers.{Arithmetic}
use network_topology_map.Editor.{Point, Table, get, set}
use network_topology_map.Monitor.Draft.{port_text}

abbrev pub node_width : ℕ
node_width = 210

abbrev pub node_height : ℕ
node_height = 59

abbrev pub group_padding : ℕ
group_padding = 16

abbrev pub group_title_height : ℕ
group_title_height = 38

-- the text that a kind is in the source
abbrev pub kind_text : NodeKind → Text
kind_text device = codes "device"
kind_text vm = codes "vm"
kind_text container = codes "container"
kind_text kubernetes = codes "kubernetes"
kind_text service = codes "service"
kind_text cloud = codes "cloud"
kind_text other = codes "other"

abbrev pub handle_text : LinkHandle → Text
handle_text top = codes "top"
handle_text right = codes "right"
handle_text bottom = codes "bottom"
handle_text left = codes "left"

abbrev pub kind_eq : LinkKind → LinkKind → Bool
kind_eq local local = true
kind_eq virtual virtual = true
kind_eq _ _ = false

module _ (lower : Text → Text) where
  pub normalize_search_query : Text → Text
  normalize_search_query query = lower (trim query)

  pub matches_search_query : {N : Type 0} → NodeRecord N → Text → Bool
  matches_search_query node query =
      is_empty query
      || any (λ value. includes query (lower value))
          (node.name ∷ kind_text node.kind ∷ get_or node.ipv4 [] ∷ port_text node.display_port ∷ [])

pub record FlowGroup (N : Type 0) : Type 0 where
  pub id : Text
  pub position : Point N
  pub z_index : ℕ
  pub width : N
  pub height : N
  pub group : GroupRecord N

pub record FlowTopology (N : Type 0) : Type 0 where
  pub id : Text
  pub position : Point N
  pub z_index : ℕ
  pub node : NodeRecord N
  pub status : Status
  pub dimmed : Bool
  pub highlighted : Bool

-- the two types of nodes of the canvas
pub data FlowNode (N : Type 0) : Type 0 where
  topology_group : FlowGroup N → FlowNode N
  topology : FlowTopology N → FlowNode N

-- `new Map(entries)`
abbrev pub table_of : {V : Type 0} → List (Text × V) → Table V → Table V
table_of [] t = t
table_of ((k, v) ∷ es) t = table_of es (set k v t)

abbrev pub status_by_node : List NodeStatus → Table Status
status_by_node statuses = table_of (map (λ (s : NodeStatus). (s.node_id, s.status)) statuses) []

module _ {N : Type 0} where
  abbrev pub flow_group : GroupRecord N → FlowGroup N
  flow_group group = record {
    id = group.id;
    position = record { x = group.x; y = group.y };
    z_index = 0;
    width = group.width;
    height = group.height;
    group = group;
  }

  abbrev pub flow_topology :
      (Text → Text) → Table Status → Text → Option Text → NodeRecord N → FlowTopology N
  flow_topology lower statuses query highlighted node = record {
    id = node.id;
    position = record { x = node.x; y = node.y };
    z_index = 2;
    node = node;
    status = get_or (get node.id statuses) unknown;
    dimmed = not (is_empty query) && not (matches_search_query lower node query);
    highlighted = not (is_empty query) && id_eq (some node.id) highlighted;
  }

  pub to_flow_nodes : (Text → Text) → Snapshot N → Text → Option Text → List (FlowNode N)
  to_flow_nodes lower snapshot query highlighted =
      map (λ (group : GroupRecord N). topology_group (flow_group group)) snapshot.groups
      ++ map
          (λ (node : NodeRecord N).
            topology
              (flow_topology lower (status_by_node snapshot.statuses) query highlighted node))
          snapshot.nodes

  -- the component's `searchResults`, once there is a snapshot
  pub search_results : (Text → Text) → Snapshot N → Text → List (NodeRecord N)
  search_results lower snapshot query =
      if is_empty query
      then []
      else keep (λ node. matches_search_query lower node query) snapshot.nodes

  -- `node.data.dimmed`, which the data of a group does not have
  abbrev pub is_dimmed : FlowNode N → Bool
  is_dimmed (topology_group g) = false
  is_dimmed (topology n) = n.dimmed

  -- the test for "No matching nodes"
  pub shows_no_match : (Text → Text) → Snapshot N → Text → Option Text → Bool
  unfolding to_flow_nodes normalize_search_query
  shows_no_match lower snapshot query highlighted =
      not (is_empty (trim query))
      && every is_dimmed
          (to_flow_nodes lower snapshot (normalize_search_query lower query) highlighted)

abbrev pub joins : Text → Text → LinkKind → LinkRecord → Bool
joins source target kind link =
    kind_eq link.kind kind
    && ((text_eq link.source_node_id source && text_eq link.target_node_id target)
        || (text_eq link.source_node_id target && text_eq link.target_node_id source))

unfoldable pub matching_link : List LinkRecord → Text → Text → LinkKind → Option LinkRecord
matching_link links source target kind = find (joins source target kind) links

-- `handle?.split("-")[0]`
abbrev side_of : List Text → Text
side_of [] = []
side_of (w ∷ ws) = w

-- the test of a side, which is then the handle itself
abbrev handle_of : Text → LinkHandle → LinkHandle
handle_of side fallback =
    if text_eq side (codes "top")
    then top
    else if text_eq side (codes "right")
    then right
    else if text_eq side (codes "bottom")
    then bottom
    else if text_eq side (codes "left")
    then left
    else fallback

pub visible_handle : Option Text → LinkHandle → LinkHandle
visible_handle none fallback = fallback
visible_handle (some handle) fallback = handle_of (side_of (split b'-' handle)) fallback

pub record FlowEdge : Type 0 where
  pub id : Text
  pub source : Text
  pub target : Text
  pub source_handle : LinkHandle
  pub target_handle : LinkHandle
  pub parallel_offset : ℕ
  pub selected : Bool
  pub dashed : Bool

pub attachment_key : FlowEdge → Text
attachment_key e =
    e.source
    ++ (b':' ∷ handle_text e.source_handle
        ++ (b':' ∷ e.target ++ (b':' ∷ handle_text e.target_handle)))

-- the loop over the edges
pub attachment_counts : List FlowEdge → Table ℕ → Table ℕ
attachment_counts [] t = t
attachment_counts (e ∷ es) t =
    attachment_counts es (set (attachment_key e) (get_or (get (attachment_key e) t) 0 + 1) t)

module _ {N : Type 0} (a : Arithmetic N) where
  -- of the nodes' centres: which side of `from` faces `to`
  abbrev nearer : N → N → LinkHandle
  nearer delta_x delta_y =
      if a.le (a.div (a.abs delta_y) (a.numeral node_height))
        (a.div (a.abs delta_x) (a.numeral node_width))
      then (if a.le (a.numeral 0) delta_x then right else left)
      else if a.le (a.numeral 0) delta_y
      then bottom
      else top

  pub nearest_handle : Option (NodeRecord N) → Option (NodeRecord N) → LinkHandle → LinkHandle
  nearest_handle (some from) (some to) fallback = nearer (a.sub to.x from.x) (a.sub to.y from.y)
  nearest_handle none to fallback = fallback
  nearest_handle (some from) none fallback = fallback

  abbrev nodes_by_id : List (NodeRecord N) → Table (NodeRecord N)
  nodes_by_id nodes = table_of (map (λ (node : NodeRecord N). (node.id, node)) nodes) []

  -- the callback of the first `map`. The style's colour and width stand as `selected`, its dashes as
  -- `dashed`.
  pub edge_of : Table (NodeRecord N) → Option Text → LinkRecord → FlowEdge
  edge_of nodes selected_link_id link =
      let source = get link.source_node_id nodes in
      let target = get link.target_node_id nodes in
      record {
        id = link.id;
        source = link.source_node_id;
        target = link.target_node_id;
        source_handle = visible_handle link.source_handle (nearest_handle source target right);
        target_handle = visible_handle link.target_handle (nearest_handle target source left);
        parallel_offset = 0;
        selected = id_eq (some link.id) selected_link_id;
        dashed = kind_eq link.kind virtual;
      }

  -- the callback of the second `map`
  abbrev pub offset : Table ℕ → LinkRecord → FlowEdge → FlowEdge
  offset counts link edge = record edge {
    parallel_offset =
        if kind_eq link.kind virtual && ltb 1 (get_or (get (attachment_key edge) counts) 0)
        then 28
        else 0;
  }

  abbrev pub plain_edges : Snapshot N → Option Text → List FlowEdge
  plain_edges snapshot selected = map (edge_of (nodes_by_id snapshot.nodes) selected) snapshot.links

  pub to_flow_edges : Snapshot N → Option Text → List FlowEdge
  to_flow_edges snapshot selected =
      let counts = attachment_counts (plain_edges snapshot selected) [] in
      map
        (λ (link : LinkRecord).
          offset counts link (edge_of (nodes_by_id snapshot.nodes) selected link))
        snapshot.links

  abbrev pub between : N → N → N → Bool
  between low value high = a.le low value && a.le value high

  -- the callback of `find` in `groupDropPosition`
  abbrev pub holds_center : Point N → GroupRecord N → Bool
  holds_center position group =
      let center_x = a.add position.x (a.div (a.numeral node_width) (a.numeral 2)) in
      let center_y = a.add position.y (a.div (a.numeral node_height) (a.numeral 2)) in
      between group.x center_x (a.add group.x group.width)
      && between (a.add group.y (a.numeral group_title_height)) center_y
          (a.add group.y group.height)

  abbrev pub left_bound : GroupRecord N → N
  left_bound group = a.add group.x (a.numeral group_padding)

  abbrev pub right_bound : GroupRecord N → N
  right_bound group =
      a.sub (a.sub (a.add group.x group.width) (a.numeral node_width)) (a.numeral group_padding)

  abbrev pub top_bound : GroupRecord N → N
  top_bound group = a.add group.y (a.numeral group_title_height)

  abbrev pub bottom_bound : GroupRecord N → N
  bottom_bound group =
      a.sub (a.sub (a.add group.y group.height) (a.numeral node_height)) (a.numeral group_padding)

  -- Math.min(Math.max(value, low), high)
  abbrev pub clamp : N → N → N → N
  clamp value low high = a.min (a.max value low) high

  abbrev drop_into : Point N → Option (GroupRecord N) → Option Text × Point N
  drop_into position none = (none, position)
  drop_into position (some group) = (
    some group.id,
    record {
      x = clamp position.x (left_bound group) (right_bound group);
      y = clamp position.y (top_bound group) (bottom_bound group);
    },
  )

  pub group_drop_position : List (GroupRecord N) → Point N → Option Text × Point N
  group_drop_position groups position = drop_into position (find (holds_center position) groups)
