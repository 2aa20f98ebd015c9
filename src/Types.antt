-- ===== src/Types.antt =====
-- The records of frontend/src/types.ts. `N` is the type of JavaScript numbers that may be
-- fractional (coordinates, sizes, zoom, latency); numbers that are whole by contract are ℕ.
use network_topology_map.Prelude.{ℕ, Bool, Option, List, Text}

pub data NodeKind : Type 0 where
  device vm container kubernetes service cloud other : NodeKind

pub data LinkKind : Type 0 where
  local virtual : LinkKind

pub data LinkHandle : Type 0 where
  top right bottom left : LinkHandle

pub data Status : Type 0 where
  unknown online degraded offline : Status

pub data MonitorKind : Type 0 where
  icmp tcp http : MonitorKind

pub data HttpScheme : Type 0 where
  plain_http https : HttpScheme

pub record MapRecord (N : Type 0) : Type 0 where
  pub id : Text
  pub name : Text
  pub viewport_x : N
  pub viewport_y : N
  pub viewport_zoom : N
  pub created_at : Text
  pub updated_at : Text

pub record NodeRecord (N : Type 0) : Type 0 where
  pub id : Text
  pub map_id : Text
  pub name : Text
  pub kind : NodeKind
  pub icon_id : Text
  pub hyperlink : Option Text
  pub ipv4 : Option Text
  pub display_port : Option ℕ
  pub group_id : Option Text
  pub x : N
  pub y : N
  pub created_at : Text
  pub updated_at : Text

pub record LinkRecord : Type 0 where
  pub id : Text
  pub map_id : Text
  pub source_node_id : Text
  pub target_node_id : Text
  pub kind : LinkKind
  pub source_handle : Option Text
  pub target_handle : Option Text
  pub created_at : Text

pub record LinkPayload : Type 0 where
  pub source_node_id : Text
  pub target_node_id : Text
  pub kind : LinkKind
  pub source_handle : Option Text
  pub target_handle : Option Text

pub record GroupRecord (N : Type 0) : Type 0 where
  pub id : Text
  pub map_id : Text
  pub name : Text
  pub x : N
  pub y : N
  pub width : N
  pub height : N
  pub created_at : Text
  pub updated_at : Text

pub record GroupPayload (N : Type 0) : Type 0 where
  pub name : Text
  pub x : N
  pub y : N
  pub width : N
  pub height : N

pub record MonitorResult (N : Type 0) : Type 0 where
  pub monitor_id : Text
  pub success : Bool
  pub checked_at : Text
  pub latency_ms : Option N
  pub http_status : Option ℕ
  pub error_code : Option Text
  pub error_message : Option Text
  pub stale : Bool

pub record MonitorRecord (N : Type 0) : Type 0 where
  pub id : Text
  pub node_id : Text
  pub kind : MonitorKind
  pub enabled : Bool
  pub target_ipv4 : Text
  pub port : Option ℕ
  pub scheme : Option HttpScheme
  pub path : Option Text
  pub host_header : Option Text
  pub verify_tls : Bool
  pub interval_seconds : ℕ
  pub timeout_seconds : ℕ
  pub created_at : Text
  pub updated_at : Text
  pub result : Option (MonitorResult N)

pub record MonitorPayload : Type 0 where
  pub kind : MonitorKind
  pub enabled : Bool
  pub target_ipv4 : Text
  pub port : Option ℕ
  pub scheme : Option HttpScheme
  pub path : Option Text
  pub host_header : Option Text
  pub verify_tls : Bool
  pub interval_seconds : ℕ
  pub timeout_seconds : ℕ

pub data RunStatus : Type 0 where
  queued completed unavailable : RunStatus

pub record MonitorSummary : Type 0 where
  pub id : Text
  pub kind : MonitorKind
  pub success : Option Bool
  pub checked_at : Option Text
  pub error_code : Option Text
  pub stale : Bool

pub record NodeStatus : Type 0 where
  pub node_id : Text
  pub status : Status
  pub monitors : List MonitorSummary

pub record Snapshot (N : Type 0) : Type 0 where
  pub revision : ℕ
  pub map : MapRecord N
  pub nodes : List (NodeRecord N)
  pub groups : List (GroupRecord N)
  pub links : List LinkRecord
  pub monitors : List (MonitorRecord N)
  pub statuses : List NodeStatus

pub record NodePayload (N : Type 0) : Type 0 where
  pub name : Text
  pub kind : NodeKind
  pub icon_id : Text
  pub hyperlink : Option Text
  pub ipv4 : Option Text
  pub display_port : Option ℕ
  pub x : N
  pub y : N
