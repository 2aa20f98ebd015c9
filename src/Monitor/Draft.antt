-- ===== src/Monitor/Draft.antt =====
-- frontend/src/app/monitorState.ts: the draft that the monitor form edits. The empty scheme of the
-- form ("") is `none`.
use network_topology_map.Prelude.{
  ℕ, Bool, true, Option, none, some, [], ◌∷◌, ◌++◌, Text, codes, get_or, is_empty, if◌then◌else◌,
}
use network_topology_map.Types.{MonitorKind, icmp, tcp, http, HttpScheme, plain_http, MonitorRecord}
use network_topology_map.Monitor.Decimal.{to_string}

pub record MonitorDraft : Type 0 where
  pub kind : MonitorKind
  pub enabled : Bool
  pub target_ipv4 : Text
  pub port : Text
  pub scheme : Option HttpScheme
  pub path : Text
  pub host_header : Text
  pub verify_tls : Bool
  pub interval_seconds : Text
  pub timeout_seconds : Text

-- the slash that paths start with
abbrev pub slash : Text
slash = b'/' ∷ []

-- `port?.toString() ?? ""`
abbrev pub port_text : Option ℕ → Text
port_text none = []
port_text (some n) = to_string n

abbrev draft_of : {N : Type 0} → MonitorRecord N → MonitorDraft
draft_of m = record {
  kind = m.kind;
  enabled = m.enabled;
  target_ipv4 = m.target_ipv4;
  port = port_text m.port;
  scheme = m.scheme;
  path = get_or m.path slash;
  host_header = get_or m.host_header [];
  verify_tls = m.verify_tls;
  interval_seconds = to_string m.interval_seconds;
  timeout_seconds = to_string m.timeout_seconds;
}

unfoldable pub monitor_draft_for :
    {N : Type 0} → Option (MonitorRecord N) → Option Text → MonitorDraft
monitor_draft_for (some m) ipv4 = draft_of m
monitor_draft_for none ipv4 = record {
  kind = icmp;
  enabled = true;
  target_ipv4 = get_or ipv4 [];
  port = [];
  scheme = none;
  path = slash;
  host_header = [];
  verify_tls = true;
  interval_seconds = codes "30";
  timeout_seconds = codes "3";
}

-- Reset the fields that contradict the new kind.
unfoldable pub draft_for_monitor_kind : MonitorDraft → MonitorKind → MonitorDraft
draft_for_monitor_kind d icmp = record d {
  kind = icmp;
  port = [];
  scheme = none;
  path = [];
  host_header = [];
  verify_tls = true;
}
draft_for_monitor_kind d tcp = record d {
  kind = tcp;
  scheme = none;
  path = [];
  host_header = [];
  verify_tls = true;
}
draft_for_monitor_kind d http = record d {
  kind = http;
  scheme = some (get_or d.scheme plain_http);
  path = if is_empty d.path then slash else d.path;
}

-- `${nodeId}:${monitorId ?? "new"}:${revision}`
unfoldable pub monitor_editor_reset_key : Text → Option Text → ℕ → Text
monitor_editor_reset_key node_id monitor_id revision =
    node_id ++ (b':' ∷ get_or monitor_id (codes "new") ++ (b':' ∷ to_string revision))
