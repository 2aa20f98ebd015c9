-- ===== src/Monitor/Validate.antt =====
-- frontend/src/app/monitorState.ts: `validateMonitorDraft`. Each field's part of the function is a
-- definition of its own; a field whose check does not apply to the kind has no error.
use network_topology_map.Prelude.{
  ℕ, Bool, true, false, not, ◌&&◌, ◌||◌, Option, none, some, Text, String, get_or, is_some, any,
  starts_with, ◌==◌, if◌then◌else◌, trim,
}
use network_topology_map.Types.{MonitorKind, icmp, http, HttpScheme, https, MonitorPayload}
use network_topology_map.Monitor.Parse.{valid_ipv4, integer_in_range, trim_or_null}
use network_topology_map.Monitor.Draft.{MonitorDraft, slash}

-- The messages by field; the validation sets no others.
pub record MonitorValidationErrors : Type 0 where
  pub target_ipv4 : Option String
  pub interval_seconds : Option String
  pub timeout_seconds : Option String
  pub port : Option String
  pub scheme : Option String
  pub path : Option String
  pub host_header : Option String

pub data MonitorValidation : Type 0 where
  valid : MonitorPayload → MonitorValidation
  invalid : MonitorValidationErrors → MonitorValidation

-- the message, if the check failed
abbrev pub unless : Bool → String → Option String
unless ok message = if ok then none else some message

abbrev pub is_icmp : MonitorKind → Bool
is_icmp icmp = true
is_icmp _ = false

abbrev pub is_http : MonitorKind → Bool
is_http http = true
is_http _ = false

abbrev pub is_https : Option HttpScheme → Bool
is_https (some https) = true
is_https _ = false

-- the values that the function computes from the draft
abbrev pub interval_of : MonitorDraft → Option ℕ
interval_of d = integer_in_range d.interval_seconds 5 3600

abbrev pub timeout_of : MonitorDraft → Option ℕ
timeout_of d = integer_in_range d.timeout_seconds 1 30

abbrev pub port_at : MonitorKind → Text → Option ℕ
port_at k text = if is_icmp k then none else integer_in_range text 1 65535

abbrev pub port_of : MonitorDraft → Option ℕ
port_of d = port_at d.kind d.port

abbrev pub scheme_of : MonitorDraft → Option HttpScheme
scheme_of d = if is_http d.kind then d.scheme else none

abbrev pub path_text : MonitorDraft → Text
path_text d = get_or (trim_or_null d.path) slash

abbrev pub path_of : MonitorDraft → Option Text
path_of d = if is_http d.kind then some (path_text d) else none

abbrev pub host_header_of : MonitorDraft → Option Text
host_header_of d = if is_http d.kind then trim_or_null d.host_header else none

abbrev pub verify_tls_of : MonitorDraft → Bool
verify_tls_of d = if is_http d.kind && is_https d.scheme then d.verify_tls else true

-- no carriage return and no line feed
abbrev pub is_line : Text → Bool
is_line s = not (any (λ c. c == 13) s || any (λ c. c == 10) s)

abbrev pub header_ok : Option Text → Bool
header_ok none = true
header_ok (some h) = is_line h

unfoldable pub errors_of : MonitorDraft → MonitorValidationErrors
errors_of d = record {
  target_ipv4 =
      unless (valid_ipv4 (trim d.target_ipv4)) "Enter a valid IPv4 address, such as 10.0.0.27.";
  interval_seconds =
      unless (is_some (interval_of d)) "Interval must be a whole number from 5 to 3600 seconds.";
  timeout_seconds =
      unless (is_some (timeout_of d)) "Timeout must be a whole number from 1 to 30 seconds.";
  port =
      unless (is_icmp d.kind || is_some (port_of d))
        "TCP and HTTP(S) checks need a port from 1 to 65535.";
  scheme = unless (not (is_http d.kind) || is_some d.scheme) "Choose HTTP or HTTPS.";
  path =
      unless (not (is_http d.kind) || starts_with slash (path_text d))
        "HTTP paths must start with '/'.";
  host_header =
      unless (not (is_http d.kind) || header_ok (trim_or_null d.host_header))
        "Host header must be a single line.";
}

-- `Object.keys(errors).length > 0`
abbrev pub has_errors : MonitorValidationErrors → Bool
has_errors e =
    is_some e.target_ipv4
    || is_some e.interval_seconds
    || is_some e.timeout_seconds
    || is_some e.port
    || is_some e.scheme
    || is_some e.path
    || is_some e.host_header

-- `interval!` and `timeout!` assert that the value is not null; the 0 is never taken
unfoldable pub payload_of : MonitorDraft → MonitorPayload
payload_of d = record {
  kind = d.kind;
  enabled = d.enabled;
  target_ipv4 = trim d.target_ipv4;
  port = port_of d;
  scheme = scheme_of d;
  path = path_of d;
  host_header = host_header_of d;
  verify_tls = verify_tls_of d;
  interval_seconds = get_or (interval_of d) 0;
  timeout_seconds = get_or (timeout_of d) 0;
}

unfoldable pub validate_monitor_draft : MonitorDraft → MonitorValidation
validate_monitor_draft d =
    let errors = errors_of d in if has_errors errors then invalid errors else valid (payload_of d)
