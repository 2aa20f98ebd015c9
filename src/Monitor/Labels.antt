-- ===== src/Monitor/Labels.antt =====
-- frontend/src/app/monitorState.ts: the texts that the panel shows of a monitor. The codes of failures
-- are none of the names that every JavaScript object has.
use network_topology_map.Prelude.{
  ℕ, Bool, true, not, ◌&&◌, Option, none, some, List, [], ◌∷◌, ◌++◌, Text, codes, text_eq, get_or,
  is_empty, map, if◌then◌else◌, ◌==◌,
}
use Prim.Native.String.{String}
use network_topology_map.Types.{
  MonitorKind, icmp, tcp, http, HttpScheme, https, MonitorRecord, MonitorResult,
}
use network_topology_map.Monitor.Decimal.{to_string}

-- `port ?? "?"`
abbrev pub port_or_mark : Option ℕ → Text
port_or_mark none = codes "?"
port_or_mark (some port) = to_string port

-- `scheme ?? "http"`
abbrev pub scheme_text : Option HttpScheme → Text
scheme_text (some https) = codes "https"
scheme_text _ = codes "http"

abbrev pub web_target : Text → Text → Text → Text → Text
web_target scheme target port path = scheme ++ (codes "://" ++ (target ++ (b':' ∷ port ++ path)))

abbrev pub target_text : MonitorKind → Text → Option ℕ → Option HttpScheme → Option Text → Text
target_text icmp target port scheme path = codes "ICMP " ++ target
target_text tcp target port scheme path = codes "TCP " ++ (target ++ (b':' ∷ port_or_mark port))
target_text http target port scheme path =
    web_target (scheme_text scheme) target (port_or_mark port) (get_or path (codes "/"))

unfoldable pub format_monitor_target : {N : Type 0} → MonitorRecord N → Text
format_monitor_target m = target_text m.kind m.target_ipv4 m.port m.scheme m.path

abbrev state_text : {N : Type 0} → Option (MonitorResult N) → Text
state_text none = codes "Awaiting first result"
state_text (some result) =
    if result.stale
    then (if result.success then codes "Stale pass" else codes "Stale failure")
    else if result.success
    then codes "Passed"
    else codes "Failed"

unfoldable pub monitor_state_label : {N : Type 0} → MonitorRecord N → Text
monitor_state_label m = if not m.enabled then codes "Disabled" else state_text m.result

abbrev label : String → String → Text × Text
label code text = (codes code, codes text)

unfoldable pub error_labels : List (Text × Text)
error_labels =
    label "timeout" "Timeout"
    ∷ label "connection_refused" "Connection refused"
    ∷ label "connection_error" "Connection failure"
    ∷ label "dns_failure" "DNS failure"
    ∷ label "dns_error" "DNS failure"
    ∷ label "unreachable" "Target unreachable"
    ∷ label "http_status" "HTTP failure"
    ∷ label "tls_error" "TLS certificate failure"
    ∷ label "request_error" "HTTP request failure"
    ∷ label "icmp_unavailable" "ICMP unavailable"
    ∷ label "icmp_error" "ICMP failure"
    ∷ label "invalid_check" "Configuration error"
    ∷ label "check_error" "Check error"
    ∷ label "disabled" "Disabled"
    ∷ []

abbrev label_of : Text → List (Text × Text) → Option Text
label_of code [] = none
label_of code ((key, text) ∷ labels) = if text_eq key code then some text else label_of code labels

-- `replaceAll("_", " ")`
abbrev pub spaced : Text → Text
spaced code = map (λ c. if c == b'_' then 32 else c) code

-- the code is absent, or empty
abbrev pub is_blank : Option Text → Bool
is_blank none = true
is_blank (some text) = is_empty text

abbrev pub failure_kind : Option Text → Text
failure_kind none = codes "Check failure"
failure_kind (some code) =
    if is_empty code
    then codes "Check failure"
    else get_or (label_of code error_labels) (spaced code)

abbrev pub with_message : Text → Option Text → Text
with_message kind none = kind
with_message kind (some message) =
    if is_empty message then kind else kind ++ (codes ": " ++ message)

unfoldable pub monitor_failure_label : {N : Type 0} → MonitorResult N → Option Text
unfolding error_labels
monitor_failure_label result =
    if is_blank result.error_code && is_blank result.error_message
    then none
    else some (with_message (failure_kind result.error_code) result.error_message)
