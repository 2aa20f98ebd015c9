-- ===== src/Monitor/Tests.antt =====
-- Drafts of monitors, and the theorems at them.
use network_topology_map.Prelude.{
  ℕ, ◌≡◌, refl, true, false, none, some, [], codes, starts_with, text_eq,
}
use network_topology_map.Types.{http, https}
use network_topology_map.Sample.{web_check}
use network_topology_map.Monitor.Parse.{valid_ipv4, integer_in_range, trim_or_null}
use network_topology_map.Monitor.Decimal.{to_string}
use network_topology_map.Monitor.Draft.{MonitorDraft, monitor_draft_for}
use network_topology_map.Monitor.Validate.{valid, validate_monitor_draft, errors_of, payload_of}
use network_topology_map.Monitor.Labels.{
  format_monitor_target, monitor_state_label, monitor_failure_label, error_labels,
}
use network_topology_map.Monitor.Targets.{IsSame, format_monitor_target-IsSame}
use network_topology_map.Types.{MonitorResult}
use network_topology_map.Monitor.Sound.{IsAcceptable, validate_monitor_draft_sound}
use network_topology_map.Monitor.RoundTrip.{config, validate-monitor_draft_for}

validation : Unit {0}
unfolding validate_monitor_draft errors_of payload_of valid_ipv4 integer_in_range trim_or_null
    starts_with monitor_draft_for to_string
validation = tt

addresses :
    (valid_ipv4 (codes "10.0.0.27") ≡ true)
    × (valid_ipv4 (codes "10.0.0") ≡ false)
    × (valid_ipv4 (codes "10.0.0.256") ≡ false)
    × (valid_ipv4 (codes "10.0.00.1") ≡ false)
unfolding validation
addresses = (refl, refl, refl, refl)

numbers :
    (integer_in_range (codes " 30 ") 5 3600 ≡ some 30)
    × (integer_in_range (codes "4") 5 3600 ≡ none)
    × (integer_in_range (codes "30s") 5 3600 ≡ none)
    × (integer_in_range (codes "") 5 3600 ≡ none)
unfolding validation
numbers = (refl, refl, refl, refl)

-- A web check typed with stray blanks.
abbrev typed : MonitorDraft
typed = record {
  kind = http;
  enabled = true;
  target_ipv4 = codes " 10.0.0.27";
  port = codes "8443 ";
  scheme = some https;
  path = codes " /health";
  host_header = codes "  ";
  verify_tls = true;
  interval_seconds = codes "30";
  timeout_seconds = codes "3";
}

typed_valid : validate_monitor_draft typed ≡ valid (config web_check)
unfolding validation
typed_valid = refl

validate_monitor_draft_sound_example : IsAcceptable (config web_check)
validate_monitor_draft_sound_example =
    validate_monitor_draft_sound typed (config web_check) typed_valid

validate-monitor_draft_for_example :
    validate_monitor_draft (monitor_draft_for (some web_check) none) ≡ valid (config web_check)
validate-monitor_draft_for_example =
    validate-monitor_draft_for web_check none validate_monitor_draft_sound_example

shown :
    (format_monitor_target web_check ≡ codes "https://10.0.0.27:8443/health")
    × (monitor_state_label web_check ≡ codes "Awaiting first result")
unfolding format_monitor_target monitor_state_label to_string
shown = (refl, refl)

-- a result of the check with a code that has no label
abbrev refused_check : MonitorResult ℕ
refused_check = record {
  monitor_id = codes "m1";
  success = false;
  checked_at = [];
  latency_ms = none;
  http_status = none;
  error_code = some (codes "proxy_refused_it");
  error_message = some (codes "403");
  stale = false;
}

explained : monitor_failure_label refused_check ≡ some (codes "proxy refused it: 403")
unfolding monitor_failure_label error_labels text_eq
explained = refl

format_monitor_target-IsSame_example : IsSame web_check web_check
format_monitor_target-IsSame_example =
    format_monitor_target-IsSame web_check web_check
      (validate_monitor_draft_sound typed (config web_check) typed_valid)
      (validate_monitor_draft_sound typed (config web_check) typed_valid) refl
