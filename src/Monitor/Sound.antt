-- ===== src/Monitor/Sound.antt =====
-- What a payload that the validation lets through satisfies.
use network_topology_map.Prelude.{
  ℕ, ◌≤◌, ◌≡◌, inl, inr, refl, Bool, true, false, not, ◌||◌, Option, none, some, Text, arith,
  is_some, is_empty, ◌&&◌, starts_with, Bool-cases, Option-cases, get_or, trim, trim_idem,
  if◌then◌else◌,
}
use network_topology_map.Types.{MonitorKind, icmp, tcp, http, HttpScheme, https, MonitorPayload}
use network_topology_map.Monitor.Parse.{valid_ipv4, integer_in_range, trim_or_null}
use network_topology_map.Monitor.Draft.{MonitorDraft, slash}
use network_topology_map.Monitor.Validate.{
  valid, invalid, interval_of, timeout_of, port_of, validate_monitor_draft, errors_of, payload_of,
  has_errors, is_line, path_text, is_icmp, is_http, is_https, port_at, header_ok,
}

-- No check by ping has a port; the others have one that TCP allows.
abbrev pub HasPort : MonitorKind → Option ℕ → Type 0
HasPort icmp port = port ≡ none
HasPort _ port = (n : ℕ) × (port ≡ some n) × (1 ≤ n) × (n ≤ 65535)

-- Only an HTTP check has a scheme.
abbrev pub HasScheme : MonitorKind → Option HttpScheme → Type 0
HasScheme http scheme = (s : HttpScheme) × (scheme ≡ some s)
HasScheme _ scheme = scheme ≡ none

-- Only an HTTP check has a path; it starts with a slash and has no white space at its ends.
abbrev pub HasPath : MonitorKind → Option Text → Type 0
HasPath http path = (p : Text) × (path ≡ some p) × (starts_with slash p ≡ true) × (trim p ≡ p)
HasPath _ path = path ≡ none

abbrev pub HeaderOk : Option Text → Type 0
HeaderOk none = Unit
HeaderOk (some h) = (is_empty h ≡ false) × (is_line h ≡ true) × (trim h ≡ h)

-- Only an HTTP check may have a host header; it is one line, not empty, and trimmed.
abbrev pub HasHeader : MonitorKind → Option Text → Type 0
HasHeader http header = HeaderOk header
HasHeader _ header = header ≡ none

pub record IsAcceptable (p : MonitorPayload) : Type 0 where
  pub target : valid_ipv4 p.target_ipv4 ≡ true
  pub interval : (5 ≤ p.interval_seconds) × (p.interval_seconds ≤ 3600)
  pub timeout : (1 ≤ p.timeout_seconds) × (p.timeout_seconds ≤ 30)
  pub port : HasPort p.kind p.port
  pub scheme : HasScheme p.kind p.scheme
  pub path : HasPath p.kind p.path
  pub host_header : HasHeader p.kind p.host_header
  pub tls : p.verify_tls ≡ false → p.scheme ≡ some https

integer_in_range_bounds :
    (v : Text) (lo hi n : ℕ) → integer_in_range v lo hi ≡ some n → (lo ≤ n) × (n ≤ hi)
unfolding integer_in_range
integer_in_range_bounds v lo hi n h = ground arith

pub trim_or_null-trimmed :
    (v q : Text) → trim_or_null v ≡ some q → (is_empty q ≡ false) × (trim q ≡ q)
unfolding trim_or_null
trim_or_null-trimmed v q h = ground (arith, trim_idem v)

trim-slash : trim slash ≡ slash
unfolding trim
trim-slash = refl

path_text-trimmed : (d : MonitorDraft) → trim (path_text d) ≡ path_text d
path_text-trimmed d = elim (Option-cases (trim_or_null d.path)) [
  | inl e ↦ rw e trim-slash
  | inr (q, e) ↦ rw e (trim_or_null-trimmed d.path q e).1
]

-- Each field's check, kind by kind.
check-HasPort :
    (k : MonitorKind) (t : Text)
    → (is_icmp k || is_some (port_at k t)) ≡ true
    → HasPort k (port_at k t)
check-HasPort icmp t h = refl
check-HasPort _ t h = elim (Option-cases (integer_in_range t 1 65535)) [
  | inl e ↦ absurd (ground arith)
  | inr (n, e) ↦ let b = integer_in_range_bounds t 1 65535 n e in (n, e, b.0, b.1)
]

check-HasScheme :
    (k : MonitorKind) (o : Option HttpScheme)
    → (not (is_http k) || is_some o) ≡ true
    → HasScheme k (if is_http k then o else none)
check-HasScheme http none h = cc
check-HasScheme http (some s) h = (s, refl)
check-HasScheme icmp o h = refl
check-HasScheme tcp o h = refl

check-HasPath :
    (k : MonitorKind) (p : Text)
    → (not (is_http k) || starts_with slash p) ≡ true
    → trim p ≡ p
    → HasPath k (if is_http k then some p else none)
check-HasPath http p h t = (p, refl, h, t)
check-HasPath icmp p h t = refl
check-HasPath tcp p h t = refl

check-HeaderOk :
    (o : Option Text)
    → header_ok o ≡ true
    → ((q : Text) → o ≡ some q → (is_empty q ≡ false) × (trim q ≡ q))
    → HeaderOk o
check-HeaderOk none h t = tt
check-HeaderOk (some q) h t = ((t q refl).0, h, (t q refl).1)

check-HasHeader :
    (k : MonitorKind) (v : Text)
    → (not (is_http k) || header_ok (trim_or_null v)) ≡ true
    → HasHeader k (if is_http k then trim_or_null v else none)
check-HasHeader http v h = check-HeaderOk (trim_or_null v) h (trim_or_null-trimmed v)
check-HasHeader icmp v h = refl
check-HasHeader tcp v h = refl

tls_of_check :
    (k : MonitorKind) (o : Option HttpScheme) (b : Bool)
    → (if is_http k && is_https o then b else true) ≡ false
    → (if is_http k then o else none) ≡ some https
tls_of_check http (some https) b h = refl
tls_of_check _ o b h = ground arith

-- A draft without errors, field by field.
pub record IsClean (d : MonitorDraft) : Type 0 where
  pub target : valid_ipv4 (trim d.target_ipv4) ≡ true
  pub interval : is_some (interval_of d) ≡ true
  pub timeout : is_some (timeout_of d) ≡ true
  pub port : (is_icmp d.kind || is_some (port_of d)) ≡ true
  pub scheme : (not (is_http d.kind) || is_some d.scheme) ≡ true
  pub path : (not (is_http d.kind) || starts_with slash (path_text d)) ≡ true
  pub host_header : (not (is_http d.kind) || header_ok (trim_or_null d.host_header)) ≡ true

pub errors_of-IsClean : (d : MonitorDraft) → has_errors (errors_of d) ≡ false → IsClean d
unfolding errors_of
errors_of-IsClean d h = ground arith

pub IsClean-errors_of : (d : MonitorDraft) → IsClean d → has_errors (errors_of d) ≡ false
unfolding errors_of
IsClean-errors_of d c = ground arith

range_of_is_some :
    (v : Text) (lo hi : ℕ)
    → is_some (integer_in_range v lo hi) ≡ true
    → (lo ≤ get_or (integer_in_range v lo hi) 0) × (get_or (integer_in_range v lo hi) 0 ≤ hi)
range_of_is_some v lo hi h = elim (Option-cases (integer_in_range v lo hi)) [
  | inl e ↦ absurd (ground arith)
  | inr (n, e) ↦ rw e (integer_in_range_bounds v lo hi n e)
]

payload_of-IsAcceptable : (d : MonitorDraft) → IsClean d → IsAcceptable (payload_of d)
unfolding payload_of
payload_of-IsAcceptable d c = record {
  target = c.target;
  interval = range_of_is_some d.interval_seconds 5 3600 c.interval;
  timeout = range_of_is_some d.timeout_seconds 1 30 c.timeout;
  port = check-HasPort d.kind d.port c.port;
  scheme = check-HasScheme d.kind d.scheme c.scheme;
  path = check-HasPath d.kind (path_text d) c.path (path_text-trimmed d);
  host_header = check-HasHeader d.kind d.host_header c.host_header;
  tls = tls_of_check d.kind d.scheme d.verify_tls;
}

pub validate_clean :
    (d : MonitorDraft)
    → has_errors (errors_of d) ≡ false
    → validate_monitor_draft d ≡ valid (payload_of d)
unfolding validate_monitor_draft
validate_clean d h = rw h

pub validate_dirty :
    (d : MonitorDraft)
    → has_errors (errors_of d) ≡ true
    → validate_monitor_draft d ≡ invalid (errors_of d)
unfolding validate_monitor_draft
validate_dirty d h = rw h

pub valid_inversion :
    (d : MonitorDraft) (p : MonitorPayload)
    → validate_monitor_draft d ≡ valid p
    → IsClean d × (payload_of d ≡ p)
valid_inversion d p h = elim (Bool-cases (has_errors (errors_of d))) [
  | inl bad ↦ absurd (cc (validate_dirty d bad))
  | inr good ↦ (errors_of-IsClean d good, cc (validate_clean d good))
]

-- A payload that the validation lets through: its address is a dotted quad, its seconds are in
-- range, it has a port in range unless it is a ping, it has a scheme, a trimmed path that starts
-- with a slash and an optional one-line host header exactly if it is an HTTP check, and it leaves
-- certificates unverified only over https.
pub validate_monitor_draft_sound :
    (d : MonitorDraft) (p : MonitorPayload) → validate_monitor_draft d ≡ valid p → IsAcceptable p
validate_monitor_draft_sound d p h =
    let (clean, same) = valid_inversion d p h in rw (← same) (payload_of-IsAcceptable d clean)
