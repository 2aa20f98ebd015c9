-- ===== src/Monitor/RoundTrip.antt =====
-- A stored monitor put into the form and saved unchanged: the payload is the monitor's own
-- configuration.
use network_topology_map.Prelude.{
  ℕ, ◌≡◌, inl, inr, refl, Bool, true, false, not, ◌||◌, ◌&&◌, Option, none, some, List, [], ◌∷◌,
  Text, arith, sym, ap, ◌∙◌, extend, All, every, is_some, is_empty, starts_with, Bool-cases, get_or,
  trim, trim_ink, IsInk, is_space, split, ◌==◌, if◌then◌else◌,
}
use network_topology_map.Types.{
  MonitorKind, icmp, tcp, http, HttpScheme, https, MonitorPayload, MonitorRecord,
}
use network_topology_map.Monitor.Parse.{is_digit, is_octet, valid_ipv4, trim_or_null}
use network_topology_map.Monitor.Decimal.{digit-IsInk, integer_in_range-to_string}
use network_topology_map.Monitor.Draft.{MonitorDraft, slash, port_text, monitor_draft_for}
use network_topology_map.Monitor.Validate.{
  valid, validate_monitor_draft, payload_of, is_icmp, is_http, is_https, port_at, header_ok,
  interval_of, timeout_of,
}
use network_topology_map.Monitor.Sound.{
  IsAcceptable, HasPort, HasScheme, HasPath, HasHeader, IsClean, IsClean-errors_of, validate_clean,
  validate_monitor_draft_sound,
}

-- The digits and dots of an address are no white space.
extend-digits :
    (c : ℕ) (ws : List Text)
    → every (every is_digit) (extend c ws) ≡ true
    → (is_digit c ≡ true) × (every (every is_digit) ws ≡ true)
extend-digits c [] h = ground arith
extend-digits c (w ∷ ws) h = ground arith

split-IsInk : (s : Text) → every (every is_digit) (split b'.' s) ≡ true → All IsInk s
unfolding split
split-IsInk [] h = tt
split-IsInk (c ∷ s) h = elim (Bool-cases (c == b'.')) [
  | inl dot ↦ (unfold is_space in ground arith, split-IsInk s (ground arith))
  | inr ne ↦
      let d = extend-digits c (split b'.' s) (rw ne at h) in (digit-IsInk c d.0, split-IsInk s d.1)
]

octet-digits : (w : Text) → is_octet w ≡ true → every is_digit w ≡ true
unfolding is_octet
octet-digits w h = ground arith

octets-digits : (ws : List Text) → every is_octet ws ≡ true → every (every is_digit) ws ≡ true
octets-digits [] h = refl
octets-digits (w ∷ ws) h = ground (arith, octet-digits w, octets-digits ws)

valid_ipv4-IsInk : (s : Text) → valid_ipv4 s ≡ true → All IsInk s
unfolding valid_ipv4
valid_ipv4-IsInk s h = split-IsInk s (octets-digits (split b'.' s) (ground arith))

valid_ipv4-trim : (s : Text) → valid_ipv4 s ≡ true → trim s ≡ s
valid_ipv4-trim s h = trim_ink s (valid_ipv4-IsInk s h)

-- What the validation computes from the texts of a stored monitor.
port_at-port_text : (k : MonitorKind) (o : Option ℕ) → HasPort k o → port_at k (port_text o) ≡ o
port_at-port_text icmp o h = sym h
port_at-port_text _ o (n, e, lo, hi) =
    rw e (integer_in_range-to_string n 1 65535 lo hi (omega arith))

trim_or_null_trimmed : (q : Text) → is_empty q ≡ false → trim q ≡ q → trim_or_null q ≡ some q
unfolding trim_or_null
trim_or_null_trimmed q f t = rw (t, f)

path_filled : (p : Text) → starts_with slash p ≡ true → is_empty p ≡ false
unfolding starts_with
path_filled [] h = ground arith
path_filled (c ∷ p) h = refl

path_back :
    (k : MonitorKind) (o : Option Text)
    → HasPath k o
    → (if is_http k then some (get_or (trim_or_null (get_or o slash)) slash) else none) ≡ o
path_back http o (p, e, s, t) = rw (e, trim_or_null_trimmed p (path_filled p s) t)
path_back icmp o h = sym h
path_back tcp o h = sym h

trim_or_null-nil : trim_or_null [] ≡ none
unfolding trim_or_null
trim_or_null-nil = refl

header_back :
    (k : MonitorKind) (o : Option Text)
    → HasHeader k o
    → (if is_http k then trim_or_null (get_or o []) else none) ≡ o
header_back http none h = trim_or_null-nil
header_back http (some q) h = trim_or_null_trimmed q h.0 h.2
header_back icmp o h = sym h
header_back tcp o h = sym h

scheme_back :
    (k : MonitorKind) (o : Option HttpScheme) → HasScheme k o → (if is_http k then o else none) ≡ o
scheme_back http o h = refl
scheme_back icmp o h = sym h
scheme_back tcp o h = sym h

tls_back :
    (k : MonitorKind) (o : Option HttpScheme) (b : Bool)
    → HasScheme k o
    → (b ≡ false → o ≡ some https)
    → (if is_http k && is_https o then b else true) ≡ b
tls_back k o true h t = ground arith
tls_back http o false h t = rw (t refl)
tls_back icmp o false h t = absurd (cc (h, t refl))
tls_back tcp o false h t = absurd (cc (h, t refl))

-- The configuration of a stored monitor.
abbrev pub config : {N : Type 0} → MonitorRecord N → MonitorPayload
config m = record {
  kind = m.kind;
  enabled = m.enabled;
  target_ipv4 = m.target_ipv4;
  port = m.port;
  scheme = m.scheme;
  path = m.path;
  host_header = m.host_header;
  verify_tls = m.verify_tls;
  interval_seconds = m.interval_seconds;
  timeout_seconds = m.timeout_seconds;
}

module _ {N : Type 0} (m : MonitorRecord N) (ipv4 : Option Text) (a : IsAcceptable (config m)) where
  interval_back : interval_of (monitor_draft_for (some m) ipv4) ≡ some m.interval_seconds
  unfolding monitor_draft_for
  interval_back =
      integer_in_range-to_string m.interval_seconds 5 3600 a.interval.0 a.interval.1
        (omega (arith, a.interval.1))

  timeout_back : timeout_of (monitor_draft_for (some m) ipv4) ≡ some m.timeout_seconds
  unfolding monitor_draft_for
  timeout_back =
      integer_in_range-to_string m.timeout_seconds 1 30 a.timeout.0 a.timeout.1
        (omega (arith, a.timeout.1))

  draft_payload : payload_of (monitor_draft_for (some m) ipv4) ≡ config m
  unfolding payload_of monitor_draft_for
  draft_payload = λ i. record {
    kind = m.kind;
    enabled = m.enabled;
    target_ipv4 = valid_ipv4-trim m.target_ipv4 a.target i;
    port = port_at-port_text m.kind m.port a.port i;
    scheme = scheme_back m.kind m.scheme a.scheme i;
    path = path_back m.kind m.path a.path i;
    host_header = header_back m.kind m.host_header a.host_header i;
    verify_tls = tls_back m.kind m.scheme m.verify_tls a.scheme a.tls i;
    interval_seconds = get_or (interval_back i) 0;
    timeout_seconds = get_or (timeout_back i) 0;
  }

port_check : (k : MonitorKind) (o : Option ℕ) → HasPort k o → (is_icmp k || is_some o) ≡ true
port_check icmp o h = refl
port_check _ o (n, e, lo, hi) = rw e

scheme_check :
    (k : MonitorKind) (o : Option HttpScheme)
    → HasScheme k o
    → (not (is_http k) || is_some o) ≡ true
scheme_check http o (s, e) = rw e
scheme_check icmp o h = refl
scheme_check tcp o h = refl

path_check :
    (k : MonitorKind) (o : Option Text)
    → HasPath k o
    → (not (is_http k) || starts_with slash (get_or (trim_or_null (get_or o slash)) slash)) ≡ true
path_check http o (p, e, s, t) = rw (e, trim_or_null_trimmed p (path_filled p s) t) s
path_check icmp o h = refl
path_check tcp o h = refl

header_check :
    (k : MonitorKind) (o : Option Text)
    → HasHeader k o
    → (not (is_http k) || header_ok (trim_or_null (get_or o []))) ≡ true
header_check http none h = rw trim_or_null-nil
header_check http (some q) h = rw (trim_or_null_trimmed q h.0 h.2) h.1
header_check icmp o h = refl
header_check tcp o h = refl

draft-IsClean :
    {N : Type 0} (m : MonitorRecord N) (ipv4 : Option Text)
    → IsAcceptable (config m)
    → IsClean (monitor_draft_for (some m) ipv4)
draft-IsClean m ipv4 a = record {
  target = unfold monitor_draft_for in (rw (valid_ipv4-trim m.target_ipv4 a.target) a.target);
  interval = rw (interval_back m ipv4 a);
  timeout = rw (timeout_back m ipv4 a);
  port =
      unfold monitor_draft_for in
      (rw (port_at-port_text m.kind m.port a.port) (port_check m.kind m.port a.port));
  scheme = unfold monitor_draft_for in scheme_check m.kind m.scheme a.scheme;
  path = unfold monitor_draft_for in path_check m.kind m.path a.path;
  host_header = unfold monitor_draft_for in header_check m.kind m.host_header a.host_header;
}

-- A stored monitor with an acceptable configuration, put into the form and saved unchanged, gives
-- a valid payload, and that payload is the monitor's configuration.
pub validate-monitor_draft_for :
    {N : Type 0} (m : MonitorRecord N) (ipv4 : Option Text)
    → IsAcceptable (config m)
    → validate_monitor_draft (monitor_draft_for (some m) ipv4) ≡ valid (config m)
validate-monitor_draft_for m ipv4 a =
    validate_clean (monitor_draft_for (some m) ipv4)
      (IsClean-errors_of (monitor_draft_for (some m) ipv4) (draft-IsClean m ipv4 a))
    ∙ ap valid (draft_payload m ipv4 a)

-- So a draft that was saved, read back as the stored monitor and saved again, gives the same
-- payload.
pub saved_draft_stable :
    {N : Type 0} (d : MonitorDraft) (m : MonitorRecord N) (ipv4 : Option Text)
    → validate_monitor_draft d ≡ valid (config m)
    → validate_monitor_draft (monitor_draft_for (some m) ipv4) ≡ valid (config m)
saved_draft_stable d m ipv4 h =
    validate-monitor_draft_for m ipv4 (validate_monitor_draft_sound d (config m) h)
