-- ===== src/Monitor/Targets.antt =====
-- The target that is shown of a monitor tells what it checks.
use network_topology_map.Prelude.{
  ℕ, ◌≡◌, refl, sym, ap, ◌∙◌, true, false, not, Option, none, some, List, [], ◌∷◌, ◌++◌, Text,
  codes, every, split, extend, starts_with, HasNo, first_separator, cancel_front, Bool-cases, inl,
  inr, arith, ◌==◌, get_or,
}
use network_topology_map.Types.{
  MonitorKind, icmp, tcp, http, HttpScheme, plain_http, https, MonitorRecord,
}
use network_topology_map.Monitor.Parse.{is_digit, is_octet, valid_ipv4}
use network_topology_map.Monitor.Decimal.{to_string, to_string-digits, to_string-injective}
use network_topology_map.Monitor.Draft.{slash}
use network_topology_map.Monitor.Sound.{IsAcceptable, HasPort, HasScheme, HasPath}
use network_topology_map.Monitor.RoundTrip.{config}
use network_topology_map.Monitor.Labels.{
  port_or_mark, scheme_text, web_target, target_text, format_monitor_target,
}

abbrev colon : ℕ
colon = b':'

extend-digits :
    (c : ℕ) (ws : List Text)
    → every (every is_digit) (extend c ws) ≡ true
    → (is_digit c ≡ true) × (every (every is_digit) ws ≡ true)
extend-digits c [] h = ground arith
extend-digits c (w ∷ ws) h = ground arith

digit-ne : (c : ℕ) → is_digit c ≡ true → (not (c == colon) ≡ true) × (not (c == b'/') ≡ true)
unfolding is_digit
digit-ne c h = ground arith

octets_digits :
    (parts : List Text) → every is_octet parts ≡ true → every (every is_digit) parts ≡ true
unfolding is_octet
octets_digits [] h = refl
octets_digits (p ∷ parts) h = ground (arith, octets_digits parts)

split-HasNo : (s : Text) → every (every is_digit) (split b'.' s) ≡ true → HasNo colon s
unfolding split
split-HasNo [] h = refl
split-HasNo (c ∷ s) h = elim (Bool-cases (c == b'.')) [
  | inl e ↦ ground (arith, split-HasNo s)
  | inr e ↦
      let (d, ds) = extend-digits c (split b'.' s) (rw e at h) in
      ground (arith, digit-ne c d, split-HasNo s ds)
]

valid_ipv4-HasNo : (s : Text) → valid_ipv4 s ≡ true → HasNo colon s
unfolding valid_ipv4
valid_ipv4-HasNo s h = split-HasNo s (octets_digits (split b'.' s) (ground arith))

digits-HasNo : (s : Text) → every is_digit s ≡ true → HasNo b'/' s
digits-HasNo [] h = refl
digits-HasNo (c ∷ s) h = ground (arith, digit-ne c, digits-HasNo s)

-- Two checks of one kind at one target.
pub record IsSame {N : Type 0} (m m' : MonitorRecord N) : Type 0 where
  pub kind : m.kind ≡ m'.kind
  pub target : m.target_ipv4 ≡ m'.target_ipv4
  pub port : m.port ≡ m'.port
  pub scheme : m.scheme ≡ m'.scheme
  pub path : m.path ≡ m'.path

-- What the text shows, kind by kind.
abbrev Agree :
    MonitorKind
    → MonitorKind
    → Text
    → Text
    → Option ℕ
    → Option ℕ
    → Option HttpScheme
    → Option HttpScheme
    → Option Text
    → Option Text
    → Type 0
Agree k k' t t' p p' s s' u u' = (k ≡ k') × (t ≡ t') × (p ≡ p') × (s ≡ s') × (u ≡ u')

tcp-injective :
    (t t' : Text) (n n' : ℕ)
    → HasNo colon t
    → HasNo colon t'
    → codes "TCP " ++ (t ++ (colon ∷ to_string n)) ≡ codes "TCP " ++ (t' ++ (colon ∷ to_string n'))
    → (t ≡ t') × (n ≡ n')
tcp-injective t t' n n' h h' e =
    let (same, ports) = first_separator colon t t' _ _ h h' (cancel_front (codes "TCP ") _ _ e) in
    (same, to_string-injective n n' ports)

-- A path that starts with a slash, behind its slash.
path_tail : (u : Text) → starts_with slash u ≡ true → (r : Text) × (u ≡ b'/' ∷ r)
unfolding starts_with
path_tail [] h = absurd (ground arith)
path_tail (c ∷ r) h = (r, ap (λ (d : ℕ). d ∷ r) (ground arith))

address-injective :
    (t t' : Text) (n n' : ℕ) (u u' : Text)
    → HasNo colon t
    → HasNo colon t'
    → starts_with slash u ≡ true
    → starts_with slash u' ≡ true
    → t ++ (colon ∷ to_string n ++ u) ≡ t' ++ (colon ∷ to_string n' ++ u')
    → (t ≡ t') × (n ≡ n') × (u ≡ u')
address-injective t t' n n' u u' h h' a a' e =
    let (same, rest) = first_separator colon t t' _ _ h h' e in
    let (r, v) = path_tail u a in
    let (r', v') = path_tail u' a' in
    let (ports, tails) =
      first_separator b'/' (to_string n) (to_string n') r r'
        (digits-HasNo (to_string n) (to_string-digits n))
        (digits-HasNo (to_string n') (to_string-digits n')) (rw (← v, ← v') rest) in
    (same, to_string-injective n n' ports, cc (v, v', tails))

web-injective :
    (s s' : HttpScheme) (t t' : Text) (n n' : ℕ) (u u' : Text)
    → HasNo colon t
    → HasNo colon t'
    → starts_with slash u ≡ true
    → starts_with slash u' ≡ true
    → web_target (scheme_text (some s)) t (to_string n) u
      ≡ web_target (scheme_text (some s')) t' (to_string n') u'
    → (s ≡ s') × (t ≡ t') × (n ≡ n') × (u ≡ u')
web-injective plain_http plain_http t t' n n' u u' h h' a a' e =
    let (x, y, z) =
      address-injective t t' n n' u u' h h' a a' (cancel_front (codes "http://") _ _ e) in
    (refl, x, y, z)
web-injective https https t t' n n' u u' h h' a a' e =
    let (x, y, z) =
      address-injective t t' n n' u u' h h' a a' (cancel_front (codes "https://") _ _ e) in
    (refl, x, y, z)
web-injective plain_http https t t' n n' u u' h h' a a' e = absurd (ground arith)
web-injective https plain_http t t' n n' u u' h h' a a' e = absurd (ground arith)

web_head :
    (s : Option HttpScheme) (target port path : Text)
    → (r : Text) × (web_target (scheme_text s) target port path ≡ b'h' ∷ r)
web_head none target port path = (_, refl)
web_head (some plain_http) target port path = (_, refl)
web_head (some https) target port path = (_, refl)

not_web :
    (c : ℕ) (front : Text) (s : Option HttpScheme) (target port path : Text)
    → (c == b'h') ≡ false
    → c ∷ front ≡ web_target (scheme_text s) target port path
    → ⊥
not_web c front s target port path h e =
    let (r, f) = web_head s target port path in let heads = e ∙ f in ground (arith, heads)

target_text-injective :
    (k k' : MonitorKind) (t t' : Text) (p p' : Option ℕ) (s s' : Option HttpScheme)
    (u u' : Option Text)
    → HasNo colon t × HasNo colon t'
    → HasPort k p × HasPort k' p'
    → HasScheme k s × HasScheme k' s'
    → HasPath k u × HasPath k' u'
    → target_text k t p s u ≡ target_text k' t' p' s' u'
    → Agree k k' t t' p p' s s' u u'
target_text-injective icmp icmp t t' p p' s s' u u' h (q, q') (c, c') (d, d') e =
    (refl, cancel_front (codes "ICMP ") t t' e, cc (q, q'), cc (c, c'), cc (d, d'))
target_text-injective tcp tcp t t' p p' s s' u u' (h, h') ((n, q, _, _), (n', q', _, _)) (c, c')
      (d, d') e =
    let (same, ports) = tcp-injective t t' n n' h h' (rw (q, q') at e) in
    (refl, same, cc (q, q', ports), cc (c, c'), cc (d, d'))
target_text-injective http http t t' p p' s s' u u' (h, h') ((n, q, _, _), (n', q', _, _))
      ((x, c), (x', c')) ((v, d, a, _), (v', d', a', _)) e =
    let (schemes, same, ports, paths) =
      web-injective x x' t t' n n' v v' h h' a a' (rw (q, q', c, c', d, d') at e) in
    (refl, same, cc (q, q', ports), cc (c, c', schemes), cc (d, d', paths))
target_text-injective icmp tcp t t' p p' s s' u u' h q c d e = absurd (ground arith)
target_text-injective tcp icmp t t' p p' s s' u u' h q c d e = absurd (ground arith)
target_text-injective icmp http t t' p p' s s' u u' h q c d e =
    absurd (not_web b'I' _ s' t' (port_or_mark p') (get_or u' (codes "/")) refl e)
target_text-injective tcp http t t' p p' s s' u u' h q c d e =
    absurd (not_web b'T' _ s' t' (port_or_mark p') (get_or u' (codes "/")) refl e)
target_text-injective http icmp t t' p p' s s' u u' h q c d e =
    absurd (not_web b'I' _ s t (port_or_mark p) (get_or u (codes "/")) refl (sym e))
target_text-injective http tcp t t' p p' s s' u u' h q c d e =
    absurd (not_web b'T' _ s t (port_or_mark p) (get_or u (codes "/")) refl (sym e))

-- Two monitors with acceptable configurations are shown with the same target only if they make the
-- same check: the kind, the address, the port, the scheme and the path.
pub format_monitor_target-IsSame :
    {N : Type 0} (m m' : MonitorRecord N)
    → IsAcceptable (config m)
    → IsAcceptable (config m')
    → format_monitor_target m ≡ format_monitor_target m'
    → IsSame m m'
unfolding format_monitor_target
format_monitor_target-IsSame m m' a a' e =
    let (kind, target, port, scheme, path) =
      target_text-injective m.kind m'.kind m.target_ipv4 m'.target_ipv4 m.port m'.port m.scheme
        m'.scheme m.path m'.path
        (valid_ipv4-HasNo m.target_ipv4 a.target, valid_ipv4-HasNo m'.target_ipv4 a'.target)
        (a.port, a'.port) (a.scheme, a'.scheme) (a.path, a'.path) e in
    record { kind = kind; target = target; port = port; scheme = scheme; path = path }
