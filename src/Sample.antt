-- ===== src/Sample.antt =====
-- Records that the tests of several modules use. Coordinates are natural numbers there.
use network_topology_map.Prelude.{
  ◌≡◌, ◌⊎◌, ◌+◌, ◌-◌, ◌/◌, min, max, leb, ◌==◌, ==_iff, refl, arith, ℕ, none, some, [], ◌∷◌, Text,
  codes, true,
}
use network_topology_map.Types.{MapRecord, NodeRecord, MonitorRecord, Snapshot, device, http, https}
use network_topology_map.Numbers.{Comparison, Arithmetic}
use network_topology_map.Snapshot.{SnapshotLoadResult}

abbrev pub home : MapRecord ℕ
home = record {
  id = codes "home";
  name = codes "Home";
  viewport_x = 0;
  viewport_y = 0;
  viewport_zoom = 1;
  created_at = [];
  updated_at = [];
}

abbrev pub node_at : Text → ℕ → ℕ → NodeRecord ℕ
node_at id x y = record {
  id = id;
  map_id = codes "home";
  name = id;
  kind = device;
  icon_id = codes "mdi-server";
  hyperlink = none;
  ipv4 = some (codes "10.0.0.1");
  display_port = none;
  group_id = none;
  x = x;
  y = y;
  created_at = [];
  updated_at = [];
}

abbrev pub snapshot_at : ℕ → Snapshot ℕ
snapshot_at revision = record {
  revision = revision;
  map = home;
  nodes = node_at (codes "a") 10 20 ∷ node_at (codes "b") 300 20 ∷ [];
  groups = [];
  links = [];
  monitors = [];
  statuses = [];
}

abbrev pub answer : ℕ → ℕ → SnapshotLoadResult ℕ
answer revision generation = record {
  snapshot = snapshot_at revision;
  request = record { generation = generation };
}

abbrev pub web_check : MonitorRecord ℕ
web_check = record {
  id = codes "m1";
  node_id = codes "a";
  kind = http;
  enabled = true;
  target_ipv4 = codes "10.0.0.27";
  port = some 8443;
  scheme = some https;
  path = some (codes "/health");
  host_header = none;
  verify_tls = true;
  interval_seconds = 30;
  timeout_seconds = 3;
  created_at = [];
  updated_at = [];
  result = none;
}

-- Natural numbers are finite and obey the laws of coordinates; differences that would be negative
-- are zero.
abbrev pub plain : Comparison ℕ
plain = record { same = ◌==◌; finite = λ _. true; same_refl = λ a h. (==_iff a a).1 refl }

pub le_min : (a b c : ℕ) → leb c a ≡ true → leb c b ≡ true → leb c (min a b) ≡ true
le_min a b c h k = ground arith

pub le_total : (a b : ℕ) → (leb a b ≡ true) ⊎ (leb b a ≡ true)
le_total a b = ground arith

pub min_right : (a b : ℕ) → leb (min a b) b ≡ true
min_right a b = ground arith

pub max_right : (a b : ℕ) → leb b (max a b) ≡ true
max_right a b = ground arith

abbrev pub plane : Arithmetic ℕ
plane = record {
  le = leb;
  finite = λ _. true;
  add = λ a b. a + b;
  sub = λ a b. a - b;
  div = λ a b. a / b;
  abs = λ a. a;
  min = min;
  max = max;
  numeral = λ n. n;
  le_total = λ a b f g. le_total a b;
  min_le_right = λ a b f g. min_right a b;
  le_min = λ a b c f g h k. le_min a b c h k;
  le_max_right = λ a b f g. max_right a b;
  max_finite = λ a b f g. refl;
}
