-- ===== src/Snapshot/Order.antt =====
-- The map that is drawn over any traffic of requests and responses: it is the one the coordinator
-- describes, it never goes back, and no newer revision is lost.
use network_topology_map.Prelude.{
  ℕ, max, ◌≡◌, inl, inr, true, false, Option, none, some, List, [], ◌∷◌, arith, Text, id_eq_iff,
  id_eq_refl, Bool-cases, refl,
}
use network_topology_map.Prelude.Int.{pos}
use network_topology_map.Types.{Snapshot}
use network_topology_map.Snapshot.{
  SnapshotCoordinator, SnapshotRequest, SnapshotLoadResult, View, Traffic, start, arrive,
  begin_request, should_apply, apply_snapshot, serve,
}

-- The coordinator knows the map and the revision of the snapshot that is drawn.
abbrev pub Describes : {N : Type 0} → SnapshotCoordinator → Option (Snapshot N) → Type 0
Describes c none = c.map_id ≡ none
Describes c (some s) = (c.map_id ≡ some s.map.id) × (c.revision ≡ pos s.revision)

abbrev pub IsCoherent : {N : Type 0} → View N → Type 0
IsCoherent v = Describes v.coordinator v.snapshot

begin_request-Describes :
    {N : Type 0} (c : SnapshotCoordinator) (o : Option (Snapshot N))
    → Describes c o
    → Describes (begin_request c).0 o
unfolding begin_request
begin_request-Describes c none h = h
begin_request-Describes c (some s) h = h

should_apply-Describes :
    {N : Type 0} (s : Snapshot N) (r : SnapshotRequest) (c : SnapshotCoordinator)
    (o : Option (Snapshot N))
    → Describes c o
    → ((should_apply s r c).1 ≡ true → Describes (should_apply s r c).0 (some s))
      × ((should_apply s r c).1 ≡ false → Describes (should_apply s r c).0 o)
unfolding should_apply
should_apply-Describes s r c none h = ground arith
should_apply-Describes s r c (some old) h = ground (arith, id_eq_iff c.map_id (some s.map.id))

pub apply_snapshot-IsCoherent :
    {N : Type 0} (r : SnapshotLoadResult N) (v : View N)
    → IsCoherent v
    → IsCoherent (apply_snapshot r v).0
unfolding apply_snapshot
apply_snapshot-IsCoherent r v h =
    let (yes_case, no_case) =
      should_apply-Describes r.snapshot r.request v.coordinator v.snapshot h in
    elim (Bool-cases (should_apply r.snapshot r.request v.coordinator).1) [
      | inl e ↦ rw e (yes_case e)
      | inr e ↦ rw e (no_case e)
    ]

-- From a page that draws what its coordinator describes, any requests and responses, in any order,
-- lead to such a page.
pub serve-IsCoherent :
    {N : Type 0} (v : View N) (es : List (Traffic N)) → IsCoherent v → IsCoherent (serve v es)
unfolding serve
serve-IsCoherent v [] h = h
serve-IsCoherent v (start ∷ es) h =
    serve-IsCoherent _ es (begin_request-Describes v.coordinator v.snapshot h)
serve-IsCoherent v (arrive r ∷ es) h =
    serve-IsCoherent (apply_snapshot r v).0 es (apply_snapshot-IsCoherent r v h)

-- All responses are of one map.
abbrev pub OnMap : {N : Type 0} → Text → List (Traffic N) → Type 0
OnMap m [] = Unit
OnMap m (start ∷ es) = OnMap m es
OnMap m (arrive r ∷ es) = (r.snapshot.map.id ≡ m) × OnMap m es

-- The highest revision among `n` and the responses.
abbrev pub newest : {N : Type 0} → ℕ → List (Traffic N) → ℕ
newest n [] = n
newest n (start ∷ es) = newest n es
newest n (arrive r ∷ es) = newest (max n r.snapshot.revision) es

-- The coordinator stands at revision `n` of the map `m`.
abbrev pub StandsAt : SnapshotCoordinator → Text → ℕ → Type 0
StandsAt c m n = (c.map_id ≡ some m) × (c.revision ≡ pos n)

should_apply-StandsAt :
    {N : Type 0} (s : Snapshot N) (r : SnapshotRequest) (c : SnapshotCoordinator) (m : Text) (n : ℕ)
    → s.map.id ≡ m
    → StandsAt c m n
    → StandsAt (should_apply s r c).0 m (max n s.revision)
unfolding should_apply
should_apply-StandsAt s r c m n same at = ground (arith, id_eq_refl (some m))

pub apply_snapshot-StandsAt :
    {N : Type 0} (r : SnapshotLoadResult N) (v : View N) (m : Text) (n : ℕ)
    → r.snapshot.map.id ≡ m
    → StandsAt v.coordinator m n
    → StandsAt (apply_snapshot r v).0.coordinator m (max n r.snapshot.revision)
unfolding apply_snapshot
apply_snapshot-StandsAt r v m n same at =
    let next = should_apply-StandsAt r.snapshot r.request v.coordinator m n same at in
    elim (Bool-cases (should_apply r.snapshot r.request v.coordinator).1) [
      | inl e ↦ rw e next
      | inr e ↦ rw e next
    ]

pub serve-StandsAt :
    {N : Type 0} (m : Text) (n : ℕ) (v : View N) (es : List (Traffic N))
    → OnMap m es
    → StandsAt v.coordinator m n
    → StandsAt (serve v es).coordinator m (newest n es)
unfolding serve
serve-StandsAt m n v [] on at = at
serve-StandsAt m n v (start ∷ es) on at =
    serve-StandsAt m n (record v { coordinator = (begin_request v.coordinator).0 }) es on
      (unfold begin_request in at)
serve-StandsAt m n v (arrive r ∷ es) on at =
    serve-StandsAt m (max n r.snapshot.revision) (apply_snapshot r v).0 es on.1
      (apply_snapshot-StandsAt r v m n on.0 at)

pub drawn_of_StandsAt :
    {N : Type 0} (c : SnapshotCoordinator) (o : Option (Snapshot N)) (m : Text) (n : ℕ)
    → Describes c o
    → StandsAt c m n
    → (s : Snapshot N) × (o ≡ some s) × (s.map.id ≡ m) × (s.revision ≡ n)
drawn_of_StandsAt c none m n d at = cc
drawn_of_StandsAt c (some s) m n d at = (s, refl, ground arith, ground arith)

-- From a page that draws revision `n` of a map, whatever requests start and in whatever order the
-- responses for that map arrive, the page then draws that map at the highest revision among `n`
-- and the responses: it never moves back, and it misses nothing that arrived.
pub serve-newest :
    {N : Type 0} (v : View N) (m : Text) (n : ℕ) (es : List (Traffic N))
    → IsCoherent v
    → StandsAt v.coordinator m n
    → OnMap m es
    → (s : Snapshot N) × ((serve v es).snapshot ≡ some s)
      × (s.map.id ≡ m)
      × (s.revision ≡ newest n es)
serve-newest v m n es h at on =
    drawn_of_StandsAt (serve v es).coordinator (serve v es).snapshot m (newest n es)
      (serve-IsCoherent v es h) (serve-StandsAt m n v es on at)
