-- ===== src/Canvas/Edges.antt =====
-- The edges of the canvas: when parallel lines are set apart.
use network_topology_map.Prelude.{
  HasNo, first_separator, ℕ, suc, ◌+◌, ◌≡◌, ◌↔◌, refl, ap, sym, ◌∙◌, ◌&&◌, Option, List, [], ◌∷◌,
  map, Text, text_eq, text_eq_iff, get_or, ◌==◌, ltb, if◌then◌else◌, arith,
}
use network_topology_map.Types.{LinkRecord, LinkHandle, top, right, bottom, left, virtual, Snapshot}
use network_topology_map.Numbers.{Arithmetic}
use network_topology_map.Editor.{Table, get, set}
use network_topology_map.Editor.Moves.{get-set}
use network_topology_map.Canvas.{
  FlowEdge, attachment_key, attachment_counts, edge_of, plain_edges, nodes_by_id, to_flow_edges,
  kind_eq, handle_text,
}

-- how many edges have the key
abbrev pub sharing : Text → List FlowEdge → ℕ
sharing k [] = 0
sharing k (e ∷ es) = if text_eq (attachment_key e) k then suc (sharing k es) else sharing k es

get-attachment_counts :
    (k : Text) (es : List FlowEdge) (t : Table ℕ)
    → get_or (get k (attachment_counts es t)) 0 ≡ sharing k es + get_or (get k t) 0
unfolding attachment_counts
get-attachment_counts k [] t = omega arith
get-attachment_counts k (e ∷ es) t =
    let n = get_or (get (attachment_key e) t) 0 + 1 in
    ground (
      arith,
      get-attachment_counts k es (set (attachment_key e) n t),
      get-set (attachment_key e) k n t,
      text_eq_iff (attachment_key e) k,
    )

module _ {N : Type 0} (a : Arithmetic N) where
  -- The edge of a link with the offset that the edges' keys call for.
  abbrev pub spread : List FlowEdge → LinkRecord → FlowEdge → FlowEdge
  spread edges link edge = record edge {
    parallel_offset =
        if kind_eq link.kind virtual && ltb 1 (sharing (attachment_key edge) edges) then 28 else 0;
  }

  spread_counts :
      (edges : List FlowEdge) (edge : FlowEdge)
      → get_or (get (attachment_key edge) (attachment_counts edges [])) 0
        ≡ sharing (attachment_key edge) edges
  unfolding get
  spread_counts edges edge = ground (arith, get-attachment_counts (attachment_key edge) edges [])

  -- Every link is drawn by its own edge, in the order of the links, and an edge is set apart exactly
  -- if its link is virtual and the edges of two links or more have its attachment.
  pub to_flow_edges_lem :
      (snapshot : Snapshot N) (selected : Option Text)
      → let edges = plain_edges a snapshot selected in
        to_flow_edges a snapshot selected
        ≡ map
            (λ (link : LinkRecord).
              spread edges link (edge_of a (nodes_by_id a snapshot.nodes) selected link))
            snapshot.links
  unfolding to_flow_edges
  to_flow_edges_lem snapshot selected =
      let edges = plain_edges a snapshot selected in
      ap
        (λ (count : FlowEdge → ℕ).
          map
            (λ (link : LinkRecord).
              let edge = edge_of a (nodes_by_id a snapshot.nodes) selected link in
              record edge {
                parallel_offset = if kind_eq link.kind virtual && ltb 1 (count edge) then 28 else 0;
              })
            snapshot.links)
        (λ i edge. spread_counts edges edge i)

abbrev pub HasNoColon : Text → Type 0
HasNoColon = HasNo b':'

handle_text-HasNoColon : (h : LinkHandle) → HasNoColon (handle_text h)
handle_text-HasNoColon top = refl
handle_text-HasNoColon right = refl
handle_text-HasNoColon bottom = refl
handle_text-HasNoColon left = refl

abbrev read_handle : Text → LinkHandle
read_handle [] = left
read_handle (c ∷ s) =
    if c == b't' then top else if c == b'r' then right else if c == b'b' then bottom else left

read_handle-handle_text : (h : LinkHandle) → read_handle (handle_text h) ≡ h
read_handle-handle_text top = refl
read_handle-handle_text right = refl
read_handle-handle_text bottom = refl
read_handle-handle_text left = refl

handle_text-injective : (h h' : LinkHandle) → handle_text h ≡ handle_text h' → h ≡ h'
handle_text-injective h h' e =
    sym (read_handle-handle_text h) ∙ ap read_handle e ∙ read_handle-handle_text h'

-- Edges between nodes whose identifiers have no colon have the same key exactly if they attach to
-- the same sides of the same nodes in the same direction.
pub attachment_key_iff :
    (e e' : FlowEdge)
    → HasNoColon e.source
    → HasNoColon e.target
    → HasNoColon e'.source
    → HasNoColon e'.target
    → (attachment_key e ≡ attachment_key e') ↔ (
        (e.source ≡ e'.source)
        × (e.source_handle ≡ e'.source_handle)
        × (e.target ≡ e'.target)
        × (e.target_handle ≡ e'.target_handle))
unfolding attachment_key
attachment_key_iff e e' hs ht hs' ht' = (
  λ same.
      let (p, r) = first_separator b':' e.source e'.source _ _ hs hs' same in
      let (q, r') =
        first_separator b':' (handle_text e.source_handle) (handle_text e'.source_handle) _ _
          (handle_text-HasNoColon e.source_handle) (handle_text-HasNoColon e'.source_handle) r in
      let (t, u) = first_separator b':' e.target e'.target _ _ ht ht' r' in
      (p, handle_text-injective _ _ q, t, handle_text-injective _ _ u),
  λ same. cc (same.0, same.1, same.2, same.3),
)
