-- ===== src/Canvas/Links.antt =====
-- Which link joins two nodes.
use network_topology_map.Prelude.{
  ◌≡◌, refl, ap, Bool, true, false, none, some, List, [], ◌∷◌, Text, text_eq_iff, any, find,
  find-eq-none, find-eq-some, Option-cases, Bool-cases, is_some, inl, inr, arith, ◌⊎◌, ◌↔◌, All,
}
use network_topology_map.Types.{LinkRecord, LinkKind, local, virtual}
use network_topology_map.Canvas.{matching_link, joins, kind_eq}

-- A link of the kind between the two nodes, in either direction.
abbrev pub Joins : Text → Text → LinkKind → LinkRecord → Type 0
Joins source target kind link =
    (link.kind ≡ kind)
    × (((link.source_node_id ≡ source) × (link.target_node_id ≡ target))
        ⊎ ((link.source_node_id ≡ target) × (link.target_node_id ≡ source)))

kind_eq_iff : (k j : LinkKind) → (kind_eq k j ≡ true) ↔ (k ≡ j)
kind_eq_iff local local = (λ _. refl, λ _. refl)
kind_eq_iff local virtual = ground arith
kind_eq_iff virtual local = ground arith
kind_eq_iff virtual virtual = (λ _. refl, λ _. refl)

joins_iff :
    (source target : Text) (kind : LinkKind) (link : LinkRecord)
    → (joins source target kind link ≡ true) ↔ Joins source target kind link
joins_iff source target kind link = ground (
  arith,
  kind_eq_iff link.kind kind,
  text_eq_iff link.source_node_id source,
  text_eq_iff link.target_node_id target,
  text_eq_iff link.source_node_id target,
  text_eq_iff link.target_node_id source,
)

none_joins :
    (links : List LinkRecord) (source target : Text) (kind : LinkKind)
    → any (joins source target kind) links ≡ false
    → All (λ link. Joins source target kind link → ⊥) links
none_joins [] source target kind h = tt
none_joins (link ∷ links) source target kind h = (
  λ j. ground (arith, (joins_iff source target kind link).1 j),
  none_joins links source target kind (ground arith),
)

-- The link found for two nodes and a kind joins them, in either direction, with that kind; if none is
-- found, no link does; and the order of the two nodes makes no difference.
pub matching_link_lem :
    (links : List LinkRecord) (source target : Text) (kind : LinkKind)
    → (((link : LinkRecord) × (matching_link links source target kind ≡ some link)
          × Joins source target kind link)
        ⊎ ((matching_link links source target kind ≡ none)
            × All (λ link. Joins source target kind link → ⊥) links))
      × (matching_link links source target kind ≡ matching_link links target source kind)
unfolding matching_link
matching_link_lem links source target kind = (
  elim (Option-cases (find (joins source target kind) links)) [
    | inl missing ↦ inr (
      missing,
      none_joins links source target kind (find-eq-none (joins source target kind) links missing),
    )
    | inr (link, found) ↦ inl (
      link,
      found,
      (joins_iff source target kind link).0 (find-eq-some (joins source target kind) links found),
    )
  ],
  ap (λ (p : LinkRecord → Bool). find p links) (λ i link. swap link i),
)
  where
    swap : (link : LinkRecord) → joins source target kind link ≡ joins target source kind link
    swap link = ground arith

-- No link of the kind lies between the two nodes, in either direction.
abbrev pub IsApart : Text → Text → LinkKind → List LinkRecord → Type 0
IsApart source target kind links = All (λ link. Joins source target kind link → ⊥) links

find-IsApart :
    (links : List LinkRecord) (source target : Text) (kind : LinkKind)
    → IsApart source target kind links
    → is_some (find (joins source target kind) links) ≡ false
find-IsApart [] source target kind h = refl
find-IsApart (link ∷ links) source target kind (h, hs) =
    elim (Bool-cases (joins source target kind link)) [
      | inl e ↦ absurd (h ((joins_iff source target kind link).0 e))
      | inr e ↦ rw e (find-IsApart links source target kind hs)
    ]

pub matching_link-none_iff :
    (links : List LinkRecord) (source target : Text) (kind : LinkKind)
    → (is_some (matching_link links source target kind) ≡ false) ↔ IsApart source target kind links
unfolding matching_link
matching_link-none_iff links source target kind = (
  λ h. elim (Option-cases (find (joins source target kind) links)) [
    | inl missing ↦
        none_joins links source target kind (find-eq-none (joins source target kind) links missing)
    | inr (link, found) ↦ absurd (ground (arith, found))
  ],
  find-IsApart links source target kind,
)
