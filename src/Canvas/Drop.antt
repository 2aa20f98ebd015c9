-- ===== src/Canvas/Drop.antt =====
-- Where a dropped node goes.
use network_topology_map.Prelude.{
  ◌≡◌, refl, Bool, true, false, Option, none, some, List, [], ◌∷◌, Text, any, find, find-eq-none,
  find-eq-some, Option-cases, inl, inr, ◌⊎◌, All, Bool-cases, sym,
}
use network_topology_map.Types.{GroupRecord}
use network_topology_map.Numbers.{Arithmetic}
use network_topology_map.Editor.{Point}
use network_topology_map.Canvas.{
  group_drop_position, holds_center, left_bound, right_bound, top_bound, bottom_bound, clamp,
}

unwrap : {A : Type 0} (x y : A) → some x ≡ some y → x ≡ y
unwrap x y e = cc

module _ {N : Type 0} (a : Arithmetic N) where
  abbrev pub IsFinite : N → Type 0
  IsFinite v = a.finite v ≡ true

  abbrev pub Below : N → N → Type 0
  Below v w = a.le v w ≡ true

  -- A group with finite bounds that is large enough for a node within its padding.
  pub record IsRoomy (group : GroupRecord N) : Type 0 where
    pub left_finite : IsFinite (left_bound a group)
    pub right_finite : IsFinite (right_bound a group)
    pub top_finite : IsFinite (top_bound a group)
    pub bottom_finite : IsFinite (bottom_bound a group)
    pub wide : Below (left_bound a group) (right_bound a group)
    pub high : Below (top_bound a group) (bottom_bound a group)

  clamp_between :
      (value low high : N)
      → IsFinite value
      → IsFinite low
      → IsFinite high
      → Below low high
      → Below low (clamp a value low high) × Below (clamp a value low high) high
  clamp_between value low high fv fl fh h = (
    a.le_min (a.max value low) high low (a.max_finite value low fv fl) fh
        (a.le_max_right value low fv fl) h,
    a.min_le_right (a.max value low) high (a.max_finite value low fv fl) fh,
  )

  -- What a drop at `position` gives, if it lands in the group.
  pub record LandsIn (position : Point N) (dropped : Option Text × Point N) (group : GroupRecord N)
      : Type 0 where
    pub id : dropped.0 ≡ some group.id
    pub center : holds_center a position group ≡ true
    pub right_of : Below (left_bound a group) dropped.1.x
    pub left_of : Below dropped.1.x (right_bound a group)
    pub under : Below (top_bound a group) dropped.1.y
    pub over : Below dropped.1.y (bottom_bound a group)

  found-All :
      (P : GroupRecord N → Type 0) (p : GroupRecord N → Bool) (gs : List (GroupRecord N))
      (g : GroupRecord N)
      → All P gs
      → find p gs ≡ some g
      → P g
  found-All P p [] g h e = cc
  found-All P p (x ∷ gs) g (hx, h) e = elim (Bool-cases (p x)) [
    | inl here ↦ rw (sym (unwrap x g (rw here at e))) hx
    | inr on ↦ found-All P p gs g h (rw on at e)
  ]

  drop_into-LandsIn :
      (groups : List (GroupRecord N)) (position : Point N) (group : GroupRecord N)
      → IsFinite position.x
      → IsFinite position.y
      → IsRoomy group
      → find (holds_center a position) groups ≡ some group
      → LandsIn position (group_drop_position a groups position) group
  unfolding group_drop_position
  drop_into-LandsIn groups position group fx fy r found =
      let (h1, h2) =
        clamp_between position.x (left_bound a group) (right_bound a group) fx r.left_finite
          r.right_finite r.wide in
      let (v1, v2) =
        clamp_between position.y (top_bound a group) (bottom_bound a group) fy r.top_finite
          r.bottom_finite r.high in
      rw found (record {
        id = refl;
        center = find-eq-some (holds_center a position) groups found;
        right_of = h1;
        left_of = h2;
        under = v1;
        over = v2;
      })

  -- With groups that are large enough for a node, a node dropped at a finite position either has its
  -- centre in no group, and then stays there in no group; or it joins the first group that holds its
  -- centre, at a place within that group's padding and below its title.
  pub group_drop_position_lem :
      (groups : List (GroupRecord N)) (position : Point N)
      → IsFinite position.x
      → IsFinite position.y
      → All IsRoomy groups
      → ((any (holds_center a position) groups ≡ false)
          × (group_drop_position a groups position ≡ (none, position)))
        ⊎ ((group : GroupRecord N) × (find (holds_center a position) groups ≡ some group)
            × LandsIn position (group_drop_position a groups position) group)
  unfolding group_drop_position
  group_drop_position_lem groups position fx fy roomy =
      elim (Option-cases (find (holds_center a position) groups)) [
        | inl missing ↦ inl (find-eq-none (holds_center a position) groups missing, rw missing refl)
        | inr (group, found) ↦
            let r = found-All IsRoomy (holds_center a position) groups group roomy found in
            inr (group, found, drop_into-LandsIn groups position group fx fy r found)
      ]
