-- ===== src/Editor/Keys.antt =====
-- The keys that reset a draft: a new key means a new entity or a new revision.
use network_topology_map.Prelude.{
  ℕ, ◌≡◌, ◌↔◌, refl, Option, [], ◌∷◌, ◌++◌, Text, codes, get_or, arith, every, true,
}
use network_topology_map.Types.{NodePayload}
use network_topology_map.Numbers.{Comparison}
use network_topology_map.Monitor.Parse.{is_digit}
use network_topology_map.Monitor.Decimal.{to_string-injective, to_string, to_string-digits}
use network_topology_map.Editor.{Point, draft_reset_key, merge_external_position}

-- A text of digits has no colon.
colon_ne_digits : (a : Text) (d d' : Text) → every is_digit d ≡ true → d ≡ a ++ (b':' ∷ d') → ⊥
unfolding is_digit
colon_ne_digits [] [] d' h e = cc
colon_ne_digits [] (c ∷ d) d' h e = ground arith
colon_ne_digits (c ∷ a) [] d' h e = cc
colon_ne_digits (c ∷ a) (c' ∷ d) d' h e = colon_ne_digits a d d' (ground arith) (cc)

-- The last colon tells the two parts of a key apart.
key_parts :
    (a a' d d' : Text)
    → every is_digit d ≡ true
    → every is_digit d' ≡ true
    → a ++ (b':' ∷ d) ≡ a' ++ (b':' ∷ d')
    → (a ≡ a') × (d ≡ d')
key_parts [] [] d d' h h' e = (refl, cc)
key_parts [] (c ∷ a') d d' h h' e = absurd (colon_ne_digits a' d d' h (cc))
key_parts (c ∷ a) [] d d' h h' e = absurd (colon_ne_digits a d' d h' (cc))
key_parts (c ∷ a) (c' ∷ a') d d' h h' e = let (p, q) = key_parts a a' d d' h h' (cc) in (cc, q)

-- Two draft keys are equal exactly if the entities (with "new" for none) and the revisions are: a
-- draft is reset by a change of either, and by nothing else.
pub draft_reset_key_iff :
    (e e' : Option Text) (r r' : ℕ)
    → (draft_reset_key e r ≡ draft_reset_key e' r')
      ↔ ((get_or e (codes "new") ≡ get_or e' (codes "new")) × (r ≡ r'))
unfolding draft_reset_key
draft_reset_key_iff e e' r r' = (
  λ same.
      let (p, q) =
        key_parts (get_or e (codes "new")) (get_or e' (codes "new")) (to_string r) (to_string r')
          (to_string-digits r) (to_string-digits r') same in
      (p, to_string-injective r r' q),
  λ both. cc (both.0, both.1),
)

-- Merging a finite position into a draft puts the draft there, keeps its other fields, and merging
-- it again changes nothing.
pub merge_external_position_lem :
    {N : Type 0} (n : Comparison N) (d : NodePayload N) (p : Point N)
    → n.finite p.x ≡ true
    → n.finite p.y ≡ true
    → let d' = merge_external_position n d p in
      (n.same d'.x p.x ≡ true)
      × (n.same d'.y p.y ≡ true)
      × (record d' { x = d.x; y = d.y } ≡ d)
      × (merge_external_position n d' p ≡ d')
unfolding merge_external_position
merge_external_position_lem n d p fx fy = (
  ground (arith, n.same_refl p.x),
  ground (arith, n.same_refl p.y),
  ground arith,
  ground (arith, n.same_refl p.x, n.same_refl p.y),
)
