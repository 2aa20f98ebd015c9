-- ===== src/Icon/Lookup.antt =====
-- Which icon an identifier shows.
use network_topology_map.Prelude.{
  ◌≡◌, Bool, true, false, some, List, [], ◌∷◌, Text, arith, any, find, Option-cases, inl, inr,
  text_eq, text_eq_iff, find-eq-some, find-eq-none, All, Bool-cases, keep, trim, is_empty,
  text_eq_refl, refl,
}
use network_topology_map.Icon.{
  IconOption, is_remote_mdi_icon_id, is_remote_si_icon_id, remote_mdi_asset_url,
  remote_si_asset_url, icon_manifest, fallback_icon, icon_for_id, is_supported_icon_id,
  is_allowlisted_icon_id, remote_mdi_icon, remote_si_icon, matching_icons,
}

found_any :
    (p : IconOption → Bool) (icons : List IconOption) {i : IconOption}
    → find p icons ≡ some i
    → any p icons ≡ true
found_any p [] h = cc
found_any p (x ∷ icons) {i} h = ground (arith, found_any p icons {i = i})

abbrev named : Text → IconOption → Bool
named id icon = text_eq icon.id id

module _ (base id : Text) where
  remote_mdi_icon_id : is_remote_mdi_icon_id id ≡ true → (remote_mdi_icon base id).id ≡ id
  unfolding remote_mdi_icon remote_mdi_asset_url
  remote_mdi_icon_id h = rw h

  remote_si_icon_id : is_remote_si_icon_id id ≡ true → (remote_si_icon base id).id ≡ id
  unfolding remote_si_icon remote_si_asset_url
  remote_si_icon_id h = rw h

  -- A supported identifier shows an icon with that identifier; any other shows the fallback.
  pub icon_for_id_lem :
      (is_supported_icon_id base id ≡ true → (icon_for_id base id).id ≡ id)
      × (is_supported_icon_id base id ≡ false → icon_for_id base id ≡ fallback_icon base)
  unfolding is_supported_icon_id is_allowlisted_icon_id icon_for_id
  icon_for_id_lem = elim (Option-cases (find (named id) (icon_manifest base))) [
    | inl missing ↦ ground (
      arith,
      find-eq-none (named id) (icon_manifest base) missing,
      remote_mdi_icon_id,
      remote_si_icon_id,
    )
    | inr (icon, found) ↦ ground (
      arith,
      find-eq-some (named id) (icon_manifest base) found,
      text_eq_iff icon.id id,
      found_any (named id) (icon_manifest base) found,
    )
  ]

any-named :
    (x : IconOption) (xs ys : List IconOption)
    → All (λ i. any (named i.id) xs ≡ true) ys
    → All (λ i. any (named i.id) (x ∷ xs) ≡ true) ys
any-named x xs [] h = tt
any-named x xs (y ∷ ys) (h, hs) = (ground (arith, h), any-named x xs ys hs)

-- Every icon of a list is named in it.
any_self : (xs : List IconOption) → All (λ i. any (named i.id) xs ≡ true) xs
any_self [] = tt
any_self (x ∷ xs) = (rw (text_eq_refl x.id) refl, any-named x xs xs (any_self xs))

keep-All :
    (P : IconOption → Type 0) (p : IconOption → Bool) (xs : List IconOption)
    → All P xs
    → All P (keep p xs)
keep-All P p [] h = tt
keep-All P p (x ∷ xs) (h, hs) = elim (Bool-cases (p x)) [
  | inl e ↦ rw e (h, keep-All P p xs hs)
  | inr e ↦ rw e (keep-All P p xs hs)
]

allowed-All :
    (base : Text) (xs : List IconOption)
    → All (λ i. any (named i.id) (icon_manifest base) ≡ true) xs
    → All (λ i. is_supported_icon_id base i.id ≡ true) xs
unfolding is_supported_icon_id is_allowlisted_icon_id
allowed-All base [] h = tt
allowed-All base (x ∷ xs) (h, hs) = (rw h refl, allowed-All base xs hs)

pub matching_icons-supported :
    (base : Text) (lower : Text → Text) (query : Text)
    → All (λ icon. is_supported_icon_id base icon.id ≡ true) (matching_icons base lower query)
unfolding matching_icons
matching_icons-supported base lower query =
    let all = allowed-All base (icon_manifest base) (any_self (icon_manifest base)) in
    elim (Bool-cases (is_empty (lower (trim query)))) [
      | inl e ↦ rw e all
      | inr e ↦ rw e (keep-All _ _ (icon_manifest base) all)
    ]
