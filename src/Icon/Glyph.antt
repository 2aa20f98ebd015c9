-- ===== src/Icon/Glyph.antt =====
-- frontend/src/components/TopologyNode.tsx: the image and the address that a node shows.
use network_topology_map.Prelude.{
  ℕ, zero, suc, ◌≡◌, ◌⊎◌, refl, Bool, true, false, Option, none, some, List, [], ◌∷◌, ◌++◌, Text,
  codes, text_eq, text_eq_refl, any, find, drop, is_empty, Bool-cases, Option-cases, inl, inr,
  arith, ◌==◌, if◌then◌else◌,
}
use network_topology_map.Monitor.Decimal.{to_string}
use network_topology_map.Icon.{
  IconOption, icon_for_id, icon_manifest, fallback_icon, remote_mdi_icon, remote_si_icon,
  remote_mdi_asset_url, remote_si_asset_url, is_remote_mdi_icon_id, is_remote_si_icon_id,
}
use network_topology_map.Icon.Manifest.{generated_icon_manifest}

-- The image: its source, and whether its handler of errors is still set.
pub record Glyph : Type 0 where
  pub src : Text
  pub on_error : Bool

abbrev port_suffix : Option ℕ → Text
port_suffix none = []
port_suffix (some port) = if port == 0 then [] else b':' ∷ to_string port

abbrev or_no_address : Text → Text → Text
or_no_address ipv4 suffix = if is_empty ipv4 then codes "No address" else ipv4 ++ suffix

unfoldable pub node_address : Option Text → Option ℕ → Text
node_address none port = codes "No address"
node_address (some ipv4) port = or_no_address ipv4 (port_suffix port)

-- The one remote address that the identifier stands for.
abbrev pub IsRemoteOf : Text → Text → Type 0
IsRemoteOf id url = (remote_mdi_asset_url id ≡ some url) ⊎ (remote_si_asset_url id ≡ some url)

module _ (base : Text) where
  unfoldable pub new_glyph : Text → Glyph
  new_glyph icon_id = record { src = (icon_for_id base icon_id).asset_url; on_error = true }

  -- the image cannot be loaded
  unfoldable pub glyph_failed : Glyph → Glyph
  glyph_failed g =
      if g.on_error then record { src = (fallback_icon base).asset_url; on_error = false } else g

  unfoldable pub glyph_run : ℕ → Glyph → Glyph
  glyph_run zero g = g
  glyph_run (suc n) g = glyph_run n (glyph_failed g)

  -- The address of a bundled icon.
  abbrev pub IsBundled : Text → Type 0
  IsBundled url = any (λ icon. text_eq icon.asset_url url) (icon_manifest base) ≡ true

  bundled_head :
      (x : IconOption) (xs : List IconOption)
      → any (λ (icon : IconOption). text_eq icon.asset_url x.asset_url) (x ∷ xs) ≡ true
  bundled_head x xs = rw (text_eq_refl x.asset_url) refl

  fallback_icon-IsBundled : IsBundled (fallback_icon base).asset_url
  unfolding fallback_icon icon_manifest generated_icon_manifest
  fallback_icon-IsBundled = bundled_head (fallback_icon base) (drop 1 (icon_manifest base))

  found-IsBundled :
      (p : IconOption → Bool) (xs : List IconOption) (x : IconOption)
      → find p xs ≡ some x
      → any (λ (icon : IconOption). text_eq icon.asset_url x.asset_url) xs ≡ true
  found-IsBundled p [] x h = absurd cc
  found-IsBundled p (y ∷ xs) x h = elim (Bool-cases (p y)) [
    | inl e ↦
        let same : some y ≡ some x = rw e at h in
        let there : y ≡ x = cc in rw there (bundled_head x xs)
    | inr e ↦ let rest = found-IsBundled p xs x (rw e at h) in ground (arith, rest)
  ]

  remote_icon-IsAllowed :
      (id : Text)
      → (IsBundled (remote_mdi_icon base id).asset_url
          ⊎ (remote_mdi_asset_url id ≡ some (remote_mdi_icon base id).asset_url))
        × (IsBundled (remote_si_icon base id).asset_url
            ⊎ (remote_si_asset_url id ≡ some (remote_si_icon base id).asset_url))
  unfolding remote_mdi_icon remote_si_icon
  remote_icon-IsAllowed id = (
    elim (Option-cases (remote_mdi_asset_url id)) [
      | inl e ↦ inl (rw e fallback_icon-IsBundled)
      | inr (url, e) ↦ inr (rw e refl)
    ],
    elim (Option-cases (remote_si_asset_url id)) [
      | inl e ↦ inl (rw e fallback_icon-IsBundled)
      | inr (url, e) ↦ inr (rw e refl)
    ],
  )

  icon_for_id-IsAllowed :
      (id : Text) → let url = (icon_for_id base id).asset_url in IsBundled url ⊎ IsRemoteOf id url
  unfolding icon_for_id
  icon_for_id-IsAllowed id =
      elim (Option-cases (find (λ (icon : IconOption). text_eq icon.id id) (icon_manifest base))) [
        | inr (icon, e) ↦ inl (rw e (found-IsBundled _ (icon_manifest base) icon e))
        | inl e ↦ elim (Bool-cases (is_remote_mdi_icon_id id)) [
          | inl m ↦
              rw (e, m) (elim (remote_icon-IsAllowed id).0 [ inl b ↦ inl b | inr r ↦ inr (inl r) ])
          | inr m ↦ elim (Bool-cases (is_remote_si_icon_id id)) [
            | inl s ↦
                rw (e, m, s)
                  (elim (remote_icon-IsAllowed id).1 [ inl b ↦ inl b | inr r ↦ inr (inr r) ])
            | inr s ↦ rw (e, m, s) (inl fallback_icon-IsBundled)
          ]
        ]
      ]

  glyph_run-stays :
      (n : ℕ) (src : Text)
      → let g : Glyph = record { src = src; on_error = false } in glyph_run n g ≡ g
  unfolding glyph_run glyph_failed
  glyph_run-stays zero src = refl
  glyph_run-stays (suc n) src = glyph_run-stays n src

  -- The image of a node is first a bundled icon, or the remote one that the node's identifier stands
  -- for; once it cannot be loaded it is a bundled icon, and further failures change nothing.
  pub glyph_run-IsSafe :
      (id : Text) (n : ℕ)
      → let url = (new_glyph id).src in
        (IsBundled url ⊎ IsRemoteOf id url)
        × IsBundled (glyph_run (suc n) (new_glyph id)).src
        × (glyph_run (suc n) (new_glyph id) ≡ glyph_run 1 (new_glyph id))
  unfolding new_glyph glyph_run glyph_failed
  glyph_run-IsSafe id n =
      let stays = glyph_run-stays n (fallback_icon base).asset_url in
      (icon_for_id-IsAllowed id, rw stays fallback_icon-IsBundled, stays)
