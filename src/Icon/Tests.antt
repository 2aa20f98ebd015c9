-- ===== src/Icon/Tests.antt =====
-- Identifiers, and the theorems at them.
use network_topology_map.Prelude.{
  ◌⊎◌, [], ◌≡◌, ◌↔◌, refl, true, false, some, ◌++◌, Text, codes, starts_with,
}
use network_topology_map.Icon.{
  mdi, si, is_remote_mdi_icon_id, is_remote_si_icon_id, remote_mdi_asset_url, remote_si_asset_url,
  fallback_icon,
}
use network_topology_map.Icon.Slugs.{
  Slug, IsTrusted, is_remote_icon_id_iff, remote_asset_url-IsTrusted,
}
use network_topology_map.Monitor.Decimal.{to_string}
use network_topology_map.Icon.Glyph.{
  node_address, new_glyph, glyph_run, IsBundled, IsRemoteOf, glyph_run-IsSafe,
}

slugs :
    (is_remote_mdi_icon_id (codes "mdi-home-2") ≡ true)
    × (is_remote_mdi_icon_id (codes "mdi-home-") ≡ false)
    × (is_remote_si_icon_id (codes "si-a--b") ≡ false)
    × (is_remote_si_icon_id (codes "si-../x") ≡ false)
unfolding is_remote_mdi_icon_id is_remote_si_icon_id starts_with
slugs = (refl, refl, refl, refl)

addresses :
    (remote_mdi_asset_url (codes "mdi-home")
      ≡ some (codes "https://api.iconify.design/mdi/home.svg?color=%2379cde3"))
    × ((fallback_icon (codes "/")).asset_url ≡ codes "/icons/mdi-server.svg")
unfolding remote_mdi_asset_url is_remote_mdi_icon_id fallback_icon starts_with
addresses = (refl, refl)

is_remote_icon_id_iff_example :
    ((is_remote_mdi_icon_id (codes "mdi-home") ≡ true)
      ↔ ((s : Text) × (codes "mdi-home" ≡ mdi ++ s) × Slug s))
    × ((is_remote_si_icon_id (codes "mdi-home") ≡ true)
        ↔ ((s : Text) × (codes "mdi-home" ≡ si ++ s) × Slug s))
is_remote_icon_id_iff_example = is_remote_icon_id_iff (codes "mdi-home")

remote_asset_url-IsTrusted_example :
    (remote_mdi_asset_url (codes "mdi-home")
        ≡ some (codes "https://api.iconify.design/mdi/home.svg?color=%2379cde3")
      → IsTrusted
          (codes "https://api.iconify.design/mdi/")
          mdi
          (codes "mdi-home")
          (codes "https://api.iconify.design/mdi/home.svg?color=%2379cde3"))
    × (remote_si_asset_url (codes "mdi-home")
          ≡ some (codes "https://api.iconify.design/mdi/home.svg?color=%2379cde3")
        → IsTrusted
            (codes "https://api.iconify.design/simple-icons/")
            si
            (codes "mdi-home")
            (codes "https://api.iconify.design/mdi/home.svg?color=%2379cde3"))
remote_asset_url-IsTrusted_example =
    remote_asset_url-IsTrusted (codes "mdi-home")
      (codes "https://api.iconify.design/mdi/home.svg?color=%2379cde3")

glyph_run-IsSafe_example :
    let g = new_glyph (codes "/") (codes "si-zigbee") in
    (IsBundled (codes "/") g.src ⊎ IsRemoteOf (codes "si-zigbee") g.src)
    × IsBundled (codes "/") (glyph_run (codes "/") 3 g).src
    × (glyph_run (codes "/") 3 g ≡ glyph_run (codes "/") 1 g)
glyph_run-IsSafe_example = glyph_run-IsSafe (codes "/") (codes "si-zigbee") 2

shown_address :
    (node_address (some (codes "10.0.0.1")) (some 80) ≡ codes "10.0.0.1:80")
    × (node_address (some []) (some 80) ≡ codes "No address")
unfolding node_address to_string
shown_address = (refl, refl)
