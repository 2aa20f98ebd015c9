-- ===== src/Icon.antt =====
-- frontend/src/app/iconId.ts and frontend/src/icons.ts: icon identifiers, the bundled icons, and the
-- one remote address that an identifier may stand for. `base` is import.meta.env.BASE_URL, and
-- `lower` is toLocaleLowerCase.
pub mod Manifest
pub mod Slugs
pub mod Lookup
pub mod Glyph
mod Tests
use network_topology_map.Prelude.{
  ℕ, Bool, true, false, not, ◌&&◌, ◌||◌, Option, none, some, List, [], ◌∷◌, ◌++◌, map, Text, codes,
  text_eq, get_or, is_some, any, find, keep, drop, length, if◌then◌else◌, leb, ◌==◌, starts_with,
  includes, trim, is_empty,
}
use Manifest.{GeneratedIcon, generated_icon_manifest}

-- [a-z0-9]
unfoldable pub is_word_unit : ℕ → Bool
is_word_unit c = (leb b'a' c && leb c b'z') || (leb b'0' c && leb c b'9')

-- [a-z0-9]+(?:-[a-z0-9]+)*$, read from left to right; `fresh` means that a word has to begin
unfoldable pub is_slug_from : Bool → Text → Bool
is_slug_from fresh [] = not fresh
is_slug_from fresh (c ∷ s) =
    if is_word_unit c then is_slug_from false s else c == b'-' && not fresh && is_slug_from true s

-- /^p[a-z0-9]+(?:-[a-z0-9]+)*$/
unfoldable pub matches : Text → Text → Bool
unfolding is_slug_from is_word_unit
matches p id = starts_with p id && is_slug_from true (drop (length p) id)

abbrev pub mdi : Text
mdi = codes "mdi-"

abbrev pub si : Text
si = codes "si-"

unfoldable pub is_remote_mdi_icon_id : Text → Bool
unfolding matches
is_remote_mdi_icon_id = matches mdi

unfoldable pub is_remote_si_icon_id : Text → Bool
unfolding matches
is_remote_si_icon_id = matches si

unfoldable pub remote_mdi_asset_url : Text → Option Text
remote_mdi_asset_url id =
    if not (is_remote_mdi_icon_id id)
    then none
    else some (
        codes "https://api.iconify.design/mdi/"
        ++ (drop (length mdi) id ++ codes ".svg?color=%2379cde3"))

unfoldable pub remote_si_asset_url : Text → Option Text
remote_si_asset_url id =
    if not (is_remote_si_icon_id id)
    then none
    else some (
        codes "https://api.iconify.design/simple-icons/"
        ++ (drop (length si) id ++ codes ".svg?color=%2379cde3"))

pub record IconOption : Type 0 where
  pub id : Text
  pub label : Text
  pub glyph : Text
  pub asset_url : Text

no_icon : IconOption
no_icon = record { id = []; label = []; glyph = []; asset_url = [] }

-- `icons[0]`; the manifest is not empty, so the default is never taken
abbrev first_icon : List IconOption → IconOption
first_icon [] = no_icon
first_icon (icon ∷ icons) = icon

module _ (base : Text) where
  abbrev pub local_asset_url : Text → Text
  local_asset_url asset_file = base ++ (codes "icons/" ++ asset_file)

  abbrev option_of : GeneratedIcon → IconOption
  option_of icon = record {
    id = icon.id;
    label = icon.label;
    glyph = icon.glyph;
    asset_url = local_asset_url icon.asset_file;
  }

  pub icon_manifest : List IconOption
  unfolding generated_icon_manifest
  icon_manifest = map option_of generated_icon_manifest

  -- ICON_MANIFEST[0]
  pub fallback_icon : IconOption
  unfolding icon_manifest
  fallback_icon = first_icon icon_manifest

  abbrev remote_option : Text → Text → Text → Option Text → IconOption
  remote_option prefix label id none = fallback_icon
  remote_option prefix label id (some url) = record {
    id = id;
    label = label ++ drop (length prefix) id;
    glyph = [];
    asset_url = url;
  }

  pub remote_mdi_icon : Text → IconOption
  remote_mdi_icon id =
      remote_option mdi (codes "Material Design Icon: ") id (remote_mdi_asset_url id)

  pub remote_si_icon : Text → IconOption
  remote_si_icon id = remote_option si (codes "Simple Icon: ") id (remote_si_asset_url id)

  pub icon_for_id : Text → IconOption
  icon_for_id id = get_or (find (λ icon. text_eq icon.id id) icon_manifest) (
      if is_remote_mdi_icon_id id
      then remote_mdi_icon id
      else if is_remote_si_icon_id id
      then remote_si_icon id
      else fallback_icon)

  pub is_allowlisted_icon_id : Text → Bool
  is_allowlisted_icon_id id = any (λ icon. text_eq icon.id id) icon_manifest

  unfoldable pub is_supported_icon_id : Text → Bool
  is_supported_icon_id id =
      is_allowlisted_icon_id id || is_remote_mdi_icon_id id || is_remote_si_icon_id id

  pub matching_icons : (Text → Text) → Text → List IconOption
  matching_icons lower query =
      let normalized = lower (trim query) in
      if is_empty normalized
      then icon_manifest
      else keep (λ icon. includes normalized icon.id || includes normalized (lower icon.label))
          icon_manifest
