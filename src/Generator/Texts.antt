-- ===== src/Generator/Texts.antt =====
-- frontend/scripts/generate-icons.mjs: the icons and the fonts that the generator knows, and the texts
-- that it writes.
use network_topology_map.Prelude.{
  ℕ, Option, none, some, List, [], ◌∷◌, ◌++◌, map, Text, codes, if◌then◌else◌, ◌==◌, ltb, ◌+◌, ◌-◌,
  ◌/◌, ◌%◌,
}
use Prim.Native.String.{String}
use network_topology_map.Errors.{join}
use network_topology_map.Icon.Manifest.{GeneratedIcon}

pub data Source : Type 0 where
  mdi_source si_source : Source

pub record IconDefinition : Type 0 where
  pub id : Text
  pub label : Text
  pub glyph : Text
  pub source : Source
  pub export_name : Text

abbrev definition : String → String → String → Source → String → IconDefinition
definition id label glyph source export_name = record {
  id = codes id;
  label = codes label;
  glyph = codes glyph;
  source = source;
  export_name = codes export_name;
}

unfoldable pub icon_definitions : List IconDefinition
icon_definitions =
    definition "mdi-server" "Server" "▦" mdi_source "mdiServer"
    ∷ definition "mdi-router" "Router" "⌁" mdi_source "mdiRouter"
    ∷ definition "mdi-switch" "Switch" "⇄" mdi_source "mdiSwitch"
    ∷ definition "mdi-laptop" "Workstation" "▣" mdi_source "mdiLaptop"
    ∷ definition "mdi-database" "Database" "▤" mdi_source "mdiDatabase"
    ∷ definition "mdi-cloud" "Cloud" "☁" mdi_source "mdiCloud"
    ∷ definition "mdi-cube" "Container" "◇" mdi_source "mdiCube"
    ∷ definition "mdi-kubernetes" "Kubernetes" "⎈" mdi_source "mdiKubernetes"
    ∷ definition "mdi-monitor" "Monitor" "▱" mdi_source "mdiMonitor"
    ∷ definition "mdi-service" "Service" "✦" mdi_source "mdiLanConnect"
    ∷ definition "si-docker" "Docker" "◈" si_source "siDocker"
    ∷ definition "si-kubernetes" "Kubernetes (brand)" "◈" si_source "siKubernetes"
    ∷ definition "si-proxmox" "Proxmox" "◈" si_source "siProxmox"
    ∷ definition "si-github" "GitHub" "◈" si_source "siGithub"
    ∷ definition "si-cloudflare" "Cloudflare" "◈" si_source "siCloudflare"
    ∷ []

pub record FontDefinition : Type 0 where
  pub package_name : Text
  pub source_file : Text
  pub output_file : Text
  pub license_file : Text
  pub output_license_file : Text

unfoldable pub font_definitions : List FontDefinition
font_definitions =
    record {
      package_name = codes "@fontsource-variable/inter";
      source_file = codes "files/inter-latin-wght-normal.woff2";
      output_file = codes "inter-latin-wght-normal.woff2";
      license_file = codes "LICENSE";
      output_license_file = codes "LICENSE-inter.txt";
    }
    ∷ record {
      package_name = codes "@fontsource-variable/jetbrains-mono";
      source_file = codes "files/jetbrains-mono-latin-wght-normal.woff2";
      output_file = codes "jetbrains-mono-latin-wght-normal.woff2";
      license_file = codes "LICENSE";
      output_license_file = codes "LICENSE-jetbrains-mono.txt";
    }
    ∷ []

-- What an icon library exports under a name.
pub data Export : Type 0 where
  text_export : Text → Export
  -- an object whose `path` is a text
  path_export : Text → Export
  other_export : Export

abbrev pub value_of : Source → Export → Option Text
value_of mdi_source (text_export t) = some t
value_of si_source (path_export t) = some t
value_of _ _ = none

unfoldable pub svg_for : Text → Text
svg_for path =
    codes
      "<svg xmlns=\"http://www.w3.org/2000/svg\" viewBox=\"0 0 24 24\" fill=\"#79cde3\"><path d=\""
    ++ (path ++ codes "\"/></svg>\n")

abbrev hex_unit : ℕ → ℕ
hex_unit d = if ltb d 10 then b'0' + d else b'a' + (d - 10)

-- a code unit in JSON.stringify of a well-formed text
abbrev json_unit : ℕ → Text
json_unit c =
    if c == b'"'
    then codes "\\\""
    else if c == b'\\'
    then codes "\\\\"
    else if c == 8
    then codes "\\b"
    else if c == 9
    then codes "\\t"
    else if c == 10
    then codes "\\n"
    else if c == 12
    then codes "\\f"
    else if c == 13
    then codes "\\r"
    else if ltb c 32
    then codes "\\u00" ++ (hex_unit (c / 16) ∷ hex_unit (c % 16) ∷ [])
    else c ∷ []

abbrev json_units : Text → Text
json_units [] = []
json_units (c ∷ s) = json_unit c ++ json_units s

abbrev json_text : Text → Text
json_text s = b'"' ∷ json_units s ++ codes "\""

-- the icon of a definition, as the list for the page has it
abbrev pub generated_of : IconDefinition → GeneratedIcon
generated_of d = record {
  id = d.id;
  label = d.label;
  glyph = d.glyph;
  asset_file = d.id ++ codes ".svg";
}

-- a row of the list for the page
abbrev frontend_row : IconDefinition → Text
frontend_row d =
    let icon = generated_of d in
    codes "  { id: "
    ++ (json_text icon.id
        ++ (codes ", label: "
            ++ (json_text icon.label
                ++ (codes ", glyph: "
                    ++ (json_text icon.glyph
                        ++ (codes ", assetFile: "
                            ++ (json_text icon.asset_file ++ codes " },")))))))

unfoldable pub frontend_manifest : List IconDefinition → Text
unfolding join
frontend_manifest definitions =
    codes
      "// Generated by scripts/generate-icons.mjs. Do not edit manually.\n\nexport interface GeneratedIcon {\n  id: string;\n  label: string;\n  glyph: string;\n  assetFile: string;\n}\n\nexport const GENERATED_ICON_MANIFEST: readonly GeneratedIcon[] = [\n"
    ++ (join (codes "\n") (map frontend_row definitions) ++ codes "\n];\n")

abbrev backend_row : IconDefinition → Text
backend_row d = codes "        " ++ (json_text d.id ++ codes ",")

unfoldable pub backend_manifest : List IconDefinition → Text
unfolding join
backend_manifest definitions =
    codes
      "\"\"\"Generated local icon allowlist. Do not edit manually.\"\"\"\n\nICON_IDS = frozenset(\n    {\n"
    ++ (join (codes "\n") (map backend_row definitions) ++ codes "\n    }\n)\n")
