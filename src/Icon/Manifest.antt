-- ===== src/Icon/Manifest.antt =====
-- frontend/src/generated/icon-manifest.ts: the bundled icons.
use network_topology_map.Prelude.{List, [], ◌∷◌, Text, codes}
use Prim.Native.String.{String}

pub record GeneratedIcon : Type 0 where
  pub id : Text
  pub label : Text
  pub glyph : Text
  pub asset_file : Text

abbrev icon : String → String → String → String → GeneratedIcon
icon id label glyph asset_file = record {
  id = codes id;
  label = codes label;
  glyph = codes glyph;
  asset_file = codes asset_file;
}

unfoldable pub generated_icon_manifest : List GeneratedIcon
generated_icon_manifest =
    icon "mdi-server" "Server" "▦" "mdi-server.svg"
    ∷ icon "mdi-router" "Router" "⌁" "mdi-router.svg"
    ∷ icon "mdi-switch" "Switch" "⇄" "mdi-switch.svg"
    ∷ icon "mdi-laptop" "Workstation" "▣" "mdi-laptop.svg"
    ∷ icon "mdi-database" "Database" "▤" "mdi-database.svg"
    ∷ icon "mdi-cloud" "Cloud" "☁" "mdi-cloud.svg"
    ∷ icon "mdi-cube" "Container" "◇" "mdi-cube.svg"
    ∷ icon "mdi-kubernetes" "Kubernetes" "⎈" "mdi-kubernetes.svg"
    ∷ icon "mdi-monitor" "Monitor" "▱" "mdi-monitor.svg"
    ∷ icon "mdi-service" "Service" "✦" "mdi-service.svg"
    ∷ icon "si-docker" "Docker" "◈" "si-docker.svg"
    ∷ icon "si-kubernetes" "Kubernetes (brand)" "◈" "si-kubernetes.svg"
    ∷ icon "si-proxmox" "Proxmox" "◈" "si-proxmox.svg"
    ∷ icon "si-github" "GitHub" "◈" "si-github.svg"
    ∷ icon "si-cloudflare" "Cloudflare" "◈" "si-cloudflare.svg"
    ∷ []
