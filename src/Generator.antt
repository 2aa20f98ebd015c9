-- ===== src/Generator.antt =====
-- frontend/scripts/generate-icons.mjs: the generator of the bundled icons and of their two lists.
-- Paths are relative to the repository's root; a file holds bytes. The icon libraries, the fonts'
-- packages and Node's `Buffer.from` are parameters.
pub mod Texts
pub mod Writing
mod Scripting
mod Checking
mod Tests
use network_topology_map.Prelude.{
  ℕ, Bool, true, false, Option, none, some, List, [], ◌∷◌, ◌++◌, map, Text, codes, text_eq,
  if◌then◌else◌, ◌==◌, ltb, ◌+◌, ◌-◌, ◌/◌, ◌%◌,
}
use Texts.{
  Source, Export, IconDefinition, FontDefinition, icon_definitions, font_definitions, value_of,
  svg_for, frontend_manifest, backend_manifest,
}

abbrev pub Files : Type 0
Files = Text → Option (List ℕ)

-- Why a run stops.
pub data Stop : Type 0 where
  missing_export : IconDefinition → Stop
  missing_package_file : Text → Text → Stop
  missing_asset : Text → Stop
  stale_asset : Text → Stop

-- The files that a run leaves, and why it stopped, if it did.
pub record Generation : Type 0 where
  pub files : Files
  pub stopped : Option Stop

abbrev pub go_on : Files → Generation
go_on files = record { files = files; stopped = none }

abbrev pub stop : Stop → Files → Generation
stop reason files = record { files = files; stopped = some reason }

abbrev pub bytes_eq : List ℕ → List ℕ → Bool
bytes_eq = text_eq

abbrev pub put_file : Text → List ℕ → Files → Files
put_file path contents files p = if text_eq path p then some contents else files p

abbrev pub check_file : Text → List ℕ → Option (List ℕ) → Files → Generation
check_file path contents none files = stop (missing_asset path) files
check_file path contents (some existing) files =
    if bytes_eq existing contents then go_on files else stop (stale_asset path) files

unfoldable pub write_or_check : Bool → Text → List ℕ → Files → Generation
write_or_check check_only path contents files =
    if check_only
    then check_file path contents (files path) files
    else go_on (put_file path contents files)

-- the next statement, unless the run has stopped
abbrev pub then_go : (Files → Generation) → Generation → Generation
then_go next g = elim g.stopped [ none ↦ next g.files | some reason ↦ g ]

-- a `for` loop
abbrev pub each : {A : Type 0} → (A → Files → Generation) → List A → Files → Generation
each body [] files = go_on files
each body (a ∷ rest) files = then_go (each body rest) (body a files)

abbrev pub icon_path : IconDefinition → Text
icon_path d = codes "frontend/public/icons/" ++ (d.id ++ codes ".svg")

abbrev pub font_path : Text → Text
font_path name = codes "frontend/public/fonts/" ++ name

abbrev pub font_writes :
    Bool → FontDefinition → Option (List ℕ) → Option (List ℕ) → Files → Generation
font_writes check_only font none license files =
    stop (missing_package_file font.package_name font.source_file) files
font_writes check_only font (some contents) none files =
    stop (missing_package_file font.package_name font.license_file) files
font_writes check_only font (some contents) (some license) files =
    then_go (write_or_check check_only (font_path font.output_license_file) license)
      (write_or_check check_only (font_path font.output_file) contents files)

abbrev pub icon_body : (Text → List ℕ) → Bool → IconDefinition → Option Text → Files → Generation
icon_body buffer_from check_only d none files = stop (missing_export d) files
icon_body buffer_from check_only d (some value) files =
    write_or_check check_only (icon_path d) (buffer_from (svg_for value)) files

abbrev pub font_body : (Text → Text → Option (List ℕ)) → Bool → FontDefinition → Files → Generation
font_body package_file check_only font =
    font_writes check_only font (package_file font.package_name font.source_file)
      (package_file font.package_name font.license_file)

abbrev pub value_for : (Source → Text → Export) → IconDefinition → Option Text
value_for library d = value_of d.source (library d.source d.export_name)

abbrev pub frontend_path : Text
frontend_path = codes "frontend/src/generated/icon-manifest.ts"

abbrev pub backend_path : Text
backend_path = codes "backend/app/icon_manifest.py"

module _ (library : Source → Text → Export) (package_file : Text → Text → Option (List ℕ))
    (buffer_from : Text → List ℕ) where
  -- `main`
  unfoldable pub generate : Bool → Files → Generation
  generate check_only files =
      let icons =
        each (λ d. icon_body buffer_from check_only d (value_for library d)) icon_definitions
          files in
      let fonts = then_go (each (font_body package_file check_only) font_definitions) icons in
      let manifest =
        then_go
          (write_or_check check_only frontend_path
            (buffer_from (frontend_manifest icon_definitions)))
          fonts in
      then_go
        (write_or_check check_only backend_path (buffer_from (backend_manifest icon_definitions)))
        manifest
