-- ===== src/Generator/Tests.antt =====
-- A generation into an empty repository, and the theorems at it.
use network_topology_map.Prelude.{
  ℕ, ◌≡◌, refl, ap, Bool, true, false, Option, none, some, List, map, Text, codes, text_eq, All,
}
use network_topology_map.Icon.Manifest.{generated_icon_manifest}
use network_topology_map.Generator.Texts.{
  Source, mdi_source, si_source, Export, text_export, path_export, icon_definitions,
  font_definitions, generated_of, svg_for,
}
use network_topology_map.Generator.{Files, Generation, go_on, write_or_check, generate}
use network_topology_map.Generator.Checking.{HasFile, generate-check, check-generate}

-- The page's list is the generator's.
lists_agree : map generated_of icon_definitions ≡ generated_icon_manifest
unfolding icon_definitions generated_icon_manifest
lists_agree = refl

-- Every icon is its name.
abbrev library : Source → Text → Export
library mdi_source name = text_export name
library si_source name = path_export name

abbrev package_file : Text → Text → Option (List ℕ)
package_file name path = some path

abbrev run_on : Bool → Files → Generation
run_on = generate library package_file (λ t. t)

abbrev left : Files
left = (run_on false (λ p. none)).files

generates : (run_on false (λ p. none)).stopped ≡ none
unfolding generate write_or_check icon_definitions font_definitions
generates = refl

icon_written :
    left (codes "frontend/public/icons/si-docker.svg") ≡ some (svg_for (codes "siDocker"))
unfolding generate write_or_check icon_definitions font_definitions text_eq
icon_written = refl

generate-check_example :
    (run_on true left ≡ go_on left) × All (HasFile left) generated_icon_manifest
generate-check_example = generate-check library package_file (λ t. t) (λ p. none) generates

checks : (run_on true left).stopped ≡ none
checks = ap (λ (g : Generation). g.stopped) generate-check_example.0

check-generate_example :
    let g = run_on false left in (g.stopped ≡ none) × ((path : Text) → g.files path ≡ left path)
check-generate_example = check-generate library package_file (λ t. t) left checks
