-- ===== src/Generator/Checking.antt =====
-- What the generator's two modes do to each other.
use network_topology_map.Prelude.{
  ℕ, ◌≡◌, ◌∙◌, sym, refl, ap, Bool, true, false, Option, none, some, List, [], ◌∷◌, ◌++◌, Text,
  codes, text_eq, is_some, All,
}
use network_topology_map.Icon.Manifest.{GeneratedIcon, generated_icon_manifest}
use network_topology_map.Generator.Texts.{
  Source, Export, IconDefinition, FontDefinition, icon_definitions, font_definitions, svg_for,
  frontend_manifest, backend_manifest,
}
use network_topology_map.Generator.{
  Files, Generation, go_on, write_or_check, each, icon_path, font_path, icon_body, font_body,
  font_writes, value_for, frontend_path, backend_path, missing_export, missing_package_file,
  generate,
}
use network_topology_map.Generator.Writing.{
  Script, put, halt, exec, append, Covers, is_distinct, exec-again, exec-settled, exec_complete,
  then_go_ext,
}
use network_topology_map.Generator.Scripting.{
  All-front, Covers-append, single, exec-single, then_go-exec, script_each, paths_each, exec-each,
  Covers-each,
}

-- The file of a bundled icon of the page's list is there.
abbrev pub HasFile : Files → GeneratedIcon → Type 0
HasFile files icon = is_some (files (codes "frontend/public/icons/" ++ icon.asset_file)) ≡ true

module _ (library : Source → Text → Export) (package_file : Text → Text → Option (List ℕ))
    (buffer_from : Text → List ℕ) where
  abbrev icon_write : IconDefinition → Option Text → Script
  icon_write d none = halt (missing_export d)
  icon_write d (some value) = single (icon_path d) (buffer_from (svg_for value))

  abbrev icon_script : IconDefinition → Script
  icon_script d = icon_write d (value_for library d)

  exec-icon_write :
      (c : Bool) (d : IconDefinition) (value : Option Text) (f : Files)
      → icon_body buffer_from c d value f ≡ exec c (icon_write d value) f
  unfolding exec
  exec-icon_write c d none f = refl
  exec-icon_write c d (some value) f =
      sym (exec-single c (icon_path d) (buffer_from (svg_for value)) f)

  Covers-icon_write :
      (d : IconDefinition) (value : Option Text) → Covers (icon_path d ∷ []) (icon_write d value)
  Covers-icon_write d none = tt
  Covers-icon_write d (some value) = (refl, refl)

  abbrev font_put : FontDefinition → Option (List ℕ) → Option (List ℕ) → Script
  font_put font none license = halt (missing_package_file font.package_name font.source_file)
  font_put font (some contents) none =
      halt (missing_package_file font.package_name font.license_file)
  font_put font (some contents) (some license) =
      put (font_path font.output_file) contents
        (single (font_path font.output_license_file) license)

  abbrev font_script : FontDefinition → Script
  font_script font =
      font_put font (package_file font.package_name font.source_file)
        (package_file font.package_name font.license_file)

  exec-font_put :
      (c : Bool) (font : FontDefinition) (contents license : Option (List ℕ)) (f : Files)
      → font_writes c font contents license f ≡ exec c (font_put font contents license) f
  unfolding exec
  exec-font_put c font none license f = refl
  exec-font_put c font (some contents) none f = refl
  exec-font_put c font (some contents) (some license) f =
      let path = font_path font.output_license_file in
      then_go_ext (write_or_check c path license) (exec c (single path license))
        (write_or_check c (font_path font.output_file) contents f)
        (λ g. sym (exec-single c path license g))

  abbrev font_paths : FontDefinition → List Text
  font_paths font = font_path font.output_file ∷ font_path font.output_license_file ∷ []

  Covers-font_put :
      (font : FontDefinition) (contents license : Option (List ℕ))
      → Covers (font_paths font) (font_put font contents license)
  Covers-font_put font none license = tt
  Covers-font_put font (some contents) none = tt
  Covers-font_put font (some contents) (some license) = (refl, (refl, refl))

  abbrev main_script : Script
  main_script =
      append
        (append
          (append (script_each icon_script icon_definitions)
            (script_each font_script font_definitions))
          (single frontend_path (buffer_from (frontend_manifest icon_definitions))))
        (single backend_path (buffer_from (backend_manifest icon_definitions)))

  abbrev main_paths : List Text
  main_paths =
      ((paths_each (λ d. icon_path d ∷ []) icon_definitions
          ++ paths_each font_paths font_definitions)
        ++ (frontend_path ∷ []))
      ++ (backend_path ∷ [])

  main-Covers : Covers main_paths main_script
  main-Covers =
      Covers-append _ (backend_path ∷ []) _ _
        (Covers-append _ (frontend_path ∷ []) _ _
          (Covers-append _ _ _ _
            (Covers-each (λ d. icon_path d ∷ []) icon_script
              (λ d. Covers-icon_write d (value_for library d)) icon_definitions)
            (Covers-each font_paths font_script
              (λ font.
                Covers-font_put font (package_file font.package_name font.source_file)
                  (package_file font.package_name font.license_file))
              font_definitions))
          (refl, refl))
        (refl, refl)

  exec-generate :
      (c : Bool) (f : Files) → generate library package_file buffer_from c f ≡ exec c main_script f
  unfolding generate
  exec-generate c f =
      let frontend = buffer_from (frontend_manifest icon_definitions) in
      let backend = buffer_from (backend_manifest icon_definitions) in
      then_go-exec c (write_or_check c backend_path backend) _ (single backend_path backend)
        (λ g. sym (exec-single c backend_path backend g)) _ f
        (then_go-exec c (write_or_check c frontend_path frontend) _ (single frontend_path frontend)
          (λ g. sym (exec-single c frontend_path frontend g)) _ f
          (then_go-exec c (each (font_body package_file c) font_definitions) _
            (script_each font_script font_definitions)
            (exec-each c (font_body package_file c) font_script
              (λ font.
                exec-font_put c font (package_file font.package_name font.source_file)
                  (package_file font.package_name font.license_file))
              font_definitions)
            _ f
            (exec-each c (λ d. icon_body buffer_from c d (value_for library d)) icon_script
              (λ d. exec-icon_write c d (value_for library d)) icon_definitions f)))

  main_paths_distinct : is_distinct main_paths ≡ true
  unfolding icon_definitions font_definitions text_eq
  main_paths_distinct = refl

  main_paths-HasFile :
      (files : Files)
      → All (λ p. is_some (files p) ≡ true) main_paths
      → All (HasFile files) generated_icon_manifest
  unfolding icon_definitions generated_icon_manifest
  main_paths-HasFile files h =
      let P : Text → Type 0 = λ p. is_some (files p) ≡ true in
      let icons = paths_each (λ d. icon_path d ∷ []) icon_definitions in
      let fonts = paths_each font_paths font_definitions in
      All-front P icons fonts (
        All-front P (icons ++ fonts) (frontend_path ∷ [])
          (All-front P ((icons ++ fonts) ++ (frontend_path ∷ [])) (backend_path ∷ []) h))

  -- A generation that ran to its end: the check of what it left, with the same packages, runs to its
  -- end too and changes nothing; and every icon of the page's list has its file.
  pub generate-check :
      (files : Files)
      → (generate library package_file buffer_from false files).stopped ≡ none
      → let left = (generate library package_file buffer_from false files).files in
        (generate library package_file buffer_from true left ≡ go_on left)
        × All (HasFile left) generated_icon_manifest
  generate-check files h =
      let e = exec-generate false files in
      let stops = ap (λ (g : Generation). g.stopped) (sym e) ∙ h in
      let again = exec-again main_paths main_script files main-Covers main_paths_distinct stops in
      let complete =
        exec_complete main_paths main_script (exec false main_script files).files main-Covers
          (ap (λ (g : Generation). g.stopped) again) in
      rw e (
        exec-generate true (exec false main_script files).files ∙ again,
        main_paths-HasFile _ complete,
      )

  -- Where the check runs to its end, so does a generation, and it leaves every file as it is.
  pub check-generate :
      (files : Files)
      → (generate library package_file buffer_from true files).stopped ≡ none
      → let g = generate library package_file buffer_from false files in
        (g.stopped ≡ none) × ((path : Text) → g.files path ≡ files path)
  check-generate files h = rw (exec-generate false files) (
      exec-settled main_script files files (λ p. refl)
        (ap (λ (g : Generation). g.stopped) (sym (exec-generate true files)) ∙ h))
