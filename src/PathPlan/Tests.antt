-- ===== src/PathPlan/Tests.antt =====
-- internal/pathplan: runs on a small source tree.
use ocidoc_go.Base.{
  ◌≡◌, inl, refl, true, false, some, List, [], ◌∷◌, Text, codes, Result, ok, All, In, text_eq,
  text_leb, has_prefix, has_suffix, trim_prefix, map, contains_byte, from_last, join, sym, ap,
  ok_inj,
}
use ocidoc_go.Unicode.{ascii_tables, runes, to_lower}
use ocidoc_go.Spec.PathKind.{is_markdown_path, is_document_path, base_name}
use ocidoc_go.Spec.Configs.{ComponentBuildConfig}
use ocidoc_go.PathPlan.Ownership.{Ownership, entry, files_of}
use ocidoc_go.Base.{insert_text, sort_texts}
use ocidoc_go.PathPlan.Compile.{
  PathRules, Matchers, classify_locales, keep_paths, compile_rules, classify_keys,
  classify_component,
}
use ocidoc_go.PathPlan.Compile.Locales.{IsClassified, classify_locales-IsClassified}
use ocidoc_go.PathPlan.Entrypoint.{
  entrypoints_for, detect_entrypoint, first_match, first_file, matches_entrypoint_candidate,
  cut_star, resolve_entrypoints, explicit_entrypoints, detected_entrypoints,
}
use ocidoc_go.PathPlan.Entrypoint.Chosen.{
  Found, is_eligible, IsPlanned, bundled, detect_entrypoint-Found, resolve_entrypoints-IsPlanned,
}
use ocidoc_go.PathPlan.Dependencies.{Kind, file, SourceTree, DependencyError, discover_dependencies}
use ocidoc_go.PathPlan.Dependencies.Fresh.{IsBounded}
use ocidoc_go.PathPlan.Dependencies.Fuel.{discover_dependencies-ends}

-- Rules that are one prefix each.
abbrev prefix_rules : PathRules Text Text Text
prefix_rules = record {
  parse_rules = λ patterns options. ok patterns;
  new_matcher = λ rules options. ok rules;
  excluded = λ rules p. has_prefix p rules;
  included = λ rules p. has_prefix p rules;
}

abbrev matchers : Matchers Text
matchers = record {
  ignore = some (codes "tmp");
  components = (codes "documentation", codes "docs/") ∷ (codes "license", codes "LIC") ∷ [];
}

abbrev tree : List Text
tree = codes "docs/b.md" ∷ codes "docs/a.md" ∷ codes "tmp/x" ∷ codes "LICENSE" ∷ []

abbrev planned_tree : Ownership
planned_tree =
    (codes "documentation", codes "docs/a.md" ∷ codes "docs/b.md" ∷ [])
    ∷ (codes "license", codes "LICENSE" ∷ [])
    ∷ []

detect_entrypoint-Found_example :
    Found
      (is_eligible (codes "license"))
      (codes "a" ∷ codes "LICENSE.md" ∷ [])
      (detect_entrypoint (codes "license") (codes "a" ∷ codes "LICENSE.md" ∷ []))
detect_entrypoint-Found_example =
    detect_entrypoint-Found (codes "license") (codes "a" ∷ codes "LICENSE.md" ∷ [])

detected_license :
    detect_entrypoint (codes "license") (codes "a" ∷ codes "LICENSE.md" ∷ [])
    ≡ some (codes "LICENSE.md")
unfolding detect_entrypoint entrypoints_for entry first_match first_file
    matches_entrypoint_candidate cut_star text_eq has_prefix
detected_license = refl

abbrev declared : List (Text × Text)
declared = (codes "documentation", codes "/docs/b.md") ∷ []

abbrev entrypoints : List (Text × Text)
entrypoints = (codes "documentation", codes "docs/b.md") ∷ (codes "license", codes "LICENSE") ∷ []

entrypoints_run : resolve_entrypoints planned_tree declared ≡ ok entrypoints
unfolding resolve_entrypoints explicit_entrypoints detected_entrypoints detect_entrypoint
    entrypoints_for entry first_match first_file matches_entrypoint_candidate cut_star text_eq
    has_prefix trim_prefix
entrypoints_run = refl

resolve_entrypoints-IsPlanned_example :
    All (IsPlanned planned_tree) entrypoints
    × ((r : Text × Text) → In r (map bundled declared) → In r entrypoints)
resolve_entrypoints-IsPlanned_example =
    resolve_entrypoints-IsPlanned planned_tree declared entrypoints entrypoints_run

abbrev configs : List (Text × ComponentBuildConfig)
configs =
    (
      codes "documentation",
      record {
        locales =
            (codes "en", record { entrypoint = []; paths = codes "docs/a" ∷ []; default = true })
            ∷ [];
        entrypoint = [];
        paths = codes "docs/" ∷ [];
      },
    )
    ∷ []

abbrev localised : List (Text × List (Text × List Text))
localised = (codes "documentation", (codes "en", codes "docs/a.md" ∷ []) ∷ []) ∷ []

localised_runs :
    classify_locales {F = Text} prefix_rules ascii_tables configs planned_tree ≡ ok localised
unfolding classify_locales classify_component classify_keys compile_rules keep_paths files_of entry
    sort_texts insert_text text_leb is_document_path is_markdown_path base_name from_last to_lower
    runes text_eq has_suffix has_prefix contains_byte join
localised_runs = refl

classify_locales-IsClassified_example : All (IsClassified ascii_tables planned_tree) localised
classify_locales-IsClassified_example =
    classify_locales-IsClassified prefix_rules ascii_tables planned_tree configs localised
      localised_runs

-- Every document refers to one picture.
abbrev pictures : SourceTree Text
pictures = record {
  resolve = λ p. ok (file, p);
  resolve_reference = λ p t. ok (file, codes "docs/logo.png");
  read_file = λ p. ok (codes "x");
  local_targets = λ content. codes "logo.png" ∷ [];
  quoted = λ t. t;
}

logo_is_all : IsBounded pictures (codes "docs/logo.png" ∷ [])
logo_is_all p t ref h = inl (sym (ap (λ (x : Kind × Text). x.1) (ok_inj h)))

discover_dependencies-ends_example :
    (r : Result (DependencyError Text) (Ownership × List Text)) × (discover_dependencies pictures
        ascii_tables
        (λ p. false)
        true
        2
        planned_tree
      ≡ some r)
discover_dependencies-ends_example =
    discover_dependencies-ends pictures ascii_tables (λ p. false) true (codes "docs/logo.png" ∷ [])
      planned_tree logo_is_all
