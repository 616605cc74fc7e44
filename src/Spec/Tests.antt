-- ===== src/Spec/Tests.antt =====
-- Runs of the validators on concrete inputs, and the theorems at such inputs.
use ocidoc_go.Base.{
  ◌≡◌, ◌↔◌, ◌⊎◌, inl, inr, refl, false, true, none, some, List, [], ◌∷◌, ◌≤◌, Text, codes, In, All,
  Pairs, contains_byte, has_prefix, split, text_eq, has_suffix, before, trim_prefix, pos,
}
use ocidoc_go.Unicode.{ascii_tables, runes, valid_utf8, to_upper, to_lower}
use ocidoc_go.GoPath.{is_abs, clean}
use ocidoc_go.GoPath.Clean.{IsNormal}
use ocidoc_go.Spec.Errors.{dot_dot_segment, not_portable, reserved_name, case_collision}
use ocidoc_go.Spec.BundlePath.{
  path_error, reserved_windows_names, is_unportable, is_drive_path, is_listed, is_port_suffix,
  is_reserved_windows_name, validate_segment, validate_segments, validate_bundle_path,
}
use ocidoc_go.Spec.BundlePath.Safety.{accepted-clean, accepted-lacks}
use ocidoc_go.Spec.BundlePath.Reserved.{IsPortName, is_reserved_windows_name_iff}
use ocidoc_go.Spec.BundleTree.{
  collision, keys, find, put, has_children, or_new, finish, walk, add_paths, validate_bundle_paths,
}
use ocidoc_go.Spec.BundleTree.Walk.{clash}
use ocidoc_go.Spec.BundleTree.Collisions.{validate_bundle_paths-eq-none}
use ocidoc_go.Spec.Component.{
  standard_components, is_name_byte, match_rest, matches_name, is_standard_component,
  validate_component_type,
}
use ocidoc_go.Spec.Component.Names.{IsExtension, validate_component_type_iff}
use ocidoc_go.Spec.Settings.{zstd, media_type, resolve_settings}
use ocidoc_go.Spec.Locales.{ArtifactLocaleConfig, validate_build_locales, validate_artifact_locales}
use ocidoc_go.Spec.Locales.Accepted.{IsLocale, defaults_of, validate_artifact_locales-eq-none}
use ocidoc_go.Spec.Configs.{
  BuildConfig, validate_component_build_config, validate_build_components,
  validate_user_annotations, validate_compression, validate_build_config,
}
use ocidoc_go.Spec.Configs.Levels.{IsSupported, resolved-IsSupported}

abbrev guide : Text
guide = codes "docs/guide.md"

guide_accepted : validate_bundle_path ascii_tables guide ≡ none
unfolding validate_bundle_path validate_segments validate_segment is_drive_path is_unportable
    is_reserved_windows_name is_listed is_port_suffix valid_utf8 contains_byte has_prefix split
    text_eq has_suffix runes before to_upper trim_prefix
guide_accepted = refl

parent_refused :
    validate_bundle_path ascii_tables (codes "a/../b")
    ≡ some (path_error (codes "a/../b") dot_dot_segment)
unfolding validate_bundle_path validate_segments validate_segment is_drive_path is_unportable
    is_reserved_windows_name is_listed is_port_suffix valid_utf8 contains_byte has_prefix split
    text_eq has_suffix runes before to_upper trim_prefix
parent_refused = refl

space_refused :
    validate_bundle_path ascii_tables (codes "a b.md")
    ≡ some (path_error (codes "a b.md") (not_portable (codes "a b.md")))
unfolding validate_bundle_path validate_segments validate_segment is_drive_path is_unportable
    is_reserved_windows_name is_listed is_port_suffix valid_utf8 contains_byte has_prefix split
    text_eq has_suffix runes before to_upper trim_prefix
space_refused = refl

stem_refused :
    validate_bundle_path ascii_tables (codes "comlpt1.md")
    ≡ some (path_error (codes "comlpt1.md") (reserved_name (codes "COMLPT1")))
unfolding validate_bundle_path validate_segments validate_segment is_drive_path is_unportable
    is_reserved_windows_name is_listed is_port_suffix valid_utf8 contains_byte has_prefix split
    text_eq has_suffix runes before to_upper trim_prefix
stem_refused = refl

case_refused :
    validate_bundle_paths ascii_tables (codes "docs/a.md" ∷ codes "docs/A.md" ∷ [])
    ≡ some (collision (codes "docs/A.md") (case_collision (codes "docs/a.md")))
unfolding validate_bundle_paths add_paths keys walk finish or_new find put has_children to_lower
    validate_bundle_path validate_segments validate_segment is_drive_path is_unportable
    is_reserved_windows_name is_listed is_port_suffix valid_utf8 contains_byte has_prefix split
    text_eq has_suffix runes before to_upper trim_prefix
case_refused = refl

accepted-clean_example :
    (is_abs guide ≡ false) × All IsNormal (split b'/' guide) × (clean guide ≡ guide)
accepted-clean_example = accepted-clean ascii_tables guide guide_accepted

accepted-lacks_example : contains_byte b' ' guide ≡ false
accepted-lacks_example =
    accepted-lacks ascii_tables guide b' ' (inr (inr (inr (inl refl)))) guide_accepted

is_reserved_windows_name_iff_example :
    (is_reserved_windows_name (codes "COMLPT1") ≡ true)
    ↔ (In (codes "COMLPT1") reserved_windows_names ⊎ IsPortName (codes "COMLPT1"))
is_reserved_windows_name_iff_example = is_reserved_windows_name_iff (codes "COMLPT1")

abbrev two_paths : List Text
two_paths = guide ∷ codes "docs/Guide.MD" ∷ []

validate_bundle_paths-eq-none_example : (validate_bundle_paths ascii_tables two_paths ≡ none) ↔ (
    All (λ p. validate_bundle_path ascii_tables p ≡ none) two_paths
    × Pairs (λ p q. clash (keys ascii_tables p) (keys ascii_tables q) ≡ false) two_paths)
validate_bundle_paths-eq-none_example = validate_bundle_paths-eq-none ascii_tables two_paths

validate_component_type_iff_example :
    (validate_component_type (codes "x-api") ≡ none)
    ↔ (In (codes "x-api") standard_components ⊎ IsExtension (codes "x-api"))
validate_component_type_iff_example = validate_component_type_iff (codes "x-api")

abbrev two_locales : List (Text × ArtifactLocaleConfig)
two_locales =
    (codes "en", record { entrypoint = []; files = guide ∷ []; files_nil = false; default = true })
    ∷ (
      codes "de",
      record { entrypoint = guide; files = guide ∷ []; files_nil = false; default = true },
    )
    ∷ []

validate_artifact_locales-eq-none_example :
    (validate_artifact_locales ascii_tables (codes "support") two_locales ≡ none)
    ↔ (All (IsLocale ascii_tables) two_locales × (defaults_of two_locales ≤ 1))
validate_artifact_locales-eq-none_example =
    validate_artifact_locales-eq-none ascii_tables (codes "support") two_locales

abbrev config : BuildConfig
config = record {
  schema_version = codes "v1beta";
  annotations = [];
  components =
      (codes "support", record { locales = []; entrypoint = []; paths = codes "/docs/**" ∷ [] })
      ∷ [];
  document = record { id = []; variant = [] };
  ignore = [];
  settings = record {
    strict = none;
    compression = some (record { type = codes "zstd"; level = some (pos 40) });
  };
}

config_accepted : validate_build_config (some config) ≡ none
unfolding validate_build_config validate_build_components validate_component_type matches_name
    match_rest is_name_byte is_standard_component validate_component_build_config
    validate_build_locales validate_user_annotations validate_compression media_type text_eq
config_accepted = refl

config_resolved :
    (resolve_settings (some config.settings)).compression ≡ record { type = zstd; level = pos 19 }
unfolding resolve_settings text_eq
config_resolved = refl

resolved-IsSupported_example :
    IsSupported
      (resolve_settings (some config.settings)).compression.type
      (resolve_settings (some config.settings)).compression.level
resolved-IsSupported_example = resolved-IsSupported config config_accepted
