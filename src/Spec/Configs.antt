-- ===== src/Spec/Configs.antt =====
-- spec/config.go, spec/validate.go and spec/validate_buildconfig.go: the two configs, and what is
-- checked of them. Path rules and the document section of a build config are not checked here.
pub mod Levels
use ocidoc_go.Base.{
  Bool, true, false, ◌&&◌, not, Option, none, some, List, [], ◌∷◌, if◌then◌else◌, Text, codes,
  is_empty, text_eq, has_prefix, ◌⨾◌, fail_if, ok, err, is_negative,
}
use ocidoc_go.Unicode.{CaseTables}
use ocidoc_go.Spec.Errors.{
  ValidationCode, missing_schema_version, unsupported_schema_version, no_components,
  reserved_annotation, empty_component_rules, unsupported_compression, Message, reserved_prefix,
  nil_config, schema_version_required, unsupported_version, unsupported_schema,
  no_component_declared, no_path_rules, negative_level, ValidationError,
}
use ocidoc_go.Spec.Component.{validate_component_type}
use ocidoc_go.Spec.Settings.{CompressionSettings, BuildSettings, media_type}
use ocidoc_go.Spec.Locales.{
  BuildLocaleConfig, ArtifactLocaleConfig, validate_build_locales, validate_artifact_locales,
  validate_bundle_entrypoint,
}

pub record ComponentConfig : Type 0 where
  pub locales : List (Text × ArtifactLocaleConfig)
  pub entrypoint : Text

pub record ArtifactConfig : Type 0 where
  pub components : List (Text × ComponentConfig)
  pub schema : Text
  pub schema_version : Text

pub record ComponentBuildConfig : Type 0 where
  pub locales : List (Text × BuildLocaleConfig)
  pub entrypoint : Text
  pub paths : List Text

pub record DocumentSettings : Type 0 where
  pub id : Text
  pub variant : Text

pub record BuildConfig : Type 0 where
  pub schema_version : Text
  pub annotations : List (Text × Text)
  pub components : List (Text × ComponentBuildConfig)
  pub settings : BuildSettings
  pub document : DocumentSettings
  pub ignore : List Text

abbrev plain : ValidationCode → Message → ValidationError
plain c m = record {
  code = c;
  component = [];
  path = [];
  annotation = [];
  locale = [];
  message = m;
}

-- `SchemaVersion` and `ArtifactConfigSchemaID` (spec/doc.go).
abbrev pub current_schema : Text
current_schema = codes "v1beta"

abbrev pub artifact_config_schema : Text
artifact_config_schema = codes "https://ocidoc.org/schema/artifact-config-v1beta.json"

module _ (u : CaseTables) where
  unfoldable pub validate_components : List (Text × ComponentConfig) → Option ValidationError
  validate_components [] = none
  validate_components ((name, component) ∷ rest) =
      validate_component_type name
      ⨾ validate_bundle_entrypoint u name component.entrypoint
      ⨾ validate_artifact_locales u name component.locales
      ⨾ validate_components rest

  unfoldable pub validate_artifact_config : Option ArtifactConfig → Option ValidationError
  unfolding validate_components
  validate_artifact_config none = some (plain missing_schema_version nil_config)
  validate_artifact_config (some cfg) =
      fail_if (is_empty cfg.schema_version) (plain missing_schema_version schema_version_required)
      ⨾ fail_if (not (text_eq cfg.schema_version current_schema))
          (plain unsupported_schema_version (unsupported_version cfg.schema_version))
      ⨾ fail_if (not (is_empty cfg.schema) && not (text_eq cfg.schema artifact_config_schema))
          (plain unsupported_schema_version (unsupported_schema cfg.schema))
      ⨾ fail_if (is_empty cfg.components) (plain no_components no_component_declared)
      ⨾ validate_components cfg.components

unfoldable pub validate_user_annotations : List (Text × Text) → Option ValidationError
validate_user_annotations [] = none
validate_user_annotations ((key, value) ∷ rest) =
    fail_if (has_prefix key (codes "org.ocidoc.")) (record {
      code = reserved_annotation;
      component = [];
      path = [];
      annotation = key;
      locale = [];
      message = reserved_prefix;
    })
    ⨾ validate_user_annotations rest

unfoldable pub validate_component_build_config :
    Text → ComponentBuildConfig → Option ValidationError
validate_component_build_config name component =
    fail_if (is_empty component.paths) (record {
      code = empty_component_rules;
      component = name;
      path = [];
      annotation = [];
      locale = [];
      message = no_path_rules;
    })
    ⨾ validate_build_locales name component.locales

unfoldable pub validate_build_components :
    List (Text × ComponentBuildConfig) → Option ValidationError
validate_build_components [] = none
validate_build_components ((name, component) ∷ rest) =
    validate_component_type name
    ⨾ validate_component_build_config name component
    ⨾ validate_build_components rest

-- The checks of the compression section, the last ones of `ValidateBuildConfig`.
unfoldable pub validate_compression : Option CompressionSettings → Option ValidationError
validate_compression none = none
validate_compression (some c) =
    (if is_empty c.type then none else elim (media_type c.type) [ ok m ↦ none | err e ↦ some e ])
    ⨾ elim c.level [
      | none ↦ none
      | some l ↦ fail_if (is_negative l) (plain unsupported_compression negative_level)
    ]

unfoldable pub validate_build_config : Option BuildConfig → Option ValidationError
validate_build_config none = some (plain missing_schema_version nil_config)
validate_build_config (some cfg) =
    fail_if (is_empty cfg.schema_version) (plain missing_schema_version schema_version_required)
    ⨾ fail_if (not (text_eq cfg.schema_version current_schema))
        (plain unsupported_schema_version (unsupported_version cfg.schema_version))
    ⨾ fail_if (is_empty cfg.components) (plain no_components no_component_declared)
    ⨾ validate_build_components cfg.components
    ⨾ validate_user_annotations cfg.annotations
    ⨾ validate_compression cfg.settings.compression
