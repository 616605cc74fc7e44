-- ===== src/Spec/Errors.antt =====
-- spec/errors.go. A message is a constructor for each text of the source; `rendered` is
-- `err.Error()` of another validation error.
use ocidoc_go.Base.{Text}

pub data ValidationCode : Type 0 where
  invalid_component_name unknown_component_name invalid_path path_collision : ValidationCode
  missing_schema_version unsupported_schema_version no_components : ValidationCode
  unsupported_digest_algorithm unsupported_compression reserved_annotation : ValidationCode
  empty_component_rules undeclared_component invalid_locale : ValidationCode

pub data Message : Type 0 where
  empty_path not_utf8 nul_byte backslash absolute drive_letter : Message
  empty_segment dot_segment dot_dot_segment segment_ends : Message
  not_portable reserved_name : Text → Message
  duplicate_path : Message
  ancestor_of descendant_of case_collision : Text → Message
  reserved_prefix : Message
  name_pattern unknown_name : Message
  nil_config schema_version_required no_component_declared : Message
  unsupported_version unsupported_schema : Text → Message
  locale_empty locale_not_utf8 locale_whitespace locale_control : Message
  locale_no_rules second_default duplicate_locale_path : Message
  no_path_rules negative_level : Message
  unsupported_type : Text → Message
  invalid_digest : Text → Message
  not_sha256 : Text → Message
  rendered : ValidationCode → Text → Text → Text → Text → Message → Message
  invalid_entrypoint : Message → Message

pub record ValidationError : Type 0 where
  pub code : ValidationCode
  pub component : Text
  pub path : Text
  pub annotation : Text
  pub locale : Text
  pub message : Message

-- `(*ValidationError).Error`
abbrev pub error_text : ValidationError → Message
error_text e = rendered e.code e.component e.path e.annotation e.locale e.message
