-- ===== src/Spec/Locales.antt =====
-- spec/validate.go: locale keys, the locales of build and artifact configs, and entrypoints.
-- A Go map is a list of its entries in the order of the iteration.
pub mod Accepted
use mathlib.Core.List.{reverse}
use ocidoc_go.Base.{
  ℕ, suc, ◌+◌, Bool, true, false, ◌&&◌, ◌||◌, not, Option, none, some, List, [], ◌∷◌, ltb, leb,
  ◌==◌, if◌then◌else◌, Text, any, is_empty, text_eq, ◌⨾◌, fail_if,
}
use ocidoc_go.Unicode.{CaseTables, runes, valid_utf8}
use ocidoc_go.Spec.Errors.{
  invalid_locale, invalid_path, Message, locale_empty, locale_not_utf8, locale_whitespace,
  locale_control, locale_no_rules, second_default, duplicate_locale_path, invalid_entrypoint,
  ValidationError, error_text,
}
use ocidoc_go.Spec.BundlePath.{validate_bundle_path}

pub record BuildLocaleConfig : Type 0 where
  pub entrypoint : Text
  pub paths : List Text
  pub default : Bool

-- `files_nil`: `Files` is nil, which `reflect.DeepEqual` tells from a list that is empty.
pub record ArtifactLocaleConfig : Type 0 where
  pub entrypoint : Text
  pub files : List Text
  pub files_nil : Bool
  pub default : Bool

abbrev pub locale_error : Text → Text → Text → Message → ValidationError
locale_error c key p m = record {
  code = invalid_locale;
  component = c;
  path = p;
  annotation = [];
  locale = key;
  message = m;
}

-- `unicode.IsSpace`
unfoldable pub is_space : ℕ → Bool
is_space r =
    (leb 9 r && leb r 13)
    || (r == 0x20
        || (r == 0x85
            || (r == 0xa0
                || (r == 0x1680
                    || ((leb 0x2000 r && leb r 0x200a)
                        || (r == 0x2028
                            || (r == 0x2029 || (r == 0x202f || (r == 0x205f || r == 0x3000)))))))))

abbrev first_is_space : List ℕ → Bool
first_is_space [] = false
first_is_space (r ∷ rs) = is_space r

-- `strings.TrimSpace(s) != s`: the first or the last rune is a space.
unfoldable pub trim_changes : Text → Bool
unfolding is_space runes
trim_changes s = first_is_space (runes s) || first_is_space (reverse (runes s))

abbrev is_control : ℕ → Bool
is_control r = ltb r 0x20 || r == 0x7f

unfoldable pub validate_locale_key : Text → Option ValidationError
validate_locale_key key =
    fail_if (is_empty key) (locale_error [] [] [] locale_empty)
    ⨾ fail_if (not (valid_utf8 key)) (locale_error [] key [] locale_not_utf8)
    ⨾ fail_if (trim_changes key) (locale_error [] key [] locale_whitespace)
    ⨾ fail_if (any is_control (runes key)) (locale_error [] key [] locale_control)

-- `defaults++` for a locale that is marked as the default.
abbrev pub count_default : ℕ → Bool → ℕ
count_default defaults d = if d then suc defaults else defaults

-- The loop of `ValidateBuildLocales`, with the number of defaults seen.
unfoldable pub build_locales_from :
    Text → ℕ → List (Text × BuildLocaleConfig) → Option ValidationError
build_locales_from component defaults [] = none
build_locales_from component defaults ((key, locale) ∷ rest) =
    validate_locale_key key
    ⨾ fail_if (is_empty locale.paths) (locale_error component key [] locale_no_rules)
    ⨾ fail_if (ltb 1 (count_default defaults locale.default))
        (locale_error component key [] second_default)
    ⨾ build_locales_from component (count_default defaults locale.default) rest

unfoldable pub validate_build_locales :
    Text → List (Text × BuildLocaleConfig) → Option ValidationError
unfolding build_locales_from
validate_build_locales component locales = build_locales_from component 0 locales

module _ (u : CaseTables) where
  unfoldable pub validate_bundle_entrypoint : Text → Text → Option ValidationError
  validate_bundle_entrypoint component entrypoint =
      if is_empty entrypoint then none else elim (validate_bundle_path u entrypoint) [
        | none ↦ none
        | some e ↦ some (record {
          code = invalid_path;
          component = component;
          path = entrypoint;
          annotation = [];
          locale = [];
          message = invalid_entrypoint (error_text e);
        })
      ]

  -- The loop over the files of a locale, with the files seen.
  unfoldable pub locale_files_from : Text → List Text → List Text → Option ValidationError
  locale_files_from key seen [] = none
  locale_files_from key seen (p ∷ files) =
      elim (validate_bundle_path u p) [
        | none ↦ none
        | some e ↦ some (locale_error [] key p (error_text e))
      ]
      ⨾ fail_if (any (text_eq p) seen) (locale_error [] key p duplicate_locale_path)
      ⨾ locale_files_from key (p ∷ seen) files

  -- The loop of `ValidateArtifactLocales`, with the number of defaults seen.
  unfoldable pub artifact_locales_from :
      Text → ℕ → List (Text × ArtifactLocaleConfig) → Option ValidationError
  artifact_locales_from component defaults [] = none
  artifact_locales_from component defaults ((key, locale) ∷ rest) =
      validate_locale_key key
      ⨾ validate_bundle_entrypoint component locale.entrypoint
      ⨾ fail_if (ltb 1 (count_default defaults locale.default))
          (locale_error component key [] second_default)
      ⨾ locale_files_from key [] locale.files
      ⨾ artifact_locales_from component (count_default defaults locale.default) rest

  unfoldable pub validate_artifact_locales :
      Text → List (Text × ArtifactLocaleConfig) → Option ValidationError
  unfolding artifact_locales_from
  validate_artifact_locales component locales = artifact_locales_from component 0 locales
