-- ===== src/Spec/Component.antt =====
-- spec/component.go: names of components.
pub mod Names
use ocidoc_go.Base.{
  Bool, true, false, ◌&&◌, ◌||◌, not, Option, none, some, List, [], ◌∷◌, leb, ◌==◌, if◌then◌else◌,
  ℕ, Text, codes, any, text_eq, has_prefix,
}
use ocidoc_go.Spec.Errors.{
  invalid_component_name, unknown_component_name, name_pattern, unknown_name, ValidationError,
}

-- The keys of `standardComponents`.
abbrev pub standard_components : List Text
standard_components =
    codes "documentation"
    ∷ codes "license"
    ∷ codes "changelog"
    ∷ codes "release-notes"
    ∷ codes "security"
    ∷ codes "contributing"
    ∷ codes "code-of-conduct"
    ∷ codes "support"
    ∷ []

unfoldable pub is_lower : ℕ → Bool
is_lower c = leb b'a' c && leb c b'z'

unfoldable pub is_name_byte : ℕ → Bool
unfolding is_lower
is_name_byte c = is_lower c || (leb b'0' c && leb c b'9')

-- `componentNamePattern` behind its first letter, `[a-z0-9]*(?:-[a-z0-9]+)*$`; the flag says that a
-- dash was just read.
unfoldable pub match_rest : Bool → Text → Bool
match_rest dashed [] = not dashed
match_rest dashed (c ∷ s) =
    (is_name_byte c || (c == b'-' && not dashed)) && match_rest (c == b'-') s

-- `componentNamePattern`, `^[a-z][a-z0-9]*(?:-[a-z0-9]+)*$`
unfoldable pub matches_name : Text → Bool
matches_name [] = false
matches_name (c ∷ s) = is_lower c && match_rest false s

unfoldable pub is_standard_component : Text → Bool
is_standard_component name = any (text_eq name) standard_components

unfoldable pub is_extension_component : Text → Bool
is_extension_component name = has_prefix name (codes "x-") && matches_name name

unfoldable pub validate_component_type : Text → Option ValidationError
validate_component_type name =
    if not (matches_name name)
    then some (record {
      code = invalid_component_name;
      component = name;
      path = [];
      annotation = [];
      locale = [];
      message = name_pattern;
    })
    else if is_standard_component name || is_extension_component name
    then none
    else some (record {
      code = unknown_component_name;
      component = name;
      path = [];
      annotation = [];
      locale = [];
      message = unknown_name;
    })
