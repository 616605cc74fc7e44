-- ===== src/PathPlan/Compile.antt =====
-- internal/pathplan/matchers.go: rules are compiled into matchers. Package pathrules is a parameter.
pub mod Locales
use ocidoc_go.Base.{
  Bool, true, false, Option, none, some, List, [], ◌∷◌, ◌++◌, if◌then◌else◌, Text, is_empty,
  text_eq, join, Result, ok, err, ◌>>=◌, map,
}
use ocidoc_go.Unicode.{CaseTables}
use ocidoc_go.Spec.Errors.{ValidationError}
use ocidoc_go.Spec.PathKind.{is_document_path}
use ocidoc_go.Spec.Locales.{BuildLocaleConfig}
use ocidoc_go.Spec.Configs.{BuildConfig, ComponentBuildConfig}
use ocidoc_go.PathPlan.Ownership.{Ownership, files_of}
use ocidoc_go.Base.{sort_texts}

pub data Action : Type 0 where
  include : Action
  exclude : Action

pub record ParseOptions : Type 0 where
  pub plain_action : Action
  pub negated_action : Action

pub record MatcherOptions : Type 0 where
  pub enable_brace_expansion : Bool
  pub enable_escaping : Bool
  pub default_action : Action

-- `ParseRulesString`, `NewMatcher`, and `Excluded` and `Included` of a file.
pub record PathRules (R M F : Type 0) : Type 0 where
  pub parse_rules : Text → ParseOptions → Result F R
  pub new_matcher : R → MatcherOptions → Result F M
  pub excluded : M → Text → Bool
  pub included : M → Text → Bool

pub record Matchers (M : Type 0) : Type 0 where
  pub ignore : Option M
  pub components : List (Text × M)

pub data PlanError (F : Type 0) : Type 0 where
  compile_ignore : F → PlanError F
  compile_component : Text → F → PlanError F
  compile_locale : Text → Text → F → PlanError F
  conflict : Text → List Text → PlanError F
  walk_failed : F → PlanError F
  bad_paths : ValidationError → PlanError F

abbrev pub ignore_parse_options : ParseOptions
ignore_parse_options = record { plain_action = exclude; negated_action = include }

abbrev pub component_parse_options : ParseOptions
component_parse_options = record { plain_action = include; negated_action = exclude }

abbrev pub build_config_matcher_options : Action → MatcherOptions
build_config_matcher_options a = record {
  enable_brace_expansion = true;
  enable_escaping = true;
  default_action = a;
}

-- `fmt.Errorf` around an error of the rules.
abbrev pub in_rules :
    {F : Type 0} → {A : Type 0} → (F → PlanError F) → Result F A → Result (PlanError F) A
in_rules e (ok a) = ok a
in_rules e (err f) = err (e f)

abbrev pub rules_at : Text → List (Text × BuildLocaleConfig) → List Text
rules_at key [] = []
rules_at key ((k, v) ∷ rest) =
    let found = rules_at key rest in if text_eq k key then v.paths else found

unfoldable pub keep_paths : (Text → Bool) → List Text → List Text
keep_paths test [] = []
keep_paths test (p ∷ ps) = let rest = keep_paths test ps in if test p then p ∷ rest else rest

module _ {R M F : Type 0} (rules : PathRules R M F) where
  unfoldable pub compile_rules : List Text → ParseOptions → Action → Result F M
  compile_rules patterns options action = do
    parsed ← rules.parse_rules (join b'\n' patterns) options
    rules.new_matcher parsed (build_config_matcher_options action)

  unfoldable pub compile_ignores : List Text → Result (PlanError F) (Option M)
  compile_ignores [] = ok none
  compile_ignores (p ∷ ps) = do
    matcher ← in_rules compile_ignore (compile_rules (p ∷ ps) ignore_parse_options include)
    ok (some matcher)

  unfoldable pub compile_components :
      List (Text × ComponentBuildConfig) → Result (PlanError F) (List (Text × M))
  compile_components [] = ok []
  compile_components ((name, component) ∷ rest) = do
    matcher ←
        in_rules (compile_component name)
          (compile_rules component.paths component_parse_options exclude)
    others ← compile_components rest
    ok ((name, matcher) ∷ others)

  unfoldable pub compile : BuildConfig → Result (PlanError F) (Matchers M)
  compile cfg = do
    ignore ← compile_ignores cfg.ignore
    components ← compile_components cfg.components
    ok (record { ignore = ignore; components = components })

  -- The loop over a component's locale keys.
  unfoldable pub classify_keys :
      Text
      → List (Text × BuildLocaleConfig)
      → List Text
      → List Text
      → Result (PlanError F) (List (Text × List Text))
  classify_keys component locales documents [] = ok []
  classify_keys component locales documents (key ∷ keys) = do
    matcher ←
        in_rules (compile_locale key component)
          (compile_rules (rules_at key locales) component_parse_options exclude)
    others ← classify_keys component locales documents keys
    ok ((key, keep_paths (rules.included matcher) documents) ∷ others)

  -- The sorted documents of a component.
  abbrev pub documents_of : CaseTables → Ownership → Text → List Text
  documents_of u ow component = sort_texts (keep_paths (is_document_path u) (files_of ow component))

  -- One component; one without locale rules has no entry.
  unfoldable pub classify_component :
      Text
      → List (Text × BuildLocaleConfig)
      → List Text
      → Result (PlanError F) (List (Text × List (Text × List Text)))
  classify_component component [] documents = ok []
  classify_component component (l ∷ ls) documents = do
    found ←
        classify_keys component (l ∷ ls) documents
          (sort_texts (map (λ (x : Text × BuildLocaleConfig). x.0) (l ∷ ls)))
    ok ((component, found) ∷ [])

  unfoldable pub classify_locales :
      CaseTables
      → List (Text × ComponentBuildConfig)
      → Ownership
      → Result (PlanError F) (List (Text × List (Text × List Text)))
  classify_locales u [] ow = ok []
  classify_locales u ((component, config) ∷ rest) ow = do
    found ← classify_component component config.locales (documents_of u ow component)
    others ← classify_locales u rest ow
    ok (found ++ others)
