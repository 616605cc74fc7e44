-- ===== src/PathPlan/Entrypoint.antt =====
-- internal/pathplan/entrypoint.go: the file of a component that a reader opens first.
pub mod Chosen
use mathlib.Core.List.{reverse}
use ocidoc_go.Base.{
  Bool, true, false, not, ◌&&◌, Option, none, some, List, [], ◌∷◌, ◌++◌, if◌then◌else◌, Text, codes,
  any, length, ltb, text_eq, behind, has_prefix, has_suffix, trim_prefix, Result, ok, err, ◌>>=◌,
}
use ocidoc_go.PathPlan.Ownership.{Ownership, entry}

abbrev pub entrypoint_candidates : List (Text × List Text)
entrypoint_candidates =
    (
      codes "documentation",
      codes "README.md"
          ∷ codes "README"
          ∷ codes "README.markdown"
          ∷ codes "README.mdown"
          ∷ codes "docs/index.md"
          ∷ [],
    )
    ∷ (
      codes "license",
      codes "LICENSE" ∷ codes "LICENSE.*" ∷ codes "LICENCE" ∷ codes "COPYING" ∷ [],
    )
    ∷ (codes "security", codes "SECURITY.md" ∷ codes "SECURITY" ∷ [])
    ∷ (codes "contributing", codes "CONTRIBUTING.md" ∷ codes "CONTRIBUTING" ∷ [])
    ∷ (
      codes "changelog",
      codes "CHANGELOG.md"
          ∷ codes "CHANGELOG"
          ∷ codes "CHANGES.md"
          ∷ codes "HISTORY.md"
          ∷ codes "NEWS.md"
          ∷ [],
    )
    ∷ (codes "release-notes", codes "RELEASE_NOTES.md" ∷ codes "RELEASE-NOTES.md" ∷ [])
    ∷ []

abbrev pub text_document_extensions : List Text
text_document_extensions = codes ".md" ∷ codes ".markdown" ∷ codes ".mdown" ∷ codes ".txt" ∷ []

pub data EntrypointMessage : Type 0 where
  no_planned_files : EntrypointMessage
  not_planned : EntrypointMessage

pub record EntrypointError : Type 0 where
  pub component : Text
  pub path : Text
  pub message : EntrypointMessage

-- `strings.CutSuffix(candidate, "*")`
unfoldable pub cut_star : Text → Option Text
cut_star candidate = elim (behind (reverse candidate) (codes "*")) [
  | none ↦ none
  | some r ↦ some (reverse r)
]

unfoldable pub matches_entrypoint_candidate : Text → Text → Bool
matches_entrypoint_candidate candidate path = elim (cut_star candidate) [
  | none ↦ text_eq candidate path
  | some start ↦ has_prefix path start && ltb (length start) (length path)
]

-- The first file that passes a test.
unfoldable pub first_file : (Text → Bool) → List Text → Option Text
first_file test [] = none
first_file test (p ∷ ps) = let rest = first_file test ps in if test p then some p else rest

-- The first file for the first candidate that has one.
unfoldable pub first_match : List Text → List Text → Option Text
first_match [] files = none
first_match (candidate ∷ cs) files =
    elim (first_file (matches_entrypoint_candidate candidate) files) [
      | some p ↦ some p
      | none ↦ first_match cs files
    ]

-- `entrypointCandidates[component]`
unfoldable pub entrypoints_for : Text → List Text
unfolding entry
entrypoints_for component = elim (entry entrypoint_candidates component) [
  | none ↦ []
  | some cs ↦ cs
]

unfoldable pub is_text_document : Text → Bool
is_text_document path = any (has_suffix path) text_document_extensions

unfoldable pub detect_entrypoint : Text → List Text → Option Text
detect_entrypoint component files = elim (first_match (entrypoints_for component) files) [
  | some p ↦ some p
  | none ↦
      if not (text_eq component (codes "documentation"))
      then none
      else first_file is_text_document files
]

-- One explicit entrypoint against the component's files.
abbrev pub check_explicit : Text → Text → Option (List Text) → Result EntrypointError Text
check_explicit component path none =
    err (record { component = component; path = path; message = no_planned_files })
check_explicit component path (some files) =
    if not (any (text_eq (trim_prefix path (codes "/"))) files)
    then err (record { component = component; path = path; message = not_planned })
    else ok (trim_prefix path (codes "/"))

unfoldable pub explicit_entrypoints :
    Ownership → List (Text × Text) → Result EntrypointError (List (Text × Text))
explicit_entrypoints ow [] = ok []
explicit_entrypoints ow ((component, path) ∷ rest) = do
  bundle_path ← check_explicit component path (entry ow component)
  others ← explicit_entrypoints ow rest
  ok ((component, bundle_path) ∷ others)

-- `_, explicitlySet := result[component]`
abbrev pub explicitly_set : List (Text × Text) → Text → Bool
explicitly_set result component = any (λ (r : Text × Text). text_eq r.0 component) result

-- The components with no explicit entrypoint.
unfoldable pub detected_entrypoints : List (Text × Text) → Ownership → List (Text × Text)
detected_entrypoints result [] = result
detected_entrypoints result ((component, files) ∷ rest) =
    if explicitly_set result component
    then detected_entrypoints result rest
    else elim (detect_entrypoint component files) [
      | none ↦ detected_entrypoints result rest
      | some p ↦ detected_entrypoints (result ++ (component, p) ∷ []) rest
    ]

unfoldable pub resolve_entrypoints :
    Ownership → List (Text × Text) → Result EntrypointError (List (Text × Text))
resolve_entrypoints ow explicit = do
  result ← explicit_entrypoints ow explicit
  ok (detected_entrypoints result ow)
