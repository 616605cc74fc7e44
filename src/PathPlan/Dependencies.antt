-- ===== src/PathPlan/Dependencies.antt =====
-- internal/pathplan/dependencies.go: the local files that owned Markdown documents refer to, wave by
-- wave. The resolver of the source tree, the reader of files, the parser of Markdown and the quoting
-- of package fmt are parameters; each wave sees the same tree, and no wave is cancelled.
pub mod Fresh
pub mod Fuel
use ocidoc_go.Base.{
  Bool, true, false, not, ℕ, zero, suc, Option, none, some, List, [], ◌∷◌, ◌++◌, if◌then◌else◌,
  Text, codes, any, text_eq, Result, ok, err, ◌>>=◌, after, map, is_empty, length,
}
use ocidoc_go.Unicode.{CaseTables}
use ocidoc_go.Oci.{value_at}
use ocidoc_go.Spec.Errors.{ValidationError}
use ocidoc_go.Spec.PathKind.{is_markdown_path}
use ocidoc_go.Spec.BundleTree.{validate_bundle_paths}
use ocidoc_go.PathPlan.Ownership.{Ownership, own, files_of, sort_files, all_paths}
use ocidoc_go.Base.{sort_texts}

-- What a path of the source tree resolves to.
pub data Kind : Type 0 where
  missing : Kind
  file : Kind
  directory : Kind

-- `Resolve` gives a source path and `ResolveReference` a bundle path.
pub record SourceTree (F : Type 0) : Type 0 where
  pub resolve : Text → Result F (Kind × Text)
  pub resolve_reference : Text → Text → Result F (Kind × Text)
  pub read_file : Text → Result F Text
  pub local_targets : Text → List Text
  pub quoted : Text → Text

pub data DependencyError (F : Type 0) : Type 0 where
  source_error : F → DependencyError F
  no_longer_regular : Text → DependencyError F
  read_failed : Text → F → DependencyError F
  reference_failed : Text → Text → F → DependencyError F
  invalid_dependency : Text → DependencyError F
  claimed_twice : Text → List Text → DependencyError F
  bad_bundle : ValidationError → DependencyError F

-- `m[key] = value`
unfoldable pub set_at : Text → Text → List (Text × Text) → List (Text × Text)
set_at key value [] = (key, value) ∷ []
set_at key value ((k, v) ∷ rest) =
    let others = set_at key value rest in
    if text_eq k key then (k, value) ∷ rest else (k, v) ∷ others

-- `_, owned := owner[ref]`
unfoldable pub has_key : List (Text × Text) → Text → Bool
has_key m key = any (λ (e : Text × Text). text_eq e.0 key) m

-- `slices.Compact`
unfoldable pub compact_behind : Text → List Text → List Text
compact_behind c [] = []
compact_behind c (d ∷ ds) = let rest = compact_behind d ds in if text_eq c d then rest else d ∷ rest

unfoldable pub unique_sorted : List Text → List Text
unique_sorted cs = elim (sort_texts cs) [ [] ↦ [] | d ∷ ds ↦ d ∷ compact_behind d ds ]

-- `warnings[warning] = struct{}{}`
unfoldable pub add_warning : Text → List Text → List Text
add_warning w ws = if any (text_eq w) ws then ws else ws ++ w ∷ []

abbrev pub in_source :
    {F : Type 0}
    → {A : Type 0} → (F → DependencyError F)
    → Result F A
    → Result (DependencyError F) A
in_source e (ok a) = ok a
in_source e (err f) = err (e f)

-- The claims on a path are the components that refer to it, and the warnings are a set.
abbrev pub Claims : Type 0
Claims = List (Text × List Text)

-- One path that documents refer to, for the components that own these.
abbrev pub claimed_by :
    {F : Type 0} → Text → List Text → Result (DependencyError F) (List (Text × Text))
claimed_by ref [] = ok []
claimed_by ref (c ∷ []) = ok ((ref, c) ∷ [])
claimed_by ref (c ∷ d ∷ cs) = err (claimed_twice ref (c ∷ d ∷ cs))

-- The claims become the next frontier.
unfoldable pub settle :
    {F : Type 0} → Claims → List Text → Result (DependencyError F) (List (Text × Text))
settle claims [] = ok []
settle claims (ref ∷ refs) = do
  here ← claimed_by ref (unique_sorted (files_of claims ref))
  others ← settle claims refs
  ok (here ++ others)

-- `owner[path] = component` for a frontier.
unfoldable pub set_all : List (Text × Text) → List (Text × Text) → List (Text × Text)
set_all [] owner = owner
set_all ((p, c) ∷ next) owner = set_all next (set_at p c owner)

unfoldable pub own_all : List (Text × Text) → Ownership → Ownership
own_all [] ow = ow
own_all ((p, c) ∷ next) ow = own_all next (own ow c p)

-- Each path of the ownership with its component.
unfoldable pub owners_of : Ownership → List (Text × Text)
owners_of [] = []
owners_of ((c, ps) ∷ rest) = set_all (map (λ p. (p, c)) ps) (owners_of rest)

abbrev pub in_bundle : {F : Type 0} → Option ValidationError → Option (DependencyError F)
in_bundle none = none
in_bundle (some e) = some (bad_bundle e)

module _ {F : Type 0} (source : SourceTree F) (u : CaseTables) (ignored : Text → Bool)
    (strict : Bool) where
  unfoldable pub invalid_dependency_message : Text → Text → Kind → Text
  invalid_dependency_message referrer target kind =
      codes "invalid local dependency "
      ++ (source.quoted target
          ++ (codes " from "
              ++ (source.quoted referrer ++ elim kind [
                | missing ↦ codes ": does not exist"
                | file ↦ codes ": is not a regular file"
                | directory ↦ codes ": is not a regular file"
              ])))

  -- A reference to something other than a file.
  unfoldable pub warn : Text → Claims × List Text → Result (DependencyError F) (Claims × List Text)
  warn warning (claims, ws) =
      if strict then err (invalid_dependency warning) else ok (claims, add_warning warning ws)

  -- A resolved reference of a document that `component` owns.
  unfoldable pub claim :
      List (Text × Text)
      → Text
      → Text
      → Text
      → Claims × List Text
      → Kind × Text
      → Result (DependencyError F) (Claims × List Text)
  claim owner p component target (claims, ws) (kind, ref) =
      if ignored ref then ok (claims, ws) else elim kind [
        | missing ↦ warn (invalid_dependency_message p target missing) (claims, ws)
        | directory ↦ warn (invalid_dependency_message p target directory) (claims, ws)
        | file ↦ if has_key owner ref then ok (claims, ws) else ok (own claims ref component, ws)
      ]

  unfoldable pub visit_references :
      List (Text × Text)
      → Text
      → Text
      → List Text
      → Claims × List Text
      → Result (DependencyError F) (Claims × List Text)
  visit_references owner p component [] st = ok st
  visit_references owner p component (target ∷ targets) st = do
    resolved ← in_source (reference_failed p target) (source.resolve_reference p target)
    st' ← claim owner p component target st resolved
    visit_references owner p component targets st'

  -- The content of an owned document.
  unfoldable pub read_document : Text → Result (DependencyError F) Text
  read_document p = in_source source_error (source.resolve p) >>= go
    where
      go : Kind × Text → Result (DependencyError F) Text
      go (missing, path) = err (no_longer_regular p)
      go (directory, path) = err (no_longer_regular p)
      go (file, path) = in_source (read_failed p) (source.read_file path)

  unfoldable pub visit_document :
      List (Text × Text)
      → Text
      → Text
      → Claims × List Text
      → Result (DependencyError F) (Claims × List Text)
  visit_document owner p component st = if not (is_markdown_path u p) then ok st else (do
    content ← read_document p
    visit_references owner p component (source.local_targets content) st)

  unfoldable pub visit_documents :
      List (Text × Text)
      → List (Text × Text)
      → List Text
      → Claims × List Text
      → Result (DependencyError F) (Claims × List Text)
  visit_documents owner frontier [] st = ok st
  visit_documents owner frontier (p ∷ ps) st = do
    st' ← visit_document owner p (value_at p frontier) st
    visit_documents owner frontier ps st'

  unfoldable pub discover_wave :
      List (Text × Text)
      → List (Text × Text)
      → List Text
      → Result (DependencyError F) (List (Text × Text) × List Text)
  discover_wave frontier owner warnings = do
    st ←
        visit_documents owner frontier (sort_texts (map (λ (e : Text × Text). e.0) frontier))
          ([], warnings)
    next ← settle st.0 (sort_texts (map (λ (e : Text × List Text). e.0) st.0))
    ok (next, st.1)

  -- The loop over the frontiers; `none` if the fuel is spent.
  unfoldable pub discover_from :
      ℕ
      → List (Text × Text)
      → Ownership
      → List (Text × Text)
      → List Text
      → Option (Result (DependencyError F) (Ownership × List Text))
  discover_from fuel owner ow [] warnings = some (ok (ow, warnings))
  discover_from zero owner ow (e ∷ es) warnings = none
  discover_from (suc fuel) owner ow (e ∷ es) warnings =
      elim (discover_wave (e ∷ es) owner warnings) [
        | err x ↦ some (err x)
        | ok r ↦ discover_from fuel (set_all r.0 owner) (own_all r.0 ow) r.0 r.1
      ]

  unfoldable pub conclude :
      Ownership × List Text → Result (DependencyError F) (Ownership × List Text)
  conclude (ow, warnings) =
      after (in_bundle (validate_bundle_paths u (all_paths (sort_files ow))))
        (ok (sort_files ow, sort_texts warnings))

  unfoldable pub discover_dependencies :
      ℕ → Ownership → Option (Result (DependencyError F) (Ownership × List Text))
  discover_dependencies fuel ow = elim (discover_from fuel (owners_of ow) ow (owners_of ow) []) [
    | none ↦ none
    | some r ↦ some (r >>= conclude)
  ]
