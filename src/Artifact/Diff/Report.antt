-- ===== src/Artifact/Diff/Report.antt =====
-- artifact/diff.go: `Diff` of two artifacts that are open, over the reading operations of both.
pub mod Items
pub mod Equal
use ocidoc_go.Base.{
  Bool, true, false, not, ◌&&◌, ◌||◌, Option, none, some, List, [], ◌∷◌, ◌++◌, if◌then◌else◌,
  is_empty, Text, text_eq, Result, ok, err, ◌>>=◌, after, fail_if,
}
use ocidoc_go.Oci.{Descriptor, Manifest}
use ocidoc_go.Archive.Scan.{ScanEntry}
use ocidoc_go.Spec.Locales.{ArtifactLocaleConfig}
use ocidoc_go.Spec.Configs.{ArtifactConfig, ComponentConfig}
use ocidoc_go.Artifact.Diff.{
  AnnotationDiff, FileDiff, lookup, union_keys, collect, is_set, same_bool, diff_annotations,
  diff_component_files,
}

pub record LocaleDiff : Type 0 where
  pub component : Text
  pub locale : Text
  pub entrypoint_before : Text
  pub entrypoint_after : Text
  pub before : List Text
  pub after : List Text
  pub before_set : Bool
  pub after_set : Bool
  pub default_before : Bool
  pub default_after : Bool

pub data ComponentPresence : Type 0 where
  component_present : ComponentPresence
  component_added : ComponentPresence
  component_removed : ComponentPresence

pub record ComponentDiff : Type 0 where
  pub component : Text
  pub digest_before : Text
  pub digest_after : Text
  pub entrypoint_before : Text
  pub entrypoint_after : Text
  pub files : List FileDiff
  pub presence : ComponentPresence
  pub digest_changed : Bool
  pub entrypoint_changed : Bool

pub record DiffOptions : Type 0 where
  pub component : Text
  pub metadata_only : Bool

pub record DiffResult : Type 0 where
  pub schema_version_before : Text
  pub schema_version_after : Text
  pub subject_before : Option Descriptor
  pub subject_after : Option Descriptor
  pub annotations : List AnnotationDiff
  pub components : List ComponentDiff
  pub locales : List LocaleDiff
  pub equal : Bool

-- `ComponentDescriptor`: a type, and the descriptor of the component's blob.
abbrev pub ComponentDescriptor : Type 0
ComponentDescriptor = Text × Descriptor

-- The operations of a `Reader` that are called; `scan_files` is `scanComponentFiles` with digests.
pub record Reader (F : Type 0) : Type 0 where
  pub manifest : Result F Manifest
  pub config : Result F ArtifactConfig
  pub components : Result F (List ComponentDescriptor)
  pub scan_files : ComponentDescriptor → Result F (List ScanEntry)

pub data DiffError (F : Type 0) : Type 0 where
  reader_error : F → DiffError F
  no_such_component : Text → DiffError F
  in_component : Text → F → DiffError F

unfoldable pub texts_eq : List Text → List Text → Bool
texts_eq [] [] = true
texts_eq [] (t ∷ ts) = false
texts_eq (s ∷ ss) [] = false
texts_eq (s ∷ ss) (t ∷ ts) = text_eq s t && texts_eq ss ts

-- `reflect.DeepEqual` on locale configs.
unfoldable pub same_config : ArtifactLocaleConfig → ArtifactLocaleConfig → Bool
same_config a b =
    text_eq a.entrypoint b.entrypoint
    && (texts_eq a.files b.files
        && (same_bool a.files_nil b.files_nil && same_bool a.default b.default))

-- The zero value where the map has no entry.
abbrev pub or_zero : Option ArtifactLocaleConfig → ArtifactLocaleConfig
or_zero none = record { entrypoint = []; files = []; files_nil = true; default = false }
or_zero (some c) = c

-- The body of the inner loop of `diffLocales`.
unfoldable pub locale_change :
    Text → Text → Option ArtifactLocaleConfig → Option ArtifactLocaleConfig → Option LocaleDiff
locale_change component key b a =
    if is_set b && (is_set a && same_config (or_zero b) (or_zero a))
    then none
    else some (record {
      component = component;
      locale = key;
      entrypoint_before = (or_zero b).entrypoint;
      entrypoint_after = (or_zero a).entrypoint;
      before = (or_zero b).files;
      after = (or_zero a).files;
      before_set = is_set b;
      after_set = is_set a;
      default_before = (or_zero b).default;
      default_after = (or_zero a).default;
    })

-- `before[component].Locales`
unfoldable pub locales_of :
    Text → List (Text × ComponentConfig) → List (Text × ArtifactLocaleConfig)
locales_of c configs = elim (lookup c configs) [ none ↦ [] | some config ↦ config.locales ]

-- `cfg.Components[t].Entrypoint`
unfoldable pub entrypoint_of : Text → List (Text × ComponentConfig) → Text
entrypoint_of c configs = elim (lookup c configs) [ none ↦ [] | some config ↦ config.entrypoint ]

unfoldable pub component_locales :
    List (Text × ComponentConfig) → List (Text × ComponentConfig) → Text → List LocaleDiff
component_locales before after c =
    collect
      (λ key.
        locale_change c key (lookup key (locales_of c before)) (lookup key (locales_of c after)))
      (union_keys (locales_of c before) (locales_of c after))

-- The outer loop.
unfoldable pub gather : {D : Type 0} → (Text → List D) → List Text → List D
gather f [] = []
gather f (k ∷ ks) = f k ++ gather f ks

unfoldable pub diff_locales :
    List (Text × ComponentConfig) → List (Text × ComponentConfig) → List LocaleDiff
diff_locales before after = gather (component_locales before after) (union_keys before after)

unfoldable pub filter_components : List ComponentDescriptor → Text → List ComponentDescriptor
filter_components [] want = []
filter_components (c ∷ cs) want =
    let rest = filter_components cs want in if text_eq c.0 want then c ∷ [] else rest

-- `m[c.Type] = c` for each component: the last one of a type counts.
unfoldable pub component_map :
    List ComponentDescriptor → List (Text × Descriptor) → List (Text × Descriptor)
component_map [] m = m
component_map (c ∷ cs) m = component_map cs (c ∷ m)

unfoldable pub presence_of : Option Descriptor → Option Descriptor → ComponentPresence
presence_of (some a) none = component_removed
presence_of none (some b) = component_added
presence_of none none = component_present
presence_of (some a) (some b) = component_present

abbrev pub descriptor_digest : Option Descriptor → Text
descriptor_digest none = []
descriptor_digest (some d) = d.digest

unfoldable pub digest_changed : Option Descriptor → Option Descriptor → Bool
digest_changed none none = false
digest_changed (some a) none = false
digest_changed none (some b) = false
digest_changed (some a) (some b) = not (text_eq a.digest b.digest)

-- `contentChanged`
unfoldable pub content_changed : Option Descriptor → Option Descriptor → Bool
content_changed a b = not (same_bool (is_set a) (is_set b)) || digest_changed a b

-- A component, before its files are read: `none` if it is not worth a report.
unfoldable pub component_change :
    Text → Option Descriptor → Option Descriptor → Text → Text → Option ComponentDiff
component_change t a b ep_a ep_b =
    if not (content_changed a b || not (text_eq ep_a ep_b))
    then none
    else some (record {
      component = t;
      digest_before = descriptor_digest a;
      digest_after = descriptor_digest b;
      entrypoint_before = if text_eq ep_a ep_b then [] else ep_a;
      entrypoint_after = if text_eq ep_a ep_b then [] else ep_b;
      files = [];
      presence = presence_of a b;
      digest_changed = digest_changed a b;
      entrypoint_changed = not (text_eq ep_a ep_b);
    })

unfoldable pub selected_components :
    DiffOptions → List ComponentDescriptor → List ComponentDescriptor
selected_components opts cs =
    if is_empty opts.component then cs else filter_components cs opts.component

-- The report, behind the reads of both artifacts.
unfoldable pub diff_result :
    (Option Descriptor → Option Descriptor → Bool)
    → Manifest
    → Manifest
    → ArtifactConfig
    → ArtifactConfig
    → List ComponentDiff
    → DiffResult
diff_result deep_equal ma mb ca cb components =
    let schema = text_eq ca.schema_version cb.schema_version in
    let subject = deep_equal ma.subject mb.subject in
    let annotations = diff_annotations ma.annotations mb.annotations in
    let locales = diff_locales ca.components cb.components in
    let schema_before = if schema then [] else ca.schema_version in
    record {
      schema_version_before = schema_before;
      schema_version_after = if schema then [] else cb.schema_version;
      subject_before = if subject then none else ma.subject;
      subject_after = if subject then none else mb.subject;
      annotations = annotations;
      components = components;
      locales = locales;
      equal =
          is_empty annotations
          && (is_empty schema_before && (subject && (is_empty components && is_empty locales)));
    }

module _ {F : Type 0} where
  abbrev pub in_reader : {A : Type 0} → (F → DiffError F) → Result F A → Result (DiffError F) A
  in_reader e (ok a) = ok a
  in_reader e (err f) = err (e f)

  -- `componentFileFingerprints`: a component that is not there has no files.
  unfoldable pub component_files :
      Reader F → Text → Option Descriptor → Result (DiffError F) (List ScanEntry)
  component_files r t none = ok []
  component_files r t (some d) = in_reader (in_component t) (r.scan_files (t, d))

  unfoldable pub changed_files :
      Reader F
      → Reader F
      → DiffOptions
      → Text
      → Option Descriptor
      → Option Descriptor
      → Result (DiffError F) (List FileDiff)
  changed_files ra rb opts t a b =
      if not (not opts.metadata_only && content_changed a b) then ok [] else (do
        files_a ← component_files ra t a
        files_b ← component_files rb t b
        ok (diff_component_files files_a files_b))

  -- The loop over the types: what changed of each, and then its files.
  unfoldable pub report_components :
      (Text → Option ComponentDiff)
      → (Text → Result (DiffError F) (List FileDiff))
      → List Text
      → Result (DiffError F) (List ComponentDiff)
  report_components change read_files [] = ok []
  report_components change read_files (t ∷ ts) = elim (change t) [
    | none ↦ report_components change read_files ts
    | some cd ↦ do
      files ← read_files t
      others ← report_components change read_files ts
      ok (record cd { files = files } ∷ others)
  ]

  unfoldable pub diff_components :
      Reader F
      → Reader F
      → ArtifactConfig
      → ArtifactConfig
      → List ComponentDescriptor
      → List ComponentDescriptor
      → DiffOptions
      → Result (DiffError F) (List ComponentDiff)
  diff_components ra rb cfg_a cfg_b xs ys opts =
      report_components
        (λ t.
          component_change t (lookup t (component_map xs [])) (lookup t (component_map ys []))
            (entrypoint_of t cfg_a.components) (entrypoint_of t cfg_b.components))
        (λ t.
          changed_files ra rb opts t (lookup t (component_map xs []))
            (lookup t (component_map ys [])))
        (union_keys (component_map xs []) (component_map ys []))

  -- `Diff`; `deep_equal` is `reflect.DeepEqual` on subjects.
  unfoldable pub diff :
      (Option Descriptor → Option Descriptor → Bool)
      → Reader F
      → Reader F
      → DiffOptions
      → Result (DiffError F) DiffResult
  diff deep_equal ra rb opts = do
    ma ← in_reader reader_error ra.manifest
    mb ← in_reader reader_error rb.manifest
    ca ← in_reader reader_error ra.config
    cb ← in_reader reader_error rb.config
    xs ← in_reader reader_error ra.components
    ys ← in_reader reader_error rb.components
    components ←
        after
          (fail_if
            (not (is_empty opts.component)
              && (is_empty (selected_components opts xs) && is_empty (selected_components opts ys)))
            (no_such_component opts.component))
          (diff_components ra rb ca cb (selected_components opts xs) (selected_components opts ys)
            opts)
    ok (diff_result deep_equal ma mb ca cb components)
