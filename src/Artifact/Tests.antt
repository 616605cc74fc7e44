-- ===== src/Artifact/Tests.antt =====
-- Runs of the diff.
use ocidoc_go.Base.{◌≡◌, ◌↔◌, refl, [], ◌∷◌, Text, text_eq, codes, pos}
use ocidoc_go.Oci.{int_eq}
use ocidoc_go.Base.{text_leb, insert_text, sort_texts}
use ocidoc_go.Archive.Scan.{ScanEntry}
use ocidoc_go.Artifact.Diff.{
  file_added, file_modified, lookup, key_list, distinct, union_keys, collect, file_change, by_name,
  diff_component_files, diff_annotations,
}
use ocidoc_go.Base.{none, true, false, ok}
use ocidoc_go.Oci.{Descriptor, Manifest}
use ocidoc_go.Spec.Configs.{ArtifactConfig}
use ocidoc_go.Artifact.Diff.{is_set, same_bool, annotation_change, value_or_empty}
use ocidoc_go.Artifact.Diff.Report.{
  Reader, DiffOptions, DiffResult, component_present, diff, diff_result, selected_components,
  diff_components, report_components, changed_files, component_files, component_change,
  content_changed, digest_changed, presence_of, component_map, entrypoint_of, locales_of,
  diff_locales, component_locales, gather,
}
use ocidoc_go.Artifact.Diff.Report.Equal.{AreEqual, diff-AreEqual}
use ocidoc_go.Artifact.Diff.Changes.{SameFile, diff_annotations-eq-nil, diff_component_files-eq-nil}

abbrev fingerprint : Text → Text → ScanEntry
fingerprint name digest = record { name = name; digest = digest; size = pos 1 }

finds_both :
    diff_component_files
      (fingerprint (codes "b") (codes "1") ∷ [])
      (fingerprint (codes "b") (codes "2") ∷ fingerprint (codes "a") (codes "1") ∷ [])
    ≡ (record { path = codes "a"; change = file_added; size_before = pos 0; size_after = pos 1 })
      ∷ (record {
        path = codes "b";
        change = file_modified;
        size_before = pos 1;
        size_after = pos 1;
      })
      ∷ []
unfolding diff_component_files by_name collect union_keys key_list distinct sort_texts insert_text
    text_leb text_eq lookup file_change int_eq
finds_both = refl

diff_annotations-eq-nil_example :
    (diff_annotations ((codes "k", []) ∷ []) [] ≡ [])
    ↔ ((k : Text) → lookup k ((codes "k", []) ∷ []) ≡ lookup {V = Text} k [])
diff_annotations-eq-nil_example = diff_annotations-eq-nil ((codes "k", []) ∷ []) []

diff_component_files-eq-nil_example :
    (diff_component_files
        (fingerprint (codes "a") (codes "1") ∷ [])
        (fingerprint (codes "a") (codes "1") ∷ [])
      ≡ [])
    ↔ ((p : Text)
        → SameFile
            (lookup p (by_name (fingerprint (codes "a") (codes "1") ∷ []) []))
            (lookup p (by_name (fingerprint (codes "a") (codes "1") ∷ []) [])))
diff_component_files-eq-nil_example =
    diff_component_files-eq-nil (fingerprint (codes "a") (codes "1") ∷ [])
      (fingerprint (codes "a") (codes "1") ∷ [])

abbrev layer : Text → Descriptor
layer d = record {
  digest = d;
  media_type = [];
  artifact_type = [];
  size = pos 1;
  annotations = [];
  unread = [];
}

abbrev manifest : Manifest
manifest = record {
  artifact_type = [];
  subject = none;
  config = layer (codes "c");
  layers = [];
  annotations = (codes "title", codes "Guide") ∷ [];
}

abbrev guide_config : ArtifactConfig
guide_config = record {
  components = (codes "license", record { locales = []; entrypoint = codes "LICENSE" }) ∷ [];
  schema = [];
  schema_version = codes "v1beta";
}

abbrev opened : Text → Text → Reader Text
opened blob file_digest = record {
  manifest = ok manifest;
  config = ok guide_config;
  components = ok ((codes "license", layer blob) ∷ []);
  scan_files = λ c. ok (fingerprint (codes "LICENSE") file_digest ∷ []);
}

abbrev everything : DiffOptions
everything = record { component = []; metadata_only = false }

abbrev changed_license : DiffResult
changed_license = record {
  schema_version_before = [];
  schema_version_after = [];
  subject_before = none;
  subject_after = none;
  annotations = [];
  components =
      (record {
        component = codes "license";
        digest_before = codes "1";
        digest_after = codes "2";
        entrypoint_before = [];
        entrypoint_after = [];
        files =
            (record {
              path = codes "LICENSE";
              change = file_modified;
              size_before = pos 1;
              size_after = pos 1;
            })
            ∷ [];
        presence = component_present;
        digest_changed = true;
        entrypoint_changed = false;
      })
      ∷ [];
  locales = [];
  equal = false;
}

diff_runs :
    diff (λ a b. true) (opened (codes "1") (codes "x")) (opened (codes "2") (codes "y")) everything
    ≡ ok changed_license
unfolding diff diff_result selected_components diff_components report_components changed_files
    component_files component_change content_changed digest_changed presence_of component_map
    entrypoint_of locales_of diff_locales component_locales gather same_bool is_set diff_annotations
    annotation_change value_or_empty diff_component_files by_name collect union_keys key_list
    distinct sort_texts insert_text text_leb text_eq lookup file_change int_eq
diff_runs = refl

diff-AreEqual_example :
    (changed_license.equal ≡ true)
    ↔ AreEqual manifest manifest guide_config guide_config
        (selected_components everything ((codes "license", layer (codes "1")) ∷ []))
        (selected_components everything ((codes "license", layer (codes "2")) ∷ []))
        (λ a b. true)
diff-AreEqual_example =
    diff-AreEqual (λ a b. true) (opened (codes "1") (codes "x")) (opened (codes "2") (codes "y"))
      everything manifest manifest guide_config guide_config
      ((codes "license", layer (codes "1")) ∷ []) ((codes "license", layer (codes "2")) ∷ [])
      changed_license
      (record {
        manifest_a = refl;
        manifest_b = refl;
        config_a = refl;
        config_b = refl;
        components_a = refl;
        components_b = refl;
      })
      diff_runs
