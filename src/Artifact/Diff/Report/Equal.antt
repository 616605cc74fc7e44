-- ===== src/Artifact/Diff/Report/Equal.antt =====
-- When a diff finds two artifacts equal.
use ocidoc_go.Base.{
  ◌≡◌, ◌↔◌, ◌⊎◌, refl, sym, subst, ◌∙◌, Bool, true, not, ◌&&◌, Option, List, [], ◌∷◌, is_empty,
  Text, text_eq_iff, Result, ok, ◌>>=◌, after, after-eq-ok, fail_if, ok_inj, through, arith, All,
}
use ocidoc_go.Oci.{Descriptor, Manifest}
use ocidoc_go.Spec.Configs.{ArtifactConfig}
use ocidoc_go.Artifact.Diff.{lookup, union_keys, diff_annotations}
use ocidoc_go.Artifact.Diff.Changes.{diff_annotations-eq-nil}
use ocidoc_go.Artifact.Diff.Report.Items.{
  SameLocale, SameComponent, diff_locales-eq-nil, same_components,
}
use ocidoc_go.Artifact.Diff.Report.{
  ComponentDescriptor, ComponentDiff, DiffOptions, DiffResult, Reader, DiffError, no_such_component,
  locales_of, entrypoint_of, diff_locales, component_map, diff_components, selected_components,
  diff_result, diff,
}

module _ (ma mb : Manifest) (ca cb : ArtifactConfig) (xs ys : List ComponentDescriptor)
    (deep_equal : Option Descriptor → Option Descriptor → Bool) where
  -- What two equal artifacts share. A schema version that is empty is not compared.
  pub record AreEqual : Type 0 where
    pub annotations : (k : Text) → lookup k ma.annotations ≡ lookup k mb.annotations
    pub schema : (ca.schema_version ≡ cb.schema_version) ⊎ (ca.schema_version ≡ [])
    pub subject : deep_equal ma.subject mb.subject ≡ true
    pub components :
        All
          (λ t.
            SameComponent (lookup t (component_map xs [])) (lookup t (component_map ys []))
            × (entrypoint_of t ca.components ≡ entrypoint_of t cb.components))
          (union_keys (component_map xs []) (component_map ys []))
    pub locales :
        All
          (λ c.
            All
              (λ key.
                SameLocale
                  (lookup key (locales_of c ca.components))
                  (lookup key (locales_of c cb.components)))
              (union_keys (locales_of c ca.components) (locales_of c cb.components)))
          (union_keys ca.components cb.components)

is_empty_iff : {A : Type 0} (xs : List A) → (is_empty xs ≡ true) ↔ (xs ≡ [])
is_empty_iff [] = (λ _. refl, λ _. refl)
is_empty_iff (x ∷ xs) = (λ h. cc, λ h. cc)

-- The flag of a report, taken apart.
equal_parts :
    (deep_equal : Option Descriptor → Option Descriptor → Bool) (ma mb : Manifest)
    (ca cb : ArtifactConfig) (found : List ComponentDiff)
    → ((diff_result deep_equal ma mb ca cb found).equal ≡ true) ↔ (
        (diff_annotations ma.annotations mb.annotations ≡ [])
        × ((ca.schema_version ≡ cb.schema_version) ⊎ (ca.schema_version ≡ []))
        × (deep_equal ma.subject mb.subject ≡ true)
        × (found ≡ [])
        × (diff_locales ca.components cb.components ≡ []))
unfolding diff_result
equal_parts deep_equal ma mb ca cb found = ground (
  arith,
  is_empty_iff (diff_annotations ma.annotations mb.annotations),
  is_empty_iff found,
  is_empty_iff (diff_locales ca.components cb.components),
  is_empty_iff ca.schema_version,
  text_eq_iff ca.schema_version cb.schema_version,
)

module _ {F : Type 0} (deep_equal : Option Descriptor → Option Descriptor → Bool) (ra rb : Reader F)
    (opts : DiffOptions) where
  -- What both readers give.
  pub record Reads (ma mb : Manifest) (ca cb : ArtifactConfig) (xs ys : List ComponentDescriptor)
      : Type 0 where
    pub manifest_a : ra.manifest ≡ ok ma
    pub manifest_b : rb.manifest ≡ ok mb
    pub config_a : ra.config ≡ ok ca
    pub config_b : rb.config ≡ ok cb
    pub components_a : ra.components ≡ ok xs
    pub components_b : rb.components ≡ ok ys

  -- `diff` behind its reads.
  abbrev compared :
      Manifest
      → Manifest
      → ArtifactConfig
      → ArtifactConfig
      → List ComponentDescriptor
      → List ComponentDescriptor
      → Result (DiffError F) DiffResult
  compared ma mb ca cb xs ys =
      after
        (fail_if
          (not (is_empty opts.component)
            && (is_empty (selected_components opts xs) && is_empty (selected_components opts ys)))
          (no_such_component opts.component))
        (diff_components ra rb ca cb (selected_components opts xs) (selected_components opts ys)
          opts)
      >>= λ components. ok (diff_result deep_equal ma mb ca cb components)

  behind-Reads :
      (ma mb : Manifest) (ca cb : ArtifactConfig) (xs ys : List ComponentDescriptor)
      (r : DiffResult)
      → Reads ma mb ca cb xs ys
      → diff deep_equal ra rb opts ≡ ok r
      → compared ma mb ca cb xs ys ≡ ok r
  unfolding diff
  behind-Reads ma mb ca cb xs ys r reads h =
      sym (
        rw
          (
            reads.manifest_a, reads.manifest_b, reads.config_a, reads.config_b, reads.components_a,
            reads.components_b, diff,
          )
          refl)
      ∙ h

  reported :
      (ma mb : Manifest) (ca cb : ArtifactConfig) (xs ys : List ComponentDescriptor)
      (r : DiffResult)
      → compared ma mb ca cb xs ys ≡ ok r
      → (found : List ComponentDiff) × (diff_components ra rb ca cb
            (selected_components opts xs)
            (selected_components opts ys)
            opts
          ≡ ok found)
        × (diff_result deep_equal ma mb ca cb found ≡ r)
  reported ma mb ca cb xs ys r h =
      let parts =
        diff_components ra rb ca cb (selected_components opts xs) (selected_components opts ys)
          opts in
      let check =
        fail_if
          (not (is_empty opts.component)
            && (is_empty (selected_components opts xs) && is_empty (selected_components opts ys)))
          (no_such_component opts.component) in
      let (found, h1, same) =
        through (λ components. ok (diff_result deep_equal ma mb ca cb components)) r
          (after check parts) h in
      (found, (after-eq-ok check parts found h1).1, ok_inj same)

  -- If both readers give a manifest, a config and components, and the diff succeeds, then it reports
  -- equality exactly if the annotations agree at every key, the schema versions agree or the first is
  -- empty, the subjects are deeply equal, each selected component of either side is on both sides with
  -- one digest and has one entrypoint in both configs, and each locale of either side has one config on
  -- both sides.
  pub diff-AreEqual :
      (ma mb : Manifest) (ca cb : ArtifactConfig) (xs ys : List ComponentDescriptor)
      (r : DiffResult)
      → Reads ma mb ca cb xs ys
      → diff deep_equal ra rb opts ≡ ok r
      → (r.equal ≡ true)
        ↔ AreEqual ma mb ca cb
            (selected_components opts xs)
            (selected_components opts ys)
            deep_equal
  diff-AreEqual ma mb ca cb xs ys r reads h =
      let (found, listed, same) =
        reported ma mb ca cb xs ys r (behind-Reads ma mb ca cb xs ys r reads h) in
      let parts = equal_parts deep_equal ma mb ca cb found in
      let notes = diff_annotations-eq-nil ma.annotations mb.annotations in
      let comps =
        same_components ra rb ca cb (selected_components opts xs) (selected_components opts ys) opts
          found listed in
      let locs = diff_locales-eq-nil ca.components cb.components in
      subst
        (λ (r : DiffResult).
          (r.equal ≡ true)
          ↔ AreEqual ma mb ca cb (selected_components opts xs) (selected_components opts ys)
              deep_equal)
        same
        (
          λ e.
              let (a, s, d, c, l) = parts.0 e in
              record {
                annotations = notes.0 a;
                schema = s;
                subject = d;
                components = comps.0 c;
                locales = locs.0 l;
              },
          λ q.
              parts.1 (
                notes.1 q.annotations,
                q.schema,
                q.subject,
                comps.1 q.components,
                locs.1 q.locales,
              ),
        )
