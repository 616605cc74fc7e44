-- ===== src/Artifact/Diff/Report/Items.antt =====
-- When a diff finds nothing in the locales, and nothing in the components.
use ocidoc_go.Base.{
  ◌≡◌, ◌↔◌, refl, sym, true, Option, none, some, List, [], ◌∷◌, ◌++◌, Text, text_eq_iff, Result, ok,
  ◌>>=◌, after, ok_inj, through, arith, All, All-iff,
}
use ocidoc_go.Oci.{Descriptor}
use ocidoc_go.Spec.Locales.{ArtifactLocaleConfig}
use ocidoc_go.Spec.Configs.{ArtifactConfig, ComponentConfig}
use ocidoc_go.Artifact.Diff.{FileDiff, lookup, union_keys, is_set, same_bool}
use ocidoc_go.Artifact.Diff.Keys.{collect-eq-nil}
use ocidoc_go.Artifact.Diff.Report.{
  ComponentDescriptor, ComponentDiff, DiffOptions, Reader, DiffError, texts_eq, same_config,
  locale_change, locales_of, entrypoint_of, component_locales, gather, diff_locales, component_map,
  digest_changed, content_changed, component_change, changed_files, report_components,
  diff_components,
}

texts_eq_iff : (a b : List Text) → (texts_eq a b ≡ true) ↔ (a ≡ b)
unfolding texts_eq
texts_eq_iff [] [] = (λ _. refl, λ _. refl)
texts_eq_iff [] (t ∷ ts) = (λ h. cc, λ h. cc)
texts_eq_iff (s ∷ ss) [] = (λ h. cc, λ h. cc)
texts_eq_iff (s ∷ ss) (t ∷ ts) = ground (arith, text_eq_iff s t, texts_eq_iff ss ts)

same_config_iff : (a b : ArtifactLocaleConfig) → (same_config a b ≡ true) ↔ (a ≡ b)
unfolding same_config same_bool
same_config_iff a b =
    ground (arith, text_eq_iff a.entrypoint b.entrypoint, texts_eq_iff a.files b.files)

-- Both maps have the locale, with one config.
abbrev pub SameLocale : Option ArtifactLocaleConfig → Option ArtifactLocaleConfig → Type 0
SameLocale none b = ⊥
SameLocale (some x) none = ⊥
SameLocale (some x) (some y) = x ≡ y

locale_change-eq-none :
    (c key : Text) (b a : Option ArtifactLocaleConfig)
    → (locale_change c key b a ≡ none) ↔ SameLocale b a
unfolding locale_change is_set
locale_change-eq-none c key none a = (λ h. cc, λ h. absurd h)
locale_change-eq-none c key (some x) none = (λ h. cc, λ h. absurd h)
locale_change-eq-none c key (some x) (some y) = ground (arith, same_config_iff x y)

-- Both sides have the component with one digest, or neither has it.
abbrev pub SameComponent : Option Descriptor → Option Descriptor → Type 0
SameComponent none none = Unit
SameComponent (some a) none = ⊥
SameComponent none (some b) = ⊥
SameComponent (some a) (some b) = a.digest ≡ b.digest

component_change-eq-none :
    (t : Text) (a b : Option Descriptor) (ep_a ep_b : Text)
    → (component_change t a b ep_a ep_b ≡ none) ↔ (SameComponent a b × (ep_a ≡ ep_b))
unfolding component_change content_changed digest_changed is_set same_bool
component_change-eq-none t none none ep_a ep_b = ground (arith, text_eq_iff ep_a ep_b)
component_change-eq-none t (some a) none ep_a ep_b = ground arith
component_change-eq-none t none (some b) ep_a ep_b = ground arith
component_change-eq-none t (some a) (some b) ep_a ep_b =
    ground (arith, text_eq_iff ep_a ep_b, text_eq_iff a.digest b.digest)

append-eq-nil : {D : Type 0} (xs ys : List D) → ((xs ++ ys) ≡ []) ↔ ((xs ≡ []) × (ys ≡ []))
append-eq-nil [] ys = ground arith
append-eq-nil (x ∷ xs) ys = (λ h. cc, λ h. cc)

gather-eq-nil :
    {D : Type 0} (f : Text → List D) (ks : List Text) → (gather f ks ≡ []) ↔ All (λ k. f k ≡ []) ks
unfolding gather
gather-eq-nil f [] = (λ _. tt, λ _. refl)
gather-eq-nil f (k ∷ ks) = ground (arith, append-eq-nil (f k) (gather f ks), gather-eq-nil f ks)

-- The loop over the components finds nothing exactly if no component changed.
report-eq-nil :
    {F : Type 0} (change : Text → Option ComponentDiff)
    (read_files : Text → Result (DiffError F) (List FileDiff)) (ts : List Text)
    (found : List ComponentDiff)
    → report_components change read_files ts ≡ ok found
    → (found ≡ []) ↔ All (λ t. change t ≡ none) ts
unfolding report_components
report-eq-nil change read_files [] found h = (λ _. tt, λ _. sym (ok_inj h))
report-eq-nil {F} change read_files (t ∷ ts) found h =
    go (change t) refl h (report-eq-nil change read_files ts)
  where
    go :
        (o : Option ComponentDiff)
        → change t ≡ o
        → ◌≡◌ {A = Result (DiffError F) (List ComponentDiff)}
            (elim o [
              | none ↦ report_components change read_files ts
              | some cd ↦ read_files t >>= λ files.
                  report_components change read_files ts >>= λ others.
                  ok (record cd { files = files } ∷ others)
            ])
            (ok found)
        → ((found : List ComponentDiff)
            → report_components change read_files ts ≡ ok found
            → (found ≡ []) ↔ All (λ t. change t ≡ none) ts)
        → (found ≡ []) ↔ ((change t ≡ none) × All (λ t. change t ≡ none) ts)
    go none same h rest = (λ e. (same, (rest found h).0 e), λ all. (rest found h).1 all.1)
    go (some cd) same h rest =
        let (files, _, h1) =
          through
            (λ files. report_components change read_files ts >>= λ others.
              ok (record cd { files = files } ∷ others))
            found (read_files t) h in
        let (others, _, h2) =
          through (λ others. ok (record cd { files = files } ∷ others)) found
            (report_components change read_files ts) h1 in
        let nonempty = ok_inj h2 in (λ e. cc, λ all. cc)

pub diff_locales-eq-nil :
    (before after : List (Text × ComponentConfig))
    → (diff_locales before after ≡ [])
      ↔ All
          (λ c.
            All
              (λ key.
                SameLocale (lookup key (locales_of c before)) (lookup key (locales_of c after)))
              (union_keys (locales_of c before) (locales_of c after)))
          (union_keys before after)
unfolding diff_locales component_locales
diff_locales-eq-nil before after =
    let outer = gather-eq-nil (component_locales before after) (union_keys before after) in
    let inner =
      All-iff (λ c. component_locales before after c ≡ [])
        (λ c.
          All
            (λ key. SameLocale (lookup key (locales_of c before)) (lookup key (locales_of c after)))
            (union_keys (locales_of c before) (locales_of c after)))
        (union_keys before after) (λ c. same_locales c) in
    (λ h. inner.0 (outer.0 h), λ h. outer.1 (inner.1 h))
  where
    same_locales :
        (c : Text)
        → (component_locales before after c ≡ [])
          ↔ All
              (λ key.
                SameLocale (lookup key (locales_of c before)) (lookup key (locales_of c after)))
              (union_keys (locales_of c before) (locales_of c after))
    same_locales c =
        let keys = union_keys (locales_of c before) (locales_of c after) in
        let found =
          collect-eq-nil
            (λ key.
              locale_change c key (lookup key (locales_of c before))
                (lookup key (locales_of c after)))
            keys in
        let each =
          All-iff
            (λ key.
              locale_change c key (lookup key (locales_of c before))
                (lookup key (locales_of c after))
              ≡ none)
            (λ key. SameLocale (lookup key (locales_of c before)) (lookup key (locales_of c after)))
            keys
            (λ key.
              locale_change-eq-none c key (lookup key (locales_of c before))
                (lookup key (locales_of c after))) in
        (λ h. each.0 (found.0 h), λ h. found.1 (each.1 h))

pub same_components :
    {F : Type 0} (ra rb : Reader F) (ca cb : ArtifactConfig) (xs ys : List ComponentDescriptor)
    (opts : DiffOptions) (found : List ComponentDiff)
    → diff_components ra rb ca cb xs ys opts ≡ ok found
    → (found ≡ [])
      ↔ All
          (λ t.
            SameComponent (lookup t (component_map xs [])) (lookup t (component_map ys []))
            × (entrypoint_of t ca.components ≡ entrypoint_of t cb.components))
          (union_keys (component_map xs []) (component_map ys []))
unfolding diff_components
same_components ra rb ca cb xs ys opts found h =
    let ts = union_keys (component_map xs []) (component_map ys []) in
    let reported =
      report-eq-nil
        (λ t.
          component_change t (lookup t (component_map xs [])) (lookup t (component_map ys []))
            (entrypoint_of t ca.components) (entrypoint_of t cb.components))
        (λ t.
          changed_files ra rb opts t (lookup t (component_map xs []))
            (lookup t (component_map ys [])))
        ts found h in
    let each =
      All-iff
        (λ t.
          component_change t (lookup t (component_map xs [])) (lookup t (component_map ys []))
            (entrypoint_of t ca.components) (entrypoint_of t cb.components)
          ≡ none)
        (λ t.
          SameComponent (lookup t (component_map xs [])) (lookup t (component_map ys []))
          × (entrypoint_of t ca.components ≡ entrypoint_of t cb.components))
        ts
        (λ t.
          component_change-eq-none t (lookup t (component_map xs []))
            (lookup t (component_map ys [])) (entrypoint_of t ca.components)
            (entrypoint_of t cb.components)) in
    (λ e. each.0 (reported.0 e), λ all. reported.1 (each.1 all))
