-- ===== src/PathPlan/Compile/Locales.antt =====
-- What locale rules pick.
use ocidoc_go.Base.{
  ◌≡◌, subst, Bool, true, List, [], ◌∷◌, ◌++◌, Text, ok, ◌>>=◌, ok_inj, through, arith, In, All,
  All-append, All-of, map,
}
use ocidoc_go.Unicode.{CaseTables}
use ocidoc_go.Spec.PathKind.{is_document_path}
use ocidoc_go.Spec.Locales.{BuildLocaleConfig}
use ocidoc_go.Spec.Configs.{ComponentBuildConfig}
use ocidoc_go.PathPlan.Ownership.{Ownership, files_of}
use ocidoc_go.Base.{sort_texts, In-sort_texts}
use ocidoc_go.PathPlan.Compile.{
  PathRules, keep_paths, compile_rules, rules_at, in_rules, compile_locale, component_parse_options,
  exclude, classify_keys, documents_of, classify_component, classify_locales,
}

keep_paths-In :
    (test : Text → Bool) (ps : List Text) (p : Text)
    → In p (keep_paths test ps)
    → In p ps × (test p ≡ true)
unfolding keep_paths
keep_paths-In test [] p m = absurd m
keep_paths-In test (q ∷ ps) p m = ground (arith, keep_paths-In test ps p)

-- A document that the component owns.
abbrev pub IsOwnedDocument : CaseTables → Ownership → Text → Text → Type 0
IsOwnedDocument u ow component p = In p (files_of ow component) × (is_document_path u p ≡ true)

-- Each path of each locale of each component is a document that the component owns.
abbrev pub IsClassified : CaseTables → Ownership → Text × List (Text × List Text) → Type 0
IsClassified u ow r = All (λ (l : Text × List Text). All (IsOwnedDocument u ow r.0) l.1) r.1

module _ {R M F : Type 0} (rules : PathRules R M F) (u : CaseTables) (ow : Ownership) where
  keys-IsClassified :
      (component : Text) (locales : List (Text × BuildLocaleConfig)) (keys : List Text)
      (found : List (Text × List Text))
      → classify_keys rules component locales (documents_of rules u ow component) keys ≡ ok found
      → IsClassified u ow (component, found)
  unfolding classify_keys
  keys-IsClassified component locales [] found h =
      subst (λ found. IsClassified u ow (component, found)) (ok_inj h) tt
  keys-IsClassified component locales (key ∷ keys) found h =
      let (matcher, _, h1) =
        through
          (λ matcher.
            classify_keys rules component locales (documents_of rules u ow component) keys
            >>= λ others. ok (
                (key, keep_paths (rules.included matcher) (documents_of rules u ow component))
                ∷ others))
          found
          (in_rules (compile_locale key component)
            (compile_rules rules (rules_at key locales) component_parse_options exclude))
          h in
      let (others, later, same) =
        through
          (λ others. ok (
            (key, keep_paths (rules.included matcher) (documents_of rules u ow component))
            ∷ others))
          found (classify_keys rules component locales (documents_of rules u ow component) keys)
          h1 in
      subst (λ found. IsClassified u ow (component, found)) (ok_inj same)
        (
          All-of (IsOwnedDocument u ow component)
              (keep_paths (rules.included matcher) (documents_of rules u ow component))
              (λ p m. keep_paths-In (is_document_path u) (files_of ow component) p (
                (In-sort_texts p (keep_paths (is_document_path u) (files_of ow component))).0
                  (keep_paths-In (rules.included matcher) (documents_of rules u ow component) p
                    m).0)),
          keys-IsClassified component locales keys others later,
        )

  component-IsClassified :
      (component : Text) (locales : List (Text × BuildLocaleConfig))
      (found : List (Text × List (Text × List Text)))
      → classify_component rules component locales (documents_of rules u ow component) ≡ ok found
      → All (IsClassified u ow) found
  unfolding classify_component
  component-IsClassified component [] found h = subst (All (IsClassified u ow)) (ok_inj h) tt
  component-IsClassified component (l ∷ ls) found h =
      let (locales, classified, same) =
        through (λ locales. ok ((component, locales) ∷ [])) found
          (classify_keys rules component (l ∷ ls) (documents_of rules u ow component)
            (sort_texts (map (λ (x : Text × BuildLocaleConfig). x.0) (l ∷ ls))))
          h in
      subst (All (IsClassified u ow)) (ok_inj same) (
        keys-IsClassified component (l ∷ ls)
            (sort_texts (map (λ (x : Text × BuildLocaleConfig). x.0) (l ∷ ls))) locales classified,
        tt,
      )

  -- If locales are classified, then every path in a component's locale is a document that this
  -- component owns.
  pub classify_locales-IsClassified :
      (components : List (Text × ComponentBuildConfig))
      (found : List (Text × List (Text × List Text)))
      → classify_locales rules u components ow ≡ ok found
      → All (IsClassified u ow) found
  unfolding classify_locales
  classify_locales-IsClassified [] found h = subst (All (IsClassified u ow)) (ok_inj h) tt
  classify_locales-IsClassified ((component, config) ∷ rest) found h =
      let (here, first, h1) =
        through (λ here. classify_locales rules u rest ow >>= λ others. ok (here ++ others)) found
          (classify_component rules component config.locales (documents_of rules u ow component))
          h in
      let (others, later, same) =
        through (λ others. ok (here ++ others)) found (classify_locales rules u rest ow) h1 in
      subst (All (IsClassified u ow)) (ok_inj same) (
        All-append (IsClassified u ow) here others
          (component-IsClassified component config.locales here first)
          (classify_locales-IsClassified rest others later))
