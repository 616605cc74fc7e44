-- ===== src/Spec/Locales/Accepted.antt =====
-- Which locales of an artifact config are accepted.
use ocidoc_go.Base.{
  ℕ, ◌+◌, ◌≤◌, ◌≡◌, ◌↔◌, ◌⊎◌, refl, Bool, true, false, none, List, [], ◌∷◌, Text, any, All, Pairs,
  is_empty, text_eq, text_eq_sym, All-iff, All-and, arith,
}
use ocidoc_go.Unicode.{CaseTables}
use ocidoc_go.Spec.BundlePath.{validate_bundle_path}
use ocidoc_go.Spec.Locales.{
  ArtifactLocaleConfig, validate_locale_key, validate_bundle_entrypoint, locale_files_from,
  artifact_locales_from, validate_artifact_locales, count_default,
}

-- How many entries are marked as the default.
abbrev pub defaults_of : List (Text × ArtifactLocaleConfig) → ℕ
defaults_of [] = 0
defaults_of ((key, locale) ∷ rest) = count_default (defaults_of rest) locale.default

count_shift : (n k : ℕ) (d : Bool) → n + count_default k d ≡ count_default n d + k
count_shift n k d = ground arith

module _ (u : CaseTables) where
  -- Valid files, none of them twice.
  pub record HasFiles (files : List Text) : Type 0 where
    pub valid : All (λ p. validate_bundle_path u p ≡ none) files
    pub distinct : Pairs (λ p q. text_eq p q ≡ false) files

  pub record IsLocale (entry : Text × ArtifactLocaleConfig) : Type 0 where
    pub key : validate_locale_key entry.0 ≡ none
    pub entrypoint :
        (is_empty entry.1.entrypoint ≡ true) ⊎ (validate_bundle_path u entry.1.entrypoint ≡ none)
    pub files : HasFiles entry.1.files

  files_step :
      (key p : Text) (files seen : List Text)
      → (locale_files_from u key seen (p ∷ files) ≡ none) ↔ (
          (validate_bundle_path u p ≡ none)
          × (any (text_eq p) seen ≡ false)
          × (locale_files_from u key (p ∷ seen) files ≡ none))
  unfolding locale_files_from
  files_step key p files seen = ground arith

  fresh_iff :
      (p : Text) (files seen : List Text)
      → All (λ q. any (text_eq q) (p ∷ seen) ≡ false) files
        ↔ (All (λ q. text_eq p q ≡ false) files × All (λ q. any (text_eq q) seen ≡ false) files)
  fresh_iff p files seen =
      let apart =
        All-iff (λ q. any (text_eq q) (p ∷ seen) ≡ false)
          (λ q. (text_eq p q ≡ false) × (any (text_eq q) seen ≡ false)) files
          (λ q. ground (arith, text_eq_sym p q)) in
      let both = All-and (λ q. text_eq p q ≡ false) (λ q. any (text_eq q) seen ≡ false) files in
      (λ h. both.0 (apart.0 h), λ h. apart.1 (both.1 h))

  files-from_iff :
      (key : Text) (files seen : List Text)
      → (locale_files_from u key seen files ≡ none)
        ↔ (HasFiles files × All (λ p. any (text_eq p) seen ≡ false) files)
  unfolding locale_files_from
  files-from_iff key [] seen = (λ _. (record { valid = tt; distinct = tt }, tt), λ _. refl)
  files-from_iff key (p ∷ files) seen =
      let step = files_step key p files seen in
      let ih = files-from_iff key files (p ∷ seen) in
      let fresh = fresh_iff p files seen in
      (
        λ h.
            let (good, unseen, rest) = step.0 h in
            let (others, later) = ih.0 rest in
            let (apart, still) = fresh.0 later in
            (
              record { valid = (good, others.valid); distinct = (apart, others.distinct) },
              (unseen, still),
            ),
        λ h.
            let others : HasFiles files = record {
              valid = h.0.valid.1;
              distinct = h.0.distinct.1;
            } in
            step.1 (h.0.valid.0, h.1.0, ih.1 (others, fresh.1 (h.0.distinct.0, h.1.1))),
      )

  -- A locale that passes the checks of one round of the loop.
  entrypoint_iff :
      (component entrypoint : Text)
      → (validate_bundle_entrypoint u component entrypoint ≡ none)
        ↔ ((is_empty entrypoint ≡ true) ⊎ (validate_bundle_path u entrypoint ≡ none))
  unfolding validate_bundle_entrypoint
  entrypoint_iff component entrypoint = ground arith

  locales_step :
      (component key : Text) (locale : ArtifactLocaleConfig)
      (rest : List (Text × ArtifactLocaleConfig)) (n : ℕ)
      → (artifact_locales_from u component n ((key, locale) ∷ rest) ≡ none) ↔ (
          (validate_locale_key key ≡ none)
          × (validate_bundle_entrypoint u component locale.entrypoint ≡ none)
          × (count_default n locale.default ≤ 1)
          × (locale_files_from u key [] locale.files ≡ none)
          × (artifact_locales_from u component (count_default n locale.default) rest ≡ none))
  unfolding artifact_locales_from
  locales_step component key locale rest n = ground arith

  IsLocale-iff :
      (component key : Text) (locale : ArtifactLocaleConfig)
      → IsLocale (key, locale) ↔ (
          (validate_locale_key key ≡ none)
          × (validate_bundle_entrypoint u component locale.entrypoint ≡ none)
          × (locale_files_from u key [] locale.files ≡ none))
  IsLocale-iff component key locale =
      let entry = entrypoint_iff component locale.entrypoint in
      let files = files-from_iff key locale.files [] in
      (
        λ h. (h.key, entry.1 h.entrypoint, files.1 (h.files, nothing_seen locale.files)),
        λ h. record { key = h.0; entrypoint = entry.0 h.1; files = (files.0 h.2).0 },
      )
    where
      nothing_seen : (ps : List Text) → All (λ p. any (text_eq p) [] ≡ false) ps
      nothing_seen [] = tt
      nothing_seen (p ∷ ps) = (refl, nothing_seen ps)

  locales-from_iff :
      (component : Text) (locales : List (Text × ArtifactLocaleConfig)) (n : ℕ)
      → n ≤ 1
      → (artifact_locales_from u component n locales ≡ none)
        ↔ (All IsLocale locales × (n + defaults_of locales ≤ 1))
  unfolding artifact_locales_from
  locales-from_iff component [] n h = (λ _. (tt, omega arith), λ _. refl)
  locales-from_iff component ((key, locale) ∷ rest) n h =
      let step = locales_step component key locale rest n in
      let one = IsLocale-iff component key locale in
      let count = count_shift n (defaults_of rest) locale.default in
      let ih = locales-from_iff component rest (count_default n locale.default) in
      (
        λ a.
            let (k, e, d, f, r) = step.0 a in
            let (others, fits) = (ih d).0 r in ((one.1 (k, e, f), others), omega (arith, count)),
        λ a.
            let (k, e, f) = one.0 a.0.0 in
            let fits : count_default n locale.default + defaults_of rest ≤ 1 =
              omega (arith, count, a.1) in
            let d : count_default n locale.default ≤ 1 = omega arith in
            step.1 (k, e, d, f, (ih d).1 (a.0.1, fits)),
      )

  -- The locales of a component are accepted, in whatever order the map yields them, exactly if each
  -- key and entrypoint is valid, each locale's files are valid paths with none of them twice, and at
  -- most one locale is marked as the default.
  pub validate_artifact_locales-eq-none :
      (component : Text) (locales : List (Text × ArtifactLocaleConfig))
      → (validate_artifact_locales u component locales ≡ none)
        ↔ (All IsLocale locales × (defaults_of locales ≤ 1))
  unfolding validate_artifact_locales
  validate_artifact_locales-eq-none component locales =
      let loop = locales-from_iff component locales 0 (omega arith) in
      (λ h. let (a, b) = loop.0 h in (a, omega arith), λ h. loop.1 (h.0, omega arith))
