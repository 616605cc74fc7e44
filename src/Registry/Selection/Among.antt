-- ===== src/Registry/Selection/Among.antt =====
-- The selection is made among the candidates of the lookups, and what strict mode adds.
use mathlib.Core.Bool.{true≢false}
use ocidoc_go.Base.{
  ◌≡◌, subst, ◌⊎◌, refl, sym, ap, ◌∙◌, true, false, Option, none, some, List, [], ◌∷◌, text_eq,
  is_empty, ok, err, arith, inl, inr, Bool-cases, In, if◌then◌else◌,
}
use ocidoc_go.Registry.Errors.{Failure}
use ocidoc_go.Registry.Discovery.{
  DiscoverOptions, Candidate, Branch, Selection, mode_tag, mode_referrer,
}
use ocidoc_go.Registry.Selection.{
  from_tag, reconcile_tag_and_referrers, only_one, without_referrers, referrers_only,
  both_looked_up, tag_failure, reconcile_auto_discovery, reconcile_discovery,
}
use ocidoc_go.Registry.Selection.Chosen.{
  select_single-one, only_one-eq-some, In-one, with_tag, without_referrers-one, referrers_only-one,
}

-- The selection is among the candidates of one of the two lookups.
abbrev pub Among : List Candidate → List Candidate → Selection → Type 0
Among tags refs s =
    (In s.selected tags × (s.candidates ≡ tags)) ⊎ (In s.selected refs × (s.candidates ≡ refs))

-- What strict mode promises: no conflict, no warning, and no referrer against the tag's artifact.
abbrev pub Agreed : List Candidate → List Candidate → Selection → Type 0
Agreed tags refs s =
    (s.in_conflict ≡ false)
    × (s.warnings ≡ [])
    × ((c : Candidate) → tags ≡ c ∷ [] → s.selected.descriptor.digest ≡ c.descriptor.digest)

only_one-none : (tags : List Candidate) (c : Candidate) → tags ≡ c ∷ [] → only_one tags ≡ none → ⊥
unfolding only_one
only_one-none [] c t e = cc
only_one-none (x ∷ []) c t e = cc
only_one-none (x ∷ y ∷ tags) c t e = cc

same_one : (tags : List Candidate) (c x : Candidate) → tags ≡ c ∷ [] → tags ≡ x ∷ [] → c ≡ x
same_one tags c x e f = cc

both-Among :
    (opts : DiscoverOptions) (tags refs : List Candidate) (s : Selection)
    → both_looked_up opts tags refs ≡ ok s
    → Among tags refs s × (opts.strict ≡ true → Agreed tags refs s)
unfolding both_looked_up
both-Among opts tags refs s h = go (only_one tags) refl h
  where
    go :
        (o : Option Candidate)
        → only_one tags ≡ o
        → elim o [
          | none ↦ referrers_only refs
          | some c ↦
              if is_empty refs
              then ok (from_tag [] tags c)
              else reconcile_tag_and_referrers opts c refs
        ]
          ≡ ok s
        → Among tags refs s × (opts.strict ≡ true → Agreed tags refs s)
    go none e h =
        let (one, same, calm, silent) = referrers_only-one refs s h in
        (
          inr (In-one refs s.selected one, same),
          λ _. (calm, silent, λ c t. absurd (only_one-none tags c t e)),
        )
    go (some c) e h = elim (Bool-cases (is_empty refs)) [
      | inl none_left ↦
          let chosen : from_tag [] tags c ≡ s = ground arith in
          (
            inl (
              subst (λ s. In s.selected tags) chosen (In-one tags c one),
              ap (λ s. s.candidates) (sym chosen),
            ),
            λ _. (
              ap (λ s. s.in_conflict) (sym chosen),
              ap (λ s. s.warnings) (sym chosen),
              λ x t.
                  ap (λ s. s.selected.descriptor.digest) (sym chosen)
                  ∙ ap (λ c. c.descriptor.digest) (same_one tags c x one t),
            ),
          )
      | inr some_left ↦
          let (i, same, agreed) = with_tag opts c refs s (ground arith) in
          (
            inr (i, same),
            λ strict.
                let (calm, silent, digest) = agreed strict in
                (
                  calm,
                  silent,
                  λ x t. digest ∙ ap (λ c. c.descriptor.digest) (same_one tags c x one t),
                ),
          )
    ]
      where
        one : tags ≡ c ∷ []
        one = only_one-eq-some tags c e

pub auto-Among :
    (opts : DiscoverOptions) (tag referrer : Branch) (s : Selection)
    → reconcile_auto_discovery opts tag referrer ≡ ok s
    → Among tag.candidates referrer.candidates s
      × (opts.strict ≡ true → Agreed tag.candidates referrer.candidates s)
unfolding reconcile_auto_discovery
auto-Among opts tag referrer s h = go (tag_failure tag) referrer.failed h
  where
    go :
        (t r : Option Failure)
        → elim t [
          | some f ↦ err f
          | none ↦ elim r [
            | some f ↦ without_referrers opts tag.candidates f
            | none ↦ both_looked_up opts tag.candidates referrer.candidates
          ]
        ]
          ≡ ok s
        → Among tag.candidates referrer.candidates s
          × (opts.strict ≡ true → Agreed tag.candidates referrer.candidates s)
    go (some f) r h = cc
    go none (some f) h =
        let (i, same, lax, _) = without_referrers-one opts tag.candidates f s h in
        (inl (i, same), λ strict. absurd (true≢false (sym strict ∙ lax)))
    go none none h = both-Among opts tag.candidates referrer.candidates s h

pub reconcile-Among :
    (opts : DiscoverOptions) (tag referrer : Branch) (s : Selection)
    → reconcile_discovery opts tag referrer ≡ ok s
    → Among tag.candidates referrer.candidates s
unfolding reconcile_discovery
reconcile-Among opts tag referrer s h = elim (Bool-cases (text_eq opts.mode mode_tag)) [
  | inl e ↦
      let (one, same) = select_single-one tag true false s (ground arith) in
      inl (In-one tag.candidates s.selected one, same)
  | inr n ↦ elim (Bool-cases (text_eq opts.mode mode_referrer)) [
    | inl e ↦
        let (one, same) = select_single-one referrer false true s (ground arith) in
        inr (In-one referrer.candidates s.selected one, same)
    | inr m ↦ (auto-Among opts tag referrer s (ground arith)).0
  ]
]
