-- ===== src/Registry/Selection/Discovered.antt =====
-- What `Discover` returns.
use ocidoc_go.Base.{
  ◌≡◌, sym, ap, subst, true, Option, List, Text, Result, ok, ◌>>=◌, through, inl, inr, In, All,
  All_at, ◌∙◌,
}
use ocidoc_go.Oci.{Digests, Manifest}
use ocidoc_go.Registry.Errors.{Failure}
use ocidoc_go.Registry.Discovery.{
  DiscoverOptions, Candidate, Branch, Selection, normalize_discover_options,
}
use ocidoc_go.Registry.Lookup.{run_discovery}
use ocidoc_go.Registry.Lookup.Attached.{IsAttached, run_discovery-IsAttached}
use ocidoc_go.Registry.Selection.{Subject, discover, reconcile_discovery, reconcile_auto_discovery}
use ocidoc_go.Registry.Selection.Among.{Among, Agreed, reconcile-Among, auto-Among}

Among-All :
    (P : Candidate → Type 0) (tags refs : List Candidate) (s : Selection)
    → All P tags
    → All P refs
    → Among tags refs s
    → P s.selected × In s.selected s.candidates × All P s.candidates
Among-All P tags refs s pt pr (inl (i, same)) =
    (All_at P tags pt i, subst (In s.selected) (sym same) i, subst (All P) (sym same) pt)
Among-All P tags refs s pt pr (inr (i, same)) =
    (All_at P refs pr i, subst (In s.selected) (sym same) i, subst (All P) (sym same) pr)

module _ (d : Digests) (parse : Text → Option Manifest) where
  chosen-IsAttached :
      (subject : Subject) (opts : DiscoverOptions) (s : Selection)
      → reconcile_discovery opts
          (run_discovery d parse subject.repo subject.documentation_tag subject.descriptor opts).0
          (run_discovery d parse subject.repo subject.documentation_tag subject.descriptor opts).1
        ≡ ok s
      → IsAttached subject.descriptor opts s.selected
        × In s.selected s.candidates
        × All (IsAttached subject.descriptor opts) s.candidates
  chosen-IsAttached subject opts s h =
      let found =
        run_discovery d parse subject.repo subject.documentation_tag subject.descriptor opts in
      let (pt, pr) =
        run_discovery-IsAttached d parse subject.repo subject.documentation_tag subject.descriptor
          opts in
      Among-All (IsAttached subject.descriptor opts) found.0.candidates found.1.candidates s pt pr
        (reconcile-Among opts found.0 found.1 s h)

  -- What Discover returns for a resolved subject, in any mode, is one of the candidates it lists, and
  -- it and each candidate is an OCIDoc manifest whose subject is the resolved one and which has the
  -- document, variant and digest that the options name.
  pub discover-IsAttached :
      (opts opts' : DiscoverOptions) (subject : Subject) (s : Selection)
      → discover d parse opts (ok subject) ≡ ok (s, opts')
      → IsAttached subject.descriptor opts' s.selected
        × In s.selected s.candidates
        × All (IsAttached subject.descriptor opts') s.candidates
  unfolding discover
  discover-IsAttached opts opts' subject s h =
      let (used, _, run) =
        through behind_options (s, opts') (normalize_discover_options d opts) h in
      let (chosen, picked, same) = through (λ c. ok (c, used)) (s, opts') (reconciled used) run in
      let both = unwrapped chosen used same in
      subst
        (λ o.
          IsAttached subject.descriptor o s.selected
          × In s.selected s.candidates
          × All (IsAttached subject.descriptor o) s.candidates)
        both.1 (chosen-IsAttached subject used s (picked ∙ ap (λ c. ok c) both.0))
    where
      reconciled : DiscoverOptions → Result Failure Selection
      reconciled o =
          reconcile_discovery o
            (run_discovery d parse subject.repo subject.documentation_tag subject.descriptor o).0
            (run_discovery d parse subject.repo subject.documentation_tag subject.descriptor o).1

      unwrapped :
          (c : Selection) (o : DiscoverOptions)
          → Path (Result Failure (Selection × DiscoverOptions)) (ok (c, o)) (ok (s, opts'))
          → (c ≡ s) × (o ≡ opts')
      unwrapped c o e = (cc, cc)

      behind_options : DiscoverOptions → Result Failure (Selection × DiscoverOptions)
      behind_options o = reconciled o >>= (λ c. ok (c, o))

-- In automatic mode and with the strict option, a selection has no conflict and no warning, and
-- where the direct tag gave a candidate the selected manifest has that candidate's digest.
pub reconcile_auto_discovery-Agreed :
    (opts : DiscoverOptions) (tag referrer : Branch) (s : Selection)
    → opts.strict ≡ true
    → reconcile_auto_discovery opts tag referrer ≡ ok s
    → Agreed tag.candidates referrer.candidates s
reconcile_auto_discovery-Agreed opts tag referrer s strict h =
    (auto-Among opts tag referrer s h).1 strict
