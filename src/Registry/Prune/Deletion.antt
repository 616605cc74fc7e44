-- ===== src/Registry/Prune/Deletion.antt =====
-- What carrying out a plan deletes.
use mathlib.Core.Bool.{true≢false}
use ocidoc_go.Base.{
  append-nil, ◌≡◌, ◌≢◌, ◌⊎◌, refl, sym, ap, subst, ◌∙◌, Bool, true, false, not, Option, none, some,
  List, [], ◌∷◌, ◌++◌, is_empty, text_eq, Result, ok, err, ◌>>=◌, inl, inr, Bool-cases, In,
  In-append, All, All-of, through,
}
use ocidoc_go.Oci.{Descriptor}
use ocidoc_go.Registry.Errors.{about_blob, wrap_error, OrasError, Failure}
use ocidoc_go.Registry.Discovery.{Candidate, candidate_descriptors}
use ocidoc_go.Registry.Prune.{
  PruneOptions, Plan, keep_if, planned, plan_prune, select_prune_keep, filter_prune_selectors,
  kept_digest, execute_prune, carry_out,
}
use ocidoc_go.Registry.Prune.Planned.{plan_prune-IsSuperseded}

kept_none : (p : Candidate → Bool) → keep_if p [] ≡ []
unfolding keep_if
kept_none p = refl

empty_selected :
    (primary : Option Candidate) (cs : List Candidate) (opts : PruneOptions) (plan : Plan)
    → plan_prune primary cs opts ≡ ok plan
    → is_empty plan.matched ≡ true
    → candidate_descriptors plan.selected ≡ []
unfolding plan_prune candidate_descriptors
empty_selected primary cs opts plan h none_matched =
    let (keep, _, same) =
      through (λ keep. ok (planned (filter_prune_selectors cs opts) keep)) plan
        (select_prune_keep primary (filter_prune_selectors cs opts) opts) h in
    go keep plan.matched plan.selected (ap (λ p. p.selected) (sym (unwrapped keep same)))
      (ap (λ p. p.matched) (sym (unwrapped keep same))) none_matched
  where
    unwrapped :
        (keep : Option Candidate)
        → Path (Result Failure Plan) (ok (planned (filter_prune_selectors cs opts) keep)) (ok plan)
        → planned (filter_prune_selectors cs opts) keep ≡ plan
    unwrapped keep e = cc

    go :
        (keep : Option Candidate) (matched selected : List Candidate)
        → selected ≡ (planned (filter_prune_selectors cs opts) keep).selected
        → matched ≡ (planned (filter_prune_selectors cs opts) keep).matched
        → is_empty matched ≡ true
        → candidate_descriptors selected ≡ []
    go keep (c ∷ matched) selected e f g = cc
    go keep [] selected e f g = ap candidate_descriptors (
        e
        ∙ ap (keep_if (λ c. not (text_eq c.descriptor.digest (kept_digest keep)))) (sym f)
        ∙ kept_none (λ c. not (text_eq c.descriptor.digest (kept_digest keep))))

module _ {S : Type 0} (delete : Descriptor → S → Result OrasError S) where
  -- Deleting one after the other, each with success.
  abbrev pub delete_all : List Descriptor → S → Result OrasError S
  delete_all [] st = ok st
  delete_all (x ∷ xs) st = delete x st >>= delete_all xs

  -- The deleted descriptors are the first ones of the list, all of them where nothing failed, and
  -- the registry is what deleting them gives.
  abbrev pub Partly : List Descriptor → S → S × List Descriptor × Option Failure → Type 0
  Partly xs st run =
      (rest : List Descriptor) × (xs ≡ run.1 ++ rest)
      × (run.2 ≡ none → rest ≡ [])
      × (delete_all run.1 st ≡ ok run.0)

  execute_prune-Partly :
      (cs : List Candidate) (st : S)
      → Partly (candidate_descriptors cs) st (execute_prune delete cs st)
  unfolding execute_prune candidate_descriptors
  execute_prune-Partly [] st = ([], refl, λ _. refl, refl)
  execute_prune-Partly (c ∷ cs) st =
      go (delete c.descriptor st) refl (λ st'. execute_prune-Partly cs st')
    where
      go :
          (r : Result OrasError S)
          → delete c.descriptor st ≡ r
          → ((st' : S) → Partly (candidate_descriptors cs) st' (execute_prune delete cs st'))
          → Partly (candidate_descriptors (c ∷ cs)) st (elim r [
            | err e ↦ (st, [], some (about_blob c.descriptor.digest (wrap_error e)))
            | ok st' ↦
                let rest = execute_prune delete cs st' in (rest.0, c.descriptor ∷ rest.1, rest.2)
          ])
      go (ok st') e ih =
          let (rest, split, complete, state) = ih st' in
          (rest, ap (λ xs. c.descriptor ∷ xs) split, complete, rw e state)
      go (err f) e ih = (c.descriptor ∷ candidate_descriptors cs, refl, λ h. cc, refl)

  candidate_descriptors-In :
      (x : Descriptor) (cs : List Candidate)
      → In x (candidate_descriptors cs)
      → (c : Candidate) × In c cs × (x ≡ c.descriptor)
  unfolding candidate_descriptors
  candidate_descriptors-In x [] i = absurd i
  candidate_descriptors-In x (c ∷ cs) (inl e) = (c, inl refl, e)
  candidate_descriptors-In x (c ∷ cs) (inr i) =
      let (y, j, e) = candidate_descriptors-In x cs i in (y, inr j, e)

  -- The cases of `carry_out`.
  carry_out-cases :
      (plan : Plan) (opts : PruneOptions) (st : S)
      → ((opts.execute ≡ true)
          × (is_empty plan.matched ≡ false)
          × (carry_out delete plan opts st).0 ≡ (execute_prune delete plan.selected st).0
          × (carry_out delete plan opts st).1.deleted ≡ (execute_prune delete plan.selected st).1
          × (carry_out delete plan opts st).2 ≡ (execute_prune delete plan.selected st).2)
        ⊎ (((opts.execute ≡ false) ⊎ (is_empty plan.matched ≡ true))
            × (carry_out delete plan opts st).0 ≡ st
            × (carry_out delete plan opts st).1.deleted ≡ []
            × (carry_out delete plan opts st).2 ≡ none)
  unfolding carry_out
  carry_out-cases plan opts st = elim (Bool-cases (is_empty plan.matched)) [
    | inl e ↦ inr (inr e, rw e refl, rw e refl, rw e refl)
    | inr n ↦ elim (Bool-cases opts.execute) [
      | inl e ↦ inl (e, n, rw (n, e) refl, rw (n, e) refl, rw (n, e) refl)
      | inr m ↦ inr (inl m, rw (n, m) refl, rw (n, m) refl, rw (n, m) refl)
    ]
  ]

  pub carry_out-deleted :
      (primary : Option Candidate) (cs : List Candidate) (opts : PruneOptions) (plan : Plan)
      (st : S)
      → plan_prune primary cs opts ≡ ok plan
      → All (λ x. x.digest ≢ kept_digest plan.keep) (carry_out delete plan opts st).1.deleted
        × delete_all (carry_out delete plan opts st).1.deleted st
          ≡ ok (carry_out delete plan opts st).0
        × (opts.execute ≡ false → (carry_out delete plan opts st).1.deleted ≡ [])
        × (opts.execute ≡ true
            → (carry_out delete plan opts st).2 ≡ none
            → (carry_out delete plan opts st).1.deleted ≡ candidate_descriptors plan.selected)
  carry_out-deleted primary cs opts plan st h = elim (carry_out-cases plan opts st) [
    | inr (why, same, nothing, fine) ↦ (
      subst (All (λ x. x.digest ≢ kept_digest plan.keep)) (sym nothing) tt,
      subst (λ xs. delete_all xs st ≡ ok (carry_out delete plan opts st).0) (sym nothing)
          (ap (λ s. ok s) (sym same)),
      λ _. nothing,
      λ run _. elim why [
        | inl dry ↦ absurd (true≢false (sym run ∙ dry))
        | inr e ↦ nothing ∙ sym (empty_selected primary cs opts plan h e)
      ],
    )
    | inl (run, some_matched, state, deleted, outcome) ↦
        let (rest, split, complete, reached) = execute_prune-Partly plan.selected st in
        (
          subst (All (λ x. x.digest ≢ kept_digest plan.keep)) (sym deleted) (spared rest split),
          subst (λ xs. delete_all xs st ≡ ok (carry_out delete plan opts st).0) (sym deleted)
              (reached ∙ ap (λ s. ok s) (sym state)),
          λ dry. absurd (true≢false (sym run ∙ dry)),
          λ _ fine.
              deleted
              ∙ sym (
                  split
                  ∙ ap (λ r. (execute_prune delete plan.selected st).1 ++ r)
                      (complete (sym outcome ∙ fine))
                  ∙ append-nil (execute_prune delete plan.selected st).1),
        )
  ]
    where
      spared :
          (rest : List Descriptor)
          → candidate_descriptors plan.selected ≡ (execute_prune delete plan.selected st).1 ++ rest
          → All (λ x. x.digest ≢ kept_digest plan.keep) (execute_prune delete plan.selected st).1
      spared rest split =
          All-of (λ x. x.digest ≢ kept_digest plan.keep) (execute_prune delete plan.selected st).1
            λ x i.
              let listed : In x (candidate_descriptors plan.selected) =
                subst (In x) (sym split)
                  ((In-append x (execute_prune delete plan.selected st).1 rest).1 (inl i)) in
              let (c, j, e) = candidate_descriptors-In x plan.selected listed in
              let (_, _, _, other) = ((plan_prune-IsSuperseded opts primary cs plan h).1 c).0 j in
              λ same. other (ap (λ d. d.digest) (sym e) ∙ same)

  pub carry_out-result :
      (primary : Option Candidate) (cs : List Candidate) (opts : PruneOptions) (plan : Plan)
      (st : S)
      → plan_prune primary cs opts ≡ ok plan
      → ((carry_out delete plan opts st).1.keep ≡ plan.keep)
        × ((carry_out delete plan opts st).1.selected ≡ candidate_descriptors plan.selected)
  unfolding carry_out
  carry_out-result primary cs opts plan st h = elim (Bool-cases (is_empty plan.matched)) [
    | inl e ↦ rw e (refl, sym (empty_selected primary cs opts plan h e))
    | inr n ↦ elim (Bool-cases opts.execute) [
      | inl e ↦ rw (n, e) (refl, refl)
      | inr m ↦ rw (n, m) (refl, refl)
    ]
  ]
