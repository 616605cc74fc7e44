-- ===== src/Registry/Prune/Pruned.antt =====
-- `Prune` as a whole: what it deletes.
use ocidoc_go.Base.{
  after-eq-ok, Text, ◌≡◌, ◌≢◌, sym, subst, ◌∙◌, true, false, Option, none, List, [], Result, ok,
  ◌>>=◌, All, through,
}
use ocidoc_go.Oci.{Digests, Manifest, Descriptor}
use ocidoc_go.Registry.Selection.{Subject}
use ocidoc_go.Registry.Lookup.{discover_referrers}
use ocidoc_go.Registry.Errors.{OrasError, Failure}
use ocidoc_go.Registry.Discovery.{Candidate}
use ocidoc_go.Registry.Prune.{
  PruneResult, prune_referrers, validate_prune_options, prune_primary, candidates_of, no_options,
  PruneOptions, Plan, planned, plan_prune, kept_digest, carry_out,
}
use ocidoc_go.Registry.Prune.Deletion.{delete_all, carry_out-deleted, carry_out-result}

module _ {S : Type 0} (delete : Descriptor → S → Result OrasError S) where
  -- What is known of a run that got as far as its deletions.
  abbrev pub Pruned : PruneOptions → S → S × PruneResult × Option Failure → Type 0
  Pruned opts st (st', result, failed) =
      All (λ x. x.digest ≢ kept_digest result.keep) result.deleted
      × delete_all delete result.deleted st ≡ ok st'
      × (opts.execute ≡ false → result.deleted ≡ [])
      × (opts.execute ≡ true → failed ≡ none → result.deleted ≡ result.selected)

  carry_out-Pruned :
      (primary : Option Candidate) (cs : List Candidate) (opts : PruneOptions) (plan : Plan)
      (st : S)
      → plan_prune primary cs opts ≡ ok plan
      → Pruned opts st (carry_out delete plan opts st)
  carry_out-Pruned primary cs opts plan st h =
      let (spared, state, dry, complete) = carry_out-deleted delete primary cs opts plan st h in
      let (keep, selected) = carry_out-result delete primary cs opts plan st h in
      (
        subst (λ k. All (λ x. x.digest ≢ kept_digest k) (carry_out delete plan opts st).1.deleted)
            (sym keep) spared,
        state,
        dry,
        λ run fine. complete run fine ∙ sym selected,
      )

  -- If the code gets as far as carrying out a plan, what it deletes, one after the other, is only
  -- descriptors with another digest than the kept artifact, and nothing in a dry run; and where it
  -- executes and reports no failure, it is all that the result lists as selected.
  pub prune_referrers-deleted :
      (d : Digests) (parse : Text → Option Manifest) (opts : PruneOptions)
      (subject : Result Failure Subject) (st st' : S) (result : PruneResult)
      (failed : Option Failure)
      → prune_referrers delete d parse opts subject st ≡ ok (st', result, failed)
      → Pruned opts st (st', result, failed)
  unfolding prune_referrers
  prune_referrers-deleted d parse opts subject st st' result failed h =
      let (s, _, h1) = through from_subject (st', result, failed) subject checked in
      let (primary, _, h2) =
        through (from_primary s) (st', result, failed)
          (prune_primary d parse s.repo s.documentation_tag s.descriptor) h1 in
      let (cs, _, h3) =
        through (from_referrers primary) (st', result, failed)
          (candidates_of (discover_referrers d parse s.repo s.descriptor no_options)) h2 in
      let (plan, planned, same) =
        through (λ plan. ok (carry_out delete plan opts st)) (st', result, failed)
          (plan_prune primary cs opts) h3 in
      subst (Pruned opts st) (unwrapped plan same)
        (carry_out-Pruned primary cs opts plan st planned)
    where
      from_referrers :
          Option Candidate → List Candidate → Result Failure (S × PruneResult × Option Failure)
      from_referrers primary cs =
          plan_prune primary cs opts >>= (λ plan. ok (carry_out delete plan opts st))

      from_primary : Subject → Option Candidate → Result Failure (S × PruneResult × Option Failure)
      from_primary s primary =
          candidates_of (discover_referrers d parse s.repo s.descriptor no_options)
          >>= from_referrers primary

      from_subject : Subject → Result Failure (S × PruneResult × Option Failure)
      from_subject s =
          prune_primary d parse s.repo s.documentation_tag s.descriptor >>= from_primary s

      checked : (subject >>= from_subject) ≡ ok (st', result, failed)
      checked =
          (after-eq-ok (validate_prune_options d opts) (subject >>= from_subject)
            (st', result, failed) h).1

      unwrapped :
          (plan : Plan)
          → Path
              (Result Failure (S × PruneResult × Option Failure))
              (ok (carry_out delete plan opts st))
              (ok (st', result, failed))
          → Path
              (S × PruneResult × Option Failure)
              (carry_out delete plan opts st)
              (st', result, failed)
      unwrapped plan e = cc
