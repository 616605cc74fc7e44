-- ===== src/Registry/Prune.antt =====
-- registry/prune.go: the superseded referrers of one document slot, and their deletion.
pub mod Planned
pub mod Deletion
pub mod Pruned
use ocidoc_go.Base.{
  after, Bool, true, false, not, ◌&&◌, ◌||◌, Option, none, some, List, [], ◌∷◌, map, if◌then◌else◌,
  Text, is_empty, text_eq, Result, ok, err, ◌>>=◌, fail_if, Option-cases, ◌++◌,
}
use ocidoc_go.Oci.{Digests, Descriptor, Manifest, value_at}
use ocidoc_go.Registry.Errors.{
  OrasError, wrap_error, not_found, conflict, invalid, keep_differs, keep_not_referrer,
  keep_required, invalid_keep_digest, Failure, failure, about_blob, is,
}
use ocidoc_go.Registry.Fetch.{Repository}
use ocidoc_go.Registry.Discovery.{
  DiscoverOptions, Candidate, Branch, document_id_key, document_variant_key, sort_candidates,
  admits, candidate_descriptors,
}
use ocidoc_go.Registry.Lookup.{discover_referrers, discover_tag, discover_referrers}
use ocidoc_go.Registry.Selection.{Subject, find_digest, Subject}

pub record PruneOptions : Type 0 where
  pub document : Text
  pub variant : Text
  pub keep : Text
  pub execute : Bool

-- `documentSlot`
pub record Slot : Type 0 where
  pub document : Text
  pub variant : Text

-- What `planPrune` returns beside an error; no candidate is kept where none matched.
pub record Plan : Type 0 where
  pub keep : Option Candidate
  pub matched : List Candidate
  pub selected : List Candidate

unfoldable pub validate_prune_options : Digests → PruneOptions → Option Failure
validate_prune_options d opts =
    fail_if (not (is_empty opts.keep) && not (d.is_valid opts.keep))
      (failure (invalid ∷ []) (invalid_keep_digest opts.keep))

unfoldable pub candidate_slot : Candidate → Slot
candidate_slot c = record {
  document = value_at document_id_key c.manifest.annotations;
  variant = value_at document_variant_key c.manifest.annotations;
}

-- `a == b` on slots.
unfoldable pub same_slot : Slot → Slot → Bool
same_slot a b = text_eq a.document b.document && text_eq a.variant b.variant

unfoldable pub matches_prune_selectors : Candidate → PruneOptions → Bool
matches_prune_selectors c opts =
    admits opts.document (candidate_slot c).document
    && admits opts.variant (candidate_slot c).variant

-- The candidates that pass a test, in their order.
unfoldable pub keep_if : (Candidate → Bool) → List Candidate → List Candidate
keep_if p [] = []
keep_if p (c ∷ cs) = let rest = keep_if p cs in if p c then c ∷ rest else rest

unfoldable pub filter_prune_selectors : List Candidate → PruneOptions → List Candidate
filter_prune_selectors cs opts = keep_if (λ c. matches_prune_selectors c opts) cs

unfoldable pub filter_slot : List Candidate → Slot → List Candidate
filter_slot cs slot = sort_candidates (keep_if (λ c. same_slot (candidate_slot c) slot) cs)

abbrev pub not_referrer : PruneOptions → Failure
not_referrer opts = failure (not_found ∷ []) (keep_not_referrer opts.keep)

-- A matching direct-tag primary.
unfoldable pub matching_primary : Option Candidate → PruneOptions → Option Candidate
matching_primary none opts = none
matching_primary (some c) opts = if matches_prune_selectors c opts then some c else none

-- Without a primary: the referrer that the caller names.
unfoldable pub named_keep : List Candidate → PruneOptions → Result Failure (Option Candidate)
named_keep [] opts = if is_empty opts.keep then ok none else err (not_referrer opts)
named_keep (c ∷ cs) opts =
    if is_empty opts.keep
    then err (failure (conflict ∷ []) keep_required)
    else elim (find_digest opts.keep (c ∷ cs)) [
      | none ↦ err (not_referrer opts)
      | some x ↦ ok (some x)
    ]

unfoldable pub select_prune_keep :
    Option Candidate → List Candidate → PruneOptions → Result Failure (Option Candidate)
select_prune_keep primary cs opts = elim (matching_primary primary opts) [
  | none ↦ named_keep cs opts
  | some c ↦
      if not (is_empty opts.keep) && not (text_eq opts.keep c.descriptor.digest)
      then err (failure (conflict ∷ []) keep_differs)
      else ok (some c)
]

-- The slot and the digest of the zero candidate are empty.
unfoldable pub kept_slot : Option Candidate → Slot
kept_slot none = record { document = []; variant = [] }
kept_slot (some c) = candidate_slot c

unfoldable pub kept_digest : Option Candidate → Text
kept_digest none = []
kept_digest (some c) = c.descriptor.digest

abbrev pub planned : List Candidate → Option Candidate → Plan
planned matching keep = record {
  keep = keep;
  matched = filter_slot matching (kept_slot keep);
  selected =
      keep_if (λ c. not (text_eq c.descriptor.digest (kept_digest keep)))
        (filter_slot matching (kept_slot keep));
}

unfoldable pub plan_prune : Option Candidate → List Candidate → PruneOptions → Result Failure Plan
plan_prune primary cs opts = do
  keep ← select_prune_keep primary (filter_prune_selectors cs opts) opts
  ok (planned (filter_prune_selectors cs opts) keep)

-- No selectors: `DiscoverOptions{}`.
abbrev pub no_options : DiscoverOptions
no_options = record { mode = []; document = []; variant = []; digest = []; strict = false }

-- `&branch.candidates[0]`, if there is one.
unfoldable pub first_candidate : List Candidate → Option Candidate
first_candidate [] = none
first_candidate (c ∷ cs) = some c

unfoldable pub primary_of : Branch → Result Failure (Option Candidate)
primary_of b = elim b.failed [
  | some f ↦ if is f not_found then ok none else err f
  | none ↦ ok (first_candidate b.candidates)
]

unfoldable pub prune_primary :
    Digests
    → (Text → Option Manifest)
    → Repository
    → Text
    → Descriptor
    → Result Failure (Option Candidate)
prune_primary d parse repo tag subject =
    primary_of (discover_tag d parse repo tag subject no_options)

-- `if referrerBranch.err != nil { return nil, referrerBranch.err }`
unfoldable pub candidates_of : Branch → Result Failure (List Candidate)
candidates_of b = elim b.failed [ none ↦ ok b.candidates | some f ↦ err f ]

-- `PruneResult`: the descriptors deleted, and whether nothing was tried.
pub record PruneResult : Type 0 where
  pub keep : Option Candidate
  pub matched : List Descriptor
  pub selected : List Descriptor
  pub deleted : List Descriptor
  pub dry_run : Bool

abbrev result_of : Plan → PruneOptions → List Descriptor → List Descriptor → PruneResult
result_of plan opts selected deleted = record {
  keep = plan.keep;
  matched = candidate_descriptors plan.matched;
  selected = selected;
  deleted = deleted;
  dry_run = not opts.execute;
}

-- `repo.Delete` changes the registry, whose state is the parameter `S`.
module _ {S : Type 0} (delete : Descriptor → S → Result OrasError S) where
  -- The loop of `executePrune`: the registry behind it, the descriptors deleted, and the failure.
  unfoldable pub execute_prune : List Candidate → S → S × List Descriptor × Option Failure
  execute_prune [] st = (st, [], none)
  execute_prune (c ∷ cs) st = elim (delete c.descriptor st) [
    | err e ↦ (st, [], some (about_blob c.descriptor.digest (wrap_error e)))
    | ok st' ↦ let rest = execute_prune cs st' in (rest.0, c.descriptor ∷ rest.1, rest.2)
  ]

  -- `Prune` behind its plan: the registry, the result, and the failure that comes with it.
  unfoldable pub carry_out : Plan → PruneOptions → S → S × PruneResult × Option Failure
  carry_out plan opts st =
      let run = execute_prune plan.selected st in
      if is_empty plan.matched
      then (st, result_of plan opts [] [], none)
      else if not opts.execute
      then (st, result_of plan opts (candidate_descriptors plan.selected) [], none)
      else (run.0, result_of plan opts (candidate_descriptors plan.selected) run.1, run.2)

  -- `Prune` behind `resolveSubject`; `parse` is `json.Unmarshal` into a manifest.
  unfoldable pub prune_referrers :
      Digests
      → (Text → Option Manifest)
      → PruneOptions
      → Result Failure Subject
      → S
      → Result Failure (S × PruneResult × Option Failure)
  prune_referrers d parse opts resolved st = after (validate_prune_options d opts) (do
    s ← resolved
    primary ← prune_primary d parse s.repo s.documentation_tag s.descriptor
    cs ← candidates_of (discover_referrers d parse s.repo s.descriptor no_options)
    plan ← plan_prune primary cs opts
    ok (carry_out plan opts st))
