-- ===== src/Registry/Selection.antt =====
-- registry/discovery.go: the choice among the candidates of the two lookups, and `Discover`.
pub mod Chosen
pub mod Among
pub mod Discovered
use ocidoc_go.Base.{
  Bool, true, false, not, ◌&&◌, ◌||◌, ◌==◌, ltb, Option, none, some, List, [], ◌∷◌, if◌then◌else◌,
  Text, is_empty, text_eq, length, Result, ok, err, ◌>>=◌,
}
use ocidoc_go.Oci.{Digests, Descriptor, Manifest}
use ocidoc_go.Registry.Errors.{
  not_found, ambiguous, conflict, none_matches, several_referrers, several_candidates,
  tag_matches_none, different_manifests, Failure, failure, is, is_temporary,
}
use ocidoc_go.Registry.Fetch.{Repository}
use ocidoc_go.Registry.Discovery.{
  DiscoverOptions, Candidate, Branch, Warning, Selection, referrers_failed, manifests_differ,
  mode_tag, mode_referrer, candidate_descriptors, normalize_discover_options,
}
use ocidoc_go.Registry.Lookup.{run_discovery}

abbrev nothing_found : Failure
nothing_found = failure (not_found ∷ []) none_matches

-- The cases of `selectSingle` for a branch that did not fail.
unfoldable pub select_only : Bool → Bool → List Candidate → Result Failure Selection
select_only tag referrer [] = err nothing_found
select_only tag referrer (c ∷ []) = ok (record {
  selected = c;
  candidates = c ∷ [];
  warnings = [];
  tag_available = tag;
  referrer_available = referrer;
  in_conflict = false;
})
select_only tag referrer (c ∷ x ∷ cs) =
    err (failure (ambiguous ∷ []) (several_candidates (length (c ∷ x ∷ cs))))

unfoldable pub select_single : Branch → Bool → Bool → Result Failure Selection
select_single b tag referrer = elim b.failed [
  | some f ↦ if is f not_found then err nothing_found else err f
  | none ↦ select_only tag referrer b.candidates
]

-- The loop that looks for the candidate with the tag's digest.
unfoldable pub find_digest : Text → List Candidate → Option Candidate
find_digest t [] = none
find_digest t (c ∷ cs) =
    let rest = find_digest t cs in if text_eq c.descriptor.digest t then some c else rest

-- The code behind that loop. It is only called with a referrer: `refs[0]` is in range.
unfoldable pub disagreeing : Bool → List Candidate → Result Failure Selection
disagreeing strict [] = err nothing_found
disagreeing strict (c ∷ x ∷ cs) =
    err (failure (conflict ∷ ambiguous ∷ []) (tag_matches_none (length (c ∷ x ∷ cs))))
disagreeing strict (c ∷ []) =
    if strict
    then err (failure (conflict ∷ []) different_manifests)
    else ok (record {
      selected = c;
      candidates = c ∷ [];
      warnings = manifests_differ ∷ [];
      tag_available = true;
      referrer_available = true;
      in_conflict = true;
    })

abbrev pub matched : List Candidate → Candidate → Selection
matched refs c = record {
  selected = c;
  candidates = refs;
  warnings = [];
  tag_available = true;
  referrer_available = true;
  in_conflict = false;
}

unfoldable pub reconcile_tag_and_referrers :
    DiscoverOptions → Candidate → List Candidate → Result Failure Selection
reconcile_tag_and_referrers opts tag refs = elim (find_digest tag.descriptor.digest refs) [
  | none ↦ disagreeing opts.strict refs
  | some c ↦ ok (matched refs c)
]

-- `len(tagBranch.candidates) == 1`
unfoldable pub only_one : List Candidate → Option Candidate
only_one [] = none
only_one (c ∷ []) = some c
only_one (c ∷ x ∷ cs) = none

abbrev pub from_tag : List Warning → List Candidate → Candidate → Selection
from_tag ws cs c = record {
  selected = c;
  candidates = cs;
  warnings = ws;
  tag_available = true;
  referrer_available = false;
  in_conflict = false;
}

-- `referrerBranch.err != nil`
unfoldable pub without_referrers :
    DiscoverOptions → List Candidate → Failure → Result Failure Selection
without_referrers opts tags f = elim (only_one tags) [
  | none ↦ err f
  | some c ↦
      if not opts.strict && is_temporary f
      then ok (from_tag (referrers_failed f ∷ []) tags c)
      else err f
]

-- No direct tag among the candidates.
unfoldable pub referrers_only : List Candidate → Result Failure Selection
referrers_only [] = err nothing_found
referrers_only (c ∷ []) = ok (record {
  selected = c;
  candidates = c ∷ [];
  warnings = [];
  tag_available = false;
  referrer_available = true;
  in_conflict = false;
})
referrers_only (c ∷ x ∷ cs) =
    err (failure (ambiguous ∷ []) (several_referrers (length (c ∷ x ∷ cs))))

-- Both lookups went through, or the tag was missing.
unfoldable pub both_looked_up :
    DiscoverOptions → List Candidate → List Candidate → Result Failure Selection
both_looked_up opts tags refs = elim (only_one tags) [
  | none ↦ referrers_only refs
  | some c ↦
      if is_empty refs then ok (from_tag [] tags c) else reconcile_tag_and_referrers opts c refs
]

-- `tagBranch.err != nil && !tagMissing`
unfoldable pub tag_failure : Branch → Option Failure
tag_failure b = elim b.failed [ none ↦ none | some f ↦ if is f not_found then none else some f ]

unfoldable pub reconcile_auto_discovery :
    DiscoverOptions → Branch → Branch → Result Failure Selection
reconcile_auto_discovery opts tag referrer = elim (tag_failure tag) [
  | some f ↦ err f
  | none ↦ elim referrer.failed [
    | some f ↦ without_referrers opts tag.candidates f
    | none ↦ both_looked_up opts tag.candidates referrer.candidates
  ]
]

unfoldable pub reconcile_discovery : DiscoverOptions → Branch → Branch → Result Failure Selection
reconcile_discovery opts tag referrer =
    if text_eq opts.mode mode_tag
    then select_single tag true false
    else if text_eq opts.mode mode_referrer
    then select_single referrer false true
    else reconcile_auto_discovery opts tag referrer

-- `resolvedSubject`: what `resolveSubject` found for the reference.
pub record Subject : Type 0 where
  pub repo : Repository
  pub descriptor : Descriptor
  pub repository : Text
  pub documentation_tag : Text

-- `Discover`, behind `resolveSubject`. Its result is the selection, with the options' mode.
unfoldable pub discover :
    Digests
    → (Text → Option Manifest)
    → DiscoverOptions
    → Result Failure Subject
    → Result Failure (Selection × DiscoverOptions)
discover d parse opts resolved = do
  opts' ← normalize_discover_options d opts
  s ← resolved
  chosen ←
      reconcile_discovery opts'
        (run_discovery d parse s.repo s.documentation_tag s.descriptor opts').0
        (run_discovery d parse s.repo s.documentation_tag s.descriptor opts').1
  ok (chosen, opts')
