-- ===== src/Registry/Tests.antt =====
-- Runs on a small registry: a subject, and two referrers of one document.
use ocidoc_go.Base.{
  text_leb, ◌≡◌, ◌↔◌, refl, true, false, ◌||◌, Option, none, some, List, [], ◌∷◌, if◌then◌else◌,
  Text, codes, text_eq, Result, ok, err, pos, In, All,
}
use ocidoc_go.Oci.{Descriptor, Manifest, value_at, int_eq}
use ocidoc_go.OciBlob.{validate_digest, validate, verify}
use ocidoc_go.OciBlob.Tests.{plain_digests}
use ocidoc_go.Registry.Errors.{
  map_error, not_found, OrasError, mapped, oras_not_found, Remote, is, same_sentinel, sentinel_of,
  wrap_error,
}
use ocidoc_go.Registry.Errors.Classes.{Missing, not_found_iff}
use ocidoc_go.Registry.Fetch.{Repository, read_limited, check_fetched, fetch_blob}
use ocidoc_go.Registry.Discovery.{
  DiscoverOptions, Candidate, Branch, Selection, artifact_type, document_id_key, with_mode,
  known_mode, normalize_discover_options, same_subject, admits, matches_selectors, insert_candidate,
  sort_candidates,
}
use ocidoc_go.Registry.Lookup.{
  has_subject, check_candidate, load_candidate, discover_tag, is_other_type, referrer_candidates,
  discover_referrers, run_discovery, described,
}
use ocidoc_go.Registry.Lookup.Attached.{IsAttached}
use ocidoc_go.Registry.Selection.{
  find_digest, reconcile_tag_and_referrers, only_one, referrers_only, both_looked_up, tag_failure,
  reconcile_auto_discovery, reconcile_discovery, Subject, discover,
}
use ocidoc_go.Registry.Selection.Among.{Agreed}
use ocidoc_go.Registry.Selection.Discovered.{discover-IsAttached, reconcile_auto_discovery-Agreed}
use ocidoc_go.Registry.Prune.{
  prune_referrers, prune_primary, primary_of, first_candidate, candidates_of,
  validate_prune_options, PruneOptions, Plan, candidate_slot, same_slot, matches_prune_selectors,
  keep_if, filter_prune_selectors, filter_slot, matching_primary, named_keep, select_prune_keep,
  kept_slot, kept_digest, plan_prune, execute_prune, carry_out,
}
use ocidoc_go.Registry.Prune.Planned.{IsKept, IsSuperseded, plan_prune-IsSuperseded}
use ocidoc_go.Registry.Prune.Pruned.{Pruned, prune_referrers-deleted}

abbrev descriptor_of : Text → Descriptor
descriptor_of t = record {
  digest = t;
  media_type = [];
  artifact_type = [];
  size = pos 1;
  annotations = [];
  unread = [];
}

abbrev subject_descriptor : Descriptor
subject_descriptor = descriptor_of (codes "s")

abbrev manual : Manifest
manual = record {
  artifact_type = artifact_type;
  subject = some subject_descriptor;
  config = descriptor_of (codes "c");
  layers = [];
  annotations = (document_id_key, codes "manual") ∷ [];
}

-- The blobs `x` and `y` are manifests of the document.
abbrev parse : Text → Option Manifest
parse t = if text_eq t (codes "x") || text_eq t (codes "y") then some manual else none

abbrev no_such_tag : Remote
no_such_tag = record {
  deadline_exceeded = false;
  net_timeout = false;
  status = some 404;
  is_not_found = false;
  is_unsupported = false;
  is_unsupported_version = false;
  is_invalid_reference = false;
  is_invalid_digest = false;
  is_invalid_media_type = false;
  is_missing_reference = false;
}

abbrev registry_of : List Descriptor → Repository
registry_of descs = record {
  resolve = λ t. err (mapped oras_not_found no_such_tag);
  referrers = λ desc kind. ok descs;
  fetch = λ desc. ok (record { content = desc.digest; broken = none });
}

abbrev subject_with : List Descriptor → Subject
subject_with descs = record {
  repo = registry_of descs;
  descriptor = subject_descriptor;
  repository = codes "r";
  documentation_tag = codes "t";
}

abbrev candidate_of : Text → Candidate
candidate_of t = record { manifest = manual; descriptor = described (descriptor_of t) manual }

abbrev default_options : DiscoverOptions
default_options = record {
  mode = codes "auto";
  document = codes "manual";
  variant = [];
  digest = [];
  strict = true;
}

abbrev chosen_x : Selection
chosen_x = record {
  selected = candidate_of (codes "x");
  candidates = candidate_of (codes "x") ∷ [];
  warnings = [];
  tag_available = false;
  referrer_available = true;
  in_conflict = false;
}

finds_x :
    discover plain_digests parse default_options
      (ok (subject_with (descriptor_of (codes "x") ∷ [])))
    ≡ ok (chosen_x, default_options)
unfolding discover reconcile_discovery reconcile_auto_discovery tag_failure both_looked_up
    referrers_only only_one normalize_discover_options with_mode known_mode run_discovery
    discover_tag discover_referrers referrer_candidates is_other_type load_candidate check_candidate
    has_subject same_subject fetch_blob check_fetched read_limited verify validate validate_digest
    int_eq matches_selectors admits value_at sort_candidates insert_candidate wrap_error is
    same_sentinel sentinel_of text_eq
finds_x = refl

discover-IsAttached_example :
    IsAttached subject_descriptor default_options chosen_x.selected
    × In chosen_x.selected chosen_x.candidates
    × All (IsAttached subject_descriptor default_options) chosen_x.candidates
discover-IsAttached_example =
    discover-IsAttached plain_digests parse default_options default_options
      (subject_with (descriptor_of (codes "x") ∷ [])) chosen_x finds_x

abbrev found_x : Branch
found_x = record { failed = none; candidates = candidate_of (codes "x") ∷ [] }

abbrev found_both : Branch
found_both = record {
  failed = none;
  candidates = candidate_of (codes "x") ∷ candidate_of (codes "y") ∷ [];
}

abbrev chosen_of_both : Selection
chosen_of_both = record {
  selected = candidate_of (codes "x");
  candidates = candidate_of (codes "x") ∷ candidate_of (codes "y") ∷ [];
  warnings = [];
  tag_available = true;
  referrer_available = true;
  in_conflict = false;
}

agrees_on_x : reconcile_auto_discovery default_options found_x found_both ≡ ok chosen_of_both
unfolding reconcile_auto_discovery tag_failure both_looked_up only_one reconcile_tag_and_referrers
    find_digest text_eq
agrees_on_x = refl

reconcile_auto_discovery-Agreed_example :
    Agreed found_x.candidates found_both.candidates chosen_of_both
reconcile_auto_discovery-Agreed_example =
    reconcile_auto_discovery-Agreed default_options found_x found_both chosen_of_both refl
      agrees_on_x

abbrev keep_x : PruneOptions
keep_x = record { document = codes "manual"; variant = []; keep = codes "x"; execute = true }

abbrev plan_x : Plan
plan_x = record {
  keep = some (candidate_of (codes "x"));
  matched = found_both.candidates;
  selected = candidate_of (codes "y") ∷ [];
}

plans_y : plan_prune none found_both.candidates keep_x ≡ ok plan_x
unfolding plan_prune filter_prune_selectors keep_if matches_prune_selectors admits candidate_slot
    value_at select_prune_keep matching_primary named_keep find_digest filter_slot kept_slot
    kept_digest same_slot sort_candidates insert_candidate text_leb text_eq
plans_y = refl

plan_prune-IsSuperseded_example :
    IsKept keep_x none found_both.candidates plan_x.keep
    × ((c : Candidate)
        → In c plan_x.selected ↔ IsSuperseded keep_x plan_x.keep found_both.candidates c)
plan_prune-IsSuperseded_example =
    plan_prune-IsSuperseded keep_x none found_both.candidates plan_x plans_y

-- A registry that is the list of the digests deleted from it.
abbrev delete_from : Descriptor → List Text → Result OrasError (List Text)
delete_from desc gone = ok (desc.digest ∷ gone)

deletes_y : (carry_out delete_from plan_x keep_x []).0 ≡ codes "y" ∷ []
unfolding carry_out execute_prune
deletes_y = refl

prunes_y :
    prune_referrers delete_from plain_digests parse keep_x
      (ok (subject_with (descriptor_of (codes "y") ∷ descriptor_of (codes "x") ∷ [])))
      []
    ≡ ok (carry_out delete_from plan_x keep_x [])
unfolding discover_tag discover_referrers referrer_candidates is_other_type load_candidate
    check_candidate has_subject same_subject fetch_blob check_fetched read_limited verify validate
    validate_digest int_eq matches_selectors admits value_at sort_candidates insert_candidate
    wrap_error is same_sentinel sentinel_of text_eq plan_prune filter_prune_selectors keep_if
    matches_prune_selectors candidate_slot select_prune_keep matching_primary named_keep find_digest
    filter_slot kept_slot kept_digest same_slot text_leb prune_referrers prune_primary primary_of
    first_candidate candidates_of validate_prune_options
prunes_y = refl

prune_referrers-deleted_example :
    Pruned delete_from keep_x [] (carry_out delete_from plan_x keep_x [])
prune_referrers-deleted_example =
    prune_referrers-deleted delete_from plain_digests parse keep_x
      (ok (subject_with (descriptor_of (codes "y") ∷ descriptor_of (codes "x") ∷ []))) []
      (carry_out delete_from plan_x keep_x []).0 (carry_out delete_from plan_x keep_x []).1
      (carry_out delete_from plan_x keep_x []).2 prunes_y

not_found_iff_example :
    (is (wrap_error (map_error no_such_tag)) not_found ≡ true) ↔ Missing no_such_tag
not_found_iff_example = not_found_iff no_such_tag
