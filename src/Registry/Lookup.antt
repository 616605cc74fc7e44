-- ===== src/Registry/Lookup.antt =====
-- registry/discovery.go: the two lookups. `parse` is `json.Unmarshal` into a manifest.
pub mod Attached
use ocidoc_go.Base.{
  Bool, false, not, ◌&&◌, Option, none, some, List, [], ◌∷◌, if◌then◌else◌, Text, is_empty, text_eq,
  Result, ok, err, ◌>>=◌,
}
use ocidoc_go.Oci.{Digests, Descriptor, Manifest}
use ocidoc_go.Registry.Errors.{
  invalid, unparsable, subject_mismatch, no_ocidoc_artifact, Failure, failure, about_blob,
}
use ocidoc_go.Registry.Fetch.{Repository, wrapped, fetch_blob}
use ocidoc_go.Registry.Discovery.{
  DiscoverOptions, Candidate, Branch, artifact_type, mode_tag, mode_referrer, same_subject,
  matches_selectors, sort_candidates,
}

-- `fmt.Errorf("candidate %s: %w", desc.Digest, err)`
abbrev pub for_candidate : Descriptor → Result Failure Text → Result Failure Text
for_candidate desc (ok bytes) = ok bytes
for_candidate desc (err f) = err (about_blob desc.digest f)

-- The subject of a manifest is there and is the one given.
unfoldable pub has_subject : Manifest → Descriptor → Bool
has_subject m subject = elim m.subject [ none ↦ false | some s ↦ same_subject s subject ]

-- The descriptor with the manifest's artifact type and annotations.
abbrev pub described : Descriptor → Manifest → Descriptor
described desc m = record {
  digest = desc.digest;
  media_type = desc.media_type;
  artifact_type = m.artifact_type;
  size = desc.size;
  annotations = m.annotations;
  unread = desc.unread;
}

-- The checks of `loadDiscoveryCandidate` on what was fetched: `none` is not applicable.
unfoldable pub check_candidate :
    Descriptor → Descriptor → Option Manifest → Result Failure (Option Candidate)
check_candidate desc subject none = err (failure (invalid ∷ []) (unparsable desc.digest))
check_candidate desc subject (some m) =
    if not (text_eq m.artifact_type artifact_type)
    then ok none
    else if not (has_subject m subject)
    then err (failure (invalid ∷ []) (subject_mismatch desc.digest subject.digest))
    else ok (some (record { manifest = m; descriptor = described desc m }))

-- `discoveryBranch{err: err}` and `discoveryBranch{candidates: cs}`
abbrev pub branch_of : Result Failure (List Candidate) → Branch
branch_of (ok cs) = record { failed = none; candidates = cs }
branch_of (err f) = record { failed = some f; candidates = [] }

-- What the direct tag gives, behind its candidate.
unfoldable pub tag_candidates : DiscoverOptions → Option Candidate → Result Failure (List Candidate)
tag_candidates opts none = err (failure (invalid ∷ []) no_ocidoc_artifact)
tag_candidates opts (some c) = ok (if matches_selectors c opts then c ∷ [] else [])

-- The candidate of one referrer, if it is applicable and matches.
abbrev pub selected_of : DiscoverOptions → Option Candidate → List Candidate → List Candidate
selected_of opts none rest = rest
selected_of opts (some c) rest = if matches_selectors c opts then c ∷ rest else rest

-- `desc.ArtifactType != "" && desc.ArtifactType != spec.ArtifactType`
unfoldable pub is_other_type : Descriptor → Bool
is_other_type desc =
    not (is_empty desc.artifact_type) && not (text_eq desc.artifact_type artifact_type)

abbrev pub no_branch : Branch
no_branch = record { failed = none; candidates = [] }

module _ (d : Digests) (parse : Text → Option Manifest) (repo : Repository) where
  unfoldable pub load_candidate : Descriptor → Descriptor → Result Failure (Option Candidate)
  load_candidate desc subject = do
    bytes ← for_candidate desc (fetch_blob d repo desc)
    check_candidate desc subject (parse bytes)

  unfoldable pub discover_tag : Text → Descriptor → DiscoverOptions → Branch
  discover_tag tag subject opts = branch_of (do
    desc ← wrapped (repo.resolve tag)
    found ← load_candidate desc subject
    tag_candidates opts found)

  -- The loop over the referrers.
  unfoldable pub referrer_candidates :
      Descriptor → DiscoverOptions → List Descriptor → Result Failure (List Candidate)
  referrer_candidates subject opts [] = ok []
  referrer_candidates subject opts (desc ∷ descs) =
      let rest = referrer_candidates subject opts descs in
      if is_other_type desc
      then rest
      else (do found ← load_candidate desc subject; cs ← rest; ok (selected_of opts found cs))

  unfoldable pub discover_referrers : Descriptor → DiscoverOptions → Branch
  discover_referrers subject opts = branch_of (do
    descs ← wrapped (repo.referrers subject artifact_type)
    cs ← referrer_candidates subject opts descs
    ok (sort_candidates cs))

  -- `runDiscovery`: the two lookups only read, so running them at once gives what each gives alone.
  unfoldable pub run_discovery : Text → Descriptor → DiscoverOptions → Branch × Branch
  run_discovery tag subject opts =
      if text_eq opts.mode mode_tag
      then (discover_tag tag subject opts, no_branch)
      else if text_eq opts.mode mode_referrer
      then (no_branch, discover_referrers subject opts)
      else (discover_tag tag subject opts, discover_referrers subject opts)
