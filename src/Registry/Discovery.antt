-- ===== src/Registry/Discovery.antt =====
-- registry/discovery.go: the attached artifacts of a subject, found by its documentation tag and by
-- the registry's list of referrers, and the choice between them.
use ocidoc_go.Base.{
  text_leb, Bool, not, ◌&&◌, ◌||◌, Option, List, [], ◌∷◌, map, if◌then◌else◌, Text, codes, is_empty,
  text_eq, Result, ok, after, fail_if,
}
use ocidoc_go.Oci.{Digests, Descriptor, Manifest, value_at, int_eq}
use ocidoc_go.Registry.Errors.{invalid, invalid_mode, invalid_selector_digest, Failure, failure}

pub record DiscoverOptions : Type 0 where
  pub mode : Text
  pub document : Text
  pub variant : Text
  pub digest : Text
  pub strict : Bool

-- `discoveryCandidate`
pub record Candidate : Type 0 where
  pub manifest : Manifest
  pub descriptor : Descriptor

-- `discoveryBranch`
pub record Branch : Type 0 where
  pub failed : Option Failure
  pub candidates : List Candidate

-- `discoverySelection.warnings`
pub data Warning : Type 0 where
  referrers_failed : Failure → Warning
  manifests_differ : Warning

-- `discoverySelection`
pub record Selection : Type 0 where
  pub selected : Candidate
  pub candidates : List Candidate
  pub warnings : List Warning
  pub tag_available : Bool
  pub referrer_available : Bool
  pub in_conflict : Bool

abbrev pub mode_auto : Text
mode_auto = codes "auto"

abbrev pub mode_tag : Text
mode_tag = codes "tag"

abbrev pub mode_referrer : Text
mode_referrer = codes "referrer"

-- `spec.ArtifactType`, `spec.AnnotationDocumentID` and `spec.AnnotationDocumentVariant`.
abbrev pub artifact_type : Text
artifact_type = codes "application/vnd.ocidoc.documentation.v1beta"

abbrev pub document_id_key : Text
document_id_key = codes "org.ocidoc.document.id"

abbrev pub document_variant_key : Text
document_variant_key = codes "org.ocidoc.document.variant"

-- `opts.Mode = DiscoveryAuto` where no mode is given.
unfoldable pub with_mode : DiscoverOptions → DiscoverOptions
with_mode opts = record {
  mode = if is_empty opts.mode then mode_auto else opts.mode;
  document = opts.document;
  variant = opts.variant;
  digest = opts.digest;
  strict = opts.strict;
}

unfoldable pub known_mode : Text → Bool
known_mode m = text_eq m mode_auto || text_eq m mode_tag || text_eq m mode_referrer

unfoldable pub normalize_discover_options :
    Digests → DiscoverOptions → Result Failure DiscoverOptions
unfolding with_mode known_mode
normalize_discover_options d opts =
    after
      (fail_if (not (known_mode (with_mode opts).mode))
        (failure (invalid ∷ []) (invalid_mode opts.mode)))
      (after
        (fail_if (not (is_empty opts.digest) && not (d.is_valid opts.digest))
          (failure (invalid ∷ []) (invalid_selector_digest opts.digest)))
        (ok (with_mode opts)))

unfoldable pub same_subject : Descriptor → Descriptor → Bool
same_subject a b =
    text_eq a.digest b.digest && text_eq a.media_type b.media_type && int_eq a.size b.size

-- `wanted == "" || found == wanted`
unfoldable pub admits : Text → Text → Bool
admits wanted found = is_empty wanted || text_eq found wanted

unfoldable pub matches_selectors : Candidate → DiscoverOptions → Bool
unfolding admits
matches_selectors c opts =
    admits opts.document (value_at document_id_key c.manifest.annotations)
    && admits opts.variant (value_at document_variant_key c.manifest.annotations)
    && admits opts.digest c.descriptor.digest

unfoldable pub insert_candidate : Candidate → List Candidate → List Candidate
insert_candidate c [] = c ∷ []
insert_candidate c (x ∷ xs) =
    let rest = insert_candidate c xs in
    if text_leb c.descriptor.digest x.descriptor.digest then c ∷ x ∷ xs else x ∷ rest

-- `slices.SortFunc` by digest. It leaves candidates of one digest in some order; here it is theirs.
unfoldable pub sort_candidates : List Candidate → List Candidate
sort_candidates [] = []
sort_candidates (c ∷ cs) = insert_candidate c (sort_candidates cs)

-- `candidateDescriptors`
unfoldable pub candidate_descriptors : List Candidate → List Descriptor
candidate_descriptors cs = map (λ c. c.descriptor) cs
