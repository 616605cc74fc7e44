-- ===== src/Registry/Errors.antt =====
-- registry/errors.go and internal/orasrepo/errors.go: how failures of a remote registry are
-- classified. `Remote` is what the code can observe of an error of net, context and oras-go.
pub mod Classes
use ocidoc_go.Base.{
  Bool, true, false, ◌&&◌, ◌||◌, ◌==◌, leb, ℕ, Option, none, some, List, [], ◌∷◌, if◌then◌else◌,
  any, Text,
}

-- The sentinels of internal/orasrepo.
pub data OrasSentinel : Type 0 where
  oras_not_found : OrasSentinel
  oras_unauthorized : OrasSentinel
  oras_forbidden : OrasSentinel
  oras_unsupported : OrasSentinel
  oras_invalid : OrasSentinel

-- `errors.Is` and `errors.As` on an error of oras-go: the status of its `ErrorResponse`, the
-- sentinels of `errdef` in its chain, and whether it reports a time limit.
pub record Remote : Type 0 where
  pub deadline_exceeded : Bool
  pub net_timeout : Bool
  pub status : Option ℕ
  pub is_not_found : Bool
  pub is_unsupported : Bool
  pub is_unsupported_version : Bool
  pub is_invalid_reference : Bool
  pub is_invalid_digest : Bool
  pub is_invalid_media_type : Bool
  pub is_missing_reference : Bool

-- What `mapError` returns: a sentinel with the error's text, which cuts the chain, or the error.
pub data OrasError : Type 0 where
  mapped : OrasSentinel → Remote → OrasError
  unmapped : Remote → OrasError

unfoldable pub status_sentinel : ℕ → Option OrasSentinel
status_sentinel code =
    if code == 401
    then some oras_unauthorized
    else if code == 403
    then some oras_forbidden
    else if code == 404
    then some oras_not_found
    else if (code == 405) || (code == 501)
    then some oras_unsupported
    else none

unfoldable pub errdef_sentinel : Remote → Option OrasSentinel
errdef_sentinel e =
    if e.is_not_found
    then some oras_not_found
    else if e.is_unsupported || e.is_unsupported_version
    then some oras_unsupported
    else if e.is_invalid_reference || e.is_invalid_digest || e.is_invalid_media_type
        || e.is_missing_reference
    then some oras_invalid
    else none

abbrev pub or_else : Option OrasSentinel → Option OrasSentinel → Option OrasSentinel
or_else none o = o
or_else (some s) o = some s

abbrev pub classified : Remote → Option OrasSentinel → OrasError
classified e none = unmapped e
classified e (some s) = mapped s e

unfoldable pub map_error : Remote → OrasError
map_error e =
    classified e (
      or_else (elim e.status [ none ↦ none | some code ↦ status_sentinel code ])
        (errdef_sentinel e))

-- The sentinels of registry.
pub data Sentinel : Type 0 where
  not_found : Sentinel
  ambiguous : Sentinel
  conflict : Sentinel
  unsupported : Sentinel
  invalid : Sentinel
  verification : Sentinel
  unauthorized : Sentinel
  forbidden : Sentinel

-- The messages, with the values they show.
pub data Reason : Type 0 where
  reported : Remote → Reason
  invalid_mode : Text → Reason
  invalid_selector_digest : Text → Reason
  invalid_keep_digest : Text → Reason
  invalid_descriptor : Text → Reason
  metadata_too_large : Reason
  fetched_mismatch : Text → Reason
  unparsable : Text → Reason
  subject_mismatch : Text → Text → Reason
  no_ocidoc_artifact : Reason
  none_matches : Reason
  several_referrers : ℕ → Reason
  several_candidates : ℕ → Reason
  tag_matches_none : ℕ → Reason
  different_manifests : Reason
  keep_differs : Reason
  keep_not_referrer : Text → Reason
  keep_required : Reason

-- An error of the package: sentinels in its chain, an error of oras-go passed on, or either of
-- them wrapped with a digest.
pub data Failure : Type 0 where
  failure : List Sentinel → Reason → Failure
  remote : Remote → Failure
  about_blob : Text → Failure → Failure

unfoldable pub same_sentinel : Sentinel → Sentinel → Bool
same_sentinel not_found not_found = true
same_sentinel ambiguous ambiguous = true
same_sentinel conflict conflict = true
same_sentinel unsupported unsupported = true
same_sentinel invalid invalid = true
same_sentinel verification verification = true
same_sentinel unauthorized unauthorized = true
same_sentinel forbidden forbidden = true
same_sentinel a b = false

-- `errors.Is(err, sentinel)`
unfoldable pub is : Failure → Sentinel → Bool
unfolding same_sentinel
is (failure ss r) s = any (same_sentinel s) ss
is (remote e) s = false
is (about_blob t f) s = is f s

-- `orasrepo.IsTemporary`
unfoldable pub is_temporary : Failure → Bool
is_temporary (failure ss r) = false
is_temporary (remote e) =
    e.deadline_exceeded
    || e.net_timeout
    || elim e.status [ none ↦ false | some code ↦ leb 500 code && leb code 599 ]
is_temporary (about_blob t f) = is_temporary f

unfoldable pub sentinel_of : OrasSentinel → Sentinel
sentinel_of oras_not_found = not_found
sentinel_of oras_unauthorized = unauthorized
sentinel_of oras_forbidden = forbidden
sentinel_of oras_unsupported = unsupported
sentinel_of oras_invalid = invalid

-- `wrapError` on an error of the repository.
unfoldable pub wrap_error : OrasError → Failure
unfolding sentinel_of
wrap_error (mapped s e) = failure (sentinel_of s ∷ []) (reported e)
wrap_error (unmapped e) = remote e
