-- ===== src/Registry/Fetch.antt =====
-- registry/pull.go: `fetchBlob`, over a repository that is a parameter: it is another process.
use ocidoc_go.Base.{
  Option, none, some, List, [], ◌∷◌, ℕ, ltb, if◌then◌else◌, Text, length, Result, ok, err, ◌>>=◌,
  after, fail_if, above,
}
use ocidoc_go.Oci.{Digests, Descriptor}
use ocidoc_go.OciBlob.{max_metadata_size, validate, verify}
use ocidoc_go.Registry.Errors.{
  OrasError, wrap_error, invalid, verification, invalid_descriptor, metadata_too_large,
  fetched_mismatch, Failure, failure, about_blob, remote, Remote,
}

-- What the stream of a fetched blob holds, and the error it ends with, if any.
pub record Stream : Type 0 where
  pub content : Text
  pub broken : Option Remote

-- `orasrepo.Repository`, at one moment: the operations that only read.
pub record Repository : Type 0 where
  pub resolve : Text → Result OrasError Descriptor
  pub referrers : Descriptor → Text → Result OrasError (List Descriptor)
  pub fetch : Descriptor → Result OrasError Stream

-- `if err != nil { return wrapError(err) }`
abbrev pub wrapped {ℓ} : {A : Type ℓ} → Result OrasError A → Result Failure A
wrapped (ok a) = ok a
wrapped (err e) = err (wrap_error e)

-- `if err != nil` on a check, with the failure to return.
abbrev pub checked {ℓ} : {E : Type ℓ} → Failure → Option E → Option Failure
checked f none = none
checked f (some e) = some f

-- `io.ReadAll(io.LimitReader(rc, limit+1))`: an error behind the limit is not met.
unfoldable pub read_limited : ℕ → Stream → Result Remote Text
read_limited limit s =
    if ltb limit (length s.content)
    then ok s.content
    else elim s.broken [ none ↦ ok s.content | some e ↦ err e ]

module _ (d : Digests) where
  -- Content that is longer than the limit is refused, so its first limit+1 bytes stand for it.
  unfoldable pub check_fetched : Descriptor → Result Remote Text → Result Failure Text
  check_fetched desc (err e) = err (about_blob desc.digest (remote e))
  check_fetched desc (ok bytes) =
      if ltb max_metadata_size (length bytes)
      then err (failure (invalid ∷ []) metadata_too_large)
      else after
          (checked (failure (verification ∷ []) (fetched_mismatch desc.digest))
            (verify d desc bytes))
          (ok bytes)

  unfoldable pub fetch_blob : Repository → Descriptor → Result Failure Text
  fetch_blob repo desc =
      after (checked (failure (invalid ∷ []) (invalid_descriptor desc.digest)) (validate d desc)) (
        after
          (fail_if (above desc.size max_metadata_size) (failure (invalid ∷ []) metadata_too_large))
          (do s ← wrapped (repo.fetch desc); check_fetched desc (read_limited max_metadata_size s)))
