-- ===== src/OciBlob.antt =====
-- internal/ociblob: descriptors of blobs, their content, and the reader that checks it.
pub mod Stream
pub mod Tests
use ocidoc_go.Base.{
  Bool, true, false, not, ℕ, Option, none, some, List, [], ◌∷◌, Text, codes, text_eq, length, ◌⨾◌,
  fail_if, Result, ok, err, after, pos, is_negative, join,
}
use ocidoc_go.GoPath.{join_paths}
use ocidoc_go.Oci.{Digests, Descriptor, int_eq}

-- The sentinels `ErrInvalid` and `ErrMismatch` with what is said beside them.
pub data BlobError : Type 0 where
  invalid_digest : Text → BlobError
  unsupported_algorithm : Text → BlobError
  negative_size : BlobError
  size_mismatch : ℕ → BlobError
  digest_mismatch : Text → BlobError

-- `digest.Canonical`
abbrev pub canonical : Text
canonical = codes "sha256"

-- `MaxMetadataSize`, 4 MiB.
abbrev pub max_metadata_size : ℕ
max_metadata_size = 4194304

module _ (d : Digests) where
  unfoldable pub validate_digest : Text → Option BlobError
  validate_digest t =
      fail_if (not (d.is_valid t)) (invalid_digest t)
      ⨾ fail_if (not (text_eq (d.algorithm t) canonical)) (unsupported_algorithm (d.algorithm t))

  unfoldable pub validate : Descriptor → Option BlobError
  validate desc = validate_digest desc.digest ⨾ fail_if (is_negative desc.size) negative_size

  -- `filepath.Join`; the last three parts are names, none of them empty.
  unfoldable pub blob_path : Text → Descriptor → Result BlobError Text
  blob_path dir desc =
      after (validate desc)
        (ok (join_paths dir (join b'/' (codes "blobs" ∷ canonical ∷ d.encoded desc.digest ∷ []))))

  unfoldable pub verify : Descriptor → Text → Option BlobError
  verify desc bytes =
      validate desc
      ⨾ fail_if (not (int_eq (pos (length bytes)) desc.size)) (size_mismatch (length bytes))
      ⨾ fail_if (not (text_eq (d.of_bytes bytes) desc.digest)) (digest_mismatch (d.of_bytes bytes))
