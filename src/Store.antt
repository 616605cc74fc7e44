-- ===== src/Store.antt =====
-- store/: the local store, its files and its two metadata readers. The exclusive lock that every
-- operation here takes is not modelled: each operation is one step.
pub mod Prune
pub mod Catalog
pub mod Remove
pub mod Verify
pub mod Commit
pub mod Tests
use ocidoc_go.Base.{
  Bool, true, false, Option, none, some, List, [], ◌∷◌, ℕ, ltb, if◌then◌else◌, Text, text_eq,
  length, Result, ok, err, ◌>>=◌, after, fail_if, above, ℤ, pos,
}
use ocidoc_go.Oci.{Digests, Descriptor, Manifest}
use ocidoc_go.OciBlob.{max_metadata_size, validate, verify}

-- A file `blobs/<directory>/<name>`.
pub record BlobFile : Type 0 where
  pub directory : Text
  pub name : Text
  pub content : Text

-- The files below the store's root, the blobs in the order in which `filepath.WalkDir` meets them.
pub record Disk : Type 0 where
  pub index : Option Text
  pub catalog : Option Text
  pub blobs : List BlobFile

-- `documentRecord`; a time is opaque.
pub record DocumentRecord : Type 0 where
  pub updated_at : Text
  pub subject : Text
  pub source : Text
  pub origins : List Text

-- `catalogFile`
pub record CatalogFile : Type 0 where
  pub documents : List (Text × DocumentRecord)
  pub version : ℤ

pub data StoreError (F : Type 0) : Type 0 where
  does_not_exist : StoreError F
  too_large : StoreError F
  unparsable_index : StoreError F
  unparsable_catalog : StoreError F
  future_version : ℤ → StoreError F
  unsupported_version : ℤ → StoreError F
  invalid_root : Text → StoreError F
  root_too_large : Text → StoreError F
  unverified_root : Text → StoreError F
  unparsable_root : Text → StoreError F
  bad_blob_path : Text → StoreError F
  foreign : F → StoreError F
  catalog_unmarshalled : F → StoreError F
  temp_uncreated : F → StoreError F
  temp_unwritten : F → StoreError F
  catalog_unfinished : F → StoreError F

-- What the code calls: JSON, the blob reads of the OCI store of oras-go, the removal of files, and the
-- three steps that write a file beside its place and rename it: each may fail.
pub record Foreign (F : Type 0) : Type 0 where
  pub parse_index : Text → Option (List Descriptor)
  pub parse_manifest : Text → Option Manifest
  pub parse_catalog : Text → Option CatalogFile
  pub print_catalog : CatalogFile → Result F Text
  pub fetch : Disk → Descriptor → Result F Text
  pub remove_file : BlobFile → Option F
  pub create_temp : Disk → Option F
  pub write_temp : Disk → Text → Option F
  pub rename_temp : Disk → Text → Option F

-- `maxStoreMetadataSize`, 16 MiB.
abbrev pub max_store_metadata_size : ℕ
max_store_metadata_size = 16777216

module _ {F : Type 0} where
  -- `readStoreMetadata` of a regular file.
  unfoldable pub read_store_metadata : Option Text → Result (StoreError F) Text
  read_store_metadata none = err does_not_exist
  read_store_metadata (some bytes) =
      if ltb max_store_metadata_size (length bytes) then err too_large else ok bytes

  -- An optional value, with the error for its absence.
  abbrev pub or_error : {A : Type 0} → StoreError F → Option A → Result (StoreError F) A
  or_error e none = err e
  or_error e (some a) = ok a

  -- `if err != nil` on a check or on what the libraries report.
  abbrev pub failing : {A : Type 0} → StoreError F → Option A → Option (StoreError F)
  failing e none = none
  failing e (some a) = some e

  -- The same, with the error that the library gives.
  abbrev pub wrapping : (F → StoreError F) → Option F → Option (StoreError F)
  wrapping e none = none
  wrapping e (some f) = some (e f)

  abbrev pub fetched : {A : Type 0} → Result F A → Result (StoreError F) A
  fetched (ok a) = ok a
  fetched (err f) = err (foreign f)

  module _ (lib : Foreign F) where
    unfoldable pub read_index : Disk → Result (StoreError F) (List Descriptor)
    read_index disk = do
      bytes ← read_store_metadata disk.index
      or_error unparsable_index (lib.parse_index bytes)

    -- Content above the limit is refused, so the bytes that the limited read gives stand for it.
    unfoldable pub fetch_metadata : Digests → Disk → Descriptor → Result (StoreError F) Text
    fetch_metadata d disk desc = after (failing (invalid_root desc.digest) (validate d desc)) (
        after (fail_if (above desc.size max_metadata_size) (root_too_large desc.digest)) (do
          bytes ← fetched (lib.fetch disk desc)
          after (fail_if (ltb max_metadata_size (length bytes)) (root_too_large desc.digest))
              (after (failing (unverified_root desc.digest) (verify d desc bytes)) (ok bytes))))
