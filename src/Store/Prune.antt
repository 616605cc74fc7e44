-- ===== src/Store/Prune.antt =====
-- store/maintenance.go: `Prune`, the removal of blobs that no indexed document reaches.
pub mod Kept
pub mod Documents
pub mod Removed
use ocidoc_go.Base.{
  Bool, true, false, not, Option, none, some, List, [], ◌∷◌, ◌++◌, ◌+◌, ℕ, suc, if◌then◌else◌, any,
  map, Text, text_eq, length, Result, ok, err, ◌>>=◌,
}
use ocidoc_go.Oci.{Digests, Descriptor, Manifest}
use ocidoc_go.Store.{
  BlobFile, Disk, StoreError, unparsable_root, bad_blob_path, foreign, Foreign, or_error,
  read_index, fetch_metadata,
}

pub record PruneResult : Type 0 where
  pub dry_run : Bool
  pub blob_count : ℕ
  pub blob_bytes : ℕ

-- `digest.Parse(dir + ":" + base)`: the text itself, where it is a digest.
abbrev pub digest_of : BlobFile → Text
digest_of b = b.directory ++ b':' ∷ b.name

-- `reachable[digest]`, with the map as the list of its keys.
unfoldable pub is_reachable : List Text → BlobFile → Bool
is_reachable reachable b = any (text_eq (digest_of b)) reachable

-- What one root adds to `reachable`.
abbrev pub reached_by : Descriptor → Manifest → List Text → List Text
reached_by root m rest = root.digest ∷ m.config.digest ∷ (map (λ l. l.digest) m.layers ++ rest)

abbrev pub result_of : Bool → ℕ → ℕ → PruneResult
result_of dry count bytes = record { dry_run = dry; blob_count = count; blob_bytes = bytes }

module _ {F : Type 0} (lib : Foreign F) (d : Digests) where
  unfoldable pub reachable_blobs : Disk → List Descriptor → Result (StoreError F) (List Text)
  reachable_blobs disk [] = ok []
  reachable_blobs disk (root ∷ roots) = do
    bytes ← fetch_metadata lib d disk root
    m ← or_error (unparsable_root root.digest) (lib.parse_manifest bytes)
    rest ← reachable_blobs disk roots
    ok (reached_by root m rest)

  -- The walk of `measureUnreachable`: how many files and bytes. An int64 holds the sum.
  unfoldable pub measure_unreachable : List Text → List BlobFile → Result (StoreError F) (ℕ × ℕ)
  measure_unreachable reachable [] = ok (0, 0)
  measure_unreachable reachable (b ∷ bs) =
      let rest = measure_unreachable reachable bs in
      if not (d.is_valid (digest_of b))
      then err (bad_blob_path (digest_of b))
      else if is_reachable reachable b
      then rest
      else (do counted ← rest; ok (suc counted.0, length b.content + counted.1))

  -- The walk of `removeUnreachable`: the files left, and the error that stopped it.
  unfoldable pub remove_unreachable :
      List Text → List BlobFile → List BlobFile × Option (StoreError F)
  remove_unreachable reachable [] = ([], none)
  remove_unreachable reachable (b ∷ bs) =
      let rest = remove_unreachable reachable bs in
      if not (d.is_valid (digest_of b))
      then (b ∷ bs, some (bad_blob_path (digest_of b)))
      else if is_reachable reachable b
      then (b ∷ rest.0, rest.1)
      else elim (lib.remove_file b) [ some f ↦ (b ∷ bs, some (foreign f)) | none ↦ rest ]

  -- Everything that `Prune` does before it removes a file.
  unfoldable pub survey : Disk → Result (StoreError F) (List Text × ℕ × ℕ)
  survey disk = do
    roots ← read_index lib disk
    reachable ← reachable_blobs disk roots
    counted ← measure_unreachable reachable disk.blobs
    ok (reachable, counted.0, counted.1)

  abbrev pub with_blobs : Disk → List BlobFile → Disk
  with_blobs disk bs = record { index = disk.index; catalog = disk.catalog; blobs = bs }

  -- `Prune`: the files behind it, and its result.
  abbrev pub removal :
      Disk
      → PruneResult
      → List BlobFile × Option (StoreError F)
      → Disk × Result (StoreError F) PruneResult
  removal disk result (left, none) = (with_blobs disk left, ok result)
  removal disk result (left, some e) = (with_blobs disk left, err e)

  abbrev pub answered :
      Bool
      → Disk
      → Result (StoreError F) (List Text × ℕ × ℕ)
      → Disk × Result (StoreError F) PruneResult
  answered dry disk (err e) = (disk, err e)
  answered dry disk (ok (reachable, count, bytes)) =
      if dry
      then (disk, ok (result_of dry count bytes))
      else removal disk (result_of dry count bytes) (remove_unreachable reachable disk.blobs)

  unfoldable pub prune : Bool → Disk → Disk × Result (StoreError F) PruneResult
  prune dry disk = answered dry disk (survey disk)
