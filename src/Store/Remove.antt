-- ===== src/Store/Remove.antt =====
-- store/remove.go: `Remove`, which forgets a document. The deletion in the OCI store is a parameter.
pub mod Forgotten
use ocidoc_go.Base.{
  Bool, true, false, Option, none, some, List, [], ◌∷◌, if◌then◌else◌, any, Text, text_eq, Result,
  ok, err, ◌>>=◌,
}
use ocidoc_go.Oci.{Digests, Descriptor}
use ocidoc_go.OciBlob.{BlobError, validate_digest}
use ocidoc_go.Store.{Disk, DocumentRecord, CatalogFile, StoreError, Foreign, read_index}
use ocidoc_go.Store.Catalog.{load_catalog, save_catalog}

pub data RemoveError (F : Type 0) : Type 0 where
  invalid_manifest : BlobError → RemoveError F
  in_store : StoreError F → RemoveError F
  no_such_manifest : Text → RemoveError F
  delete_failed : Text → F → RemoveError F
  record_kept : Text → StoreError F → RemoveError F

-- `_, ok := cat.Documents[manifest]`
unfoldable pub has_record : Text → List (Text × DocumentRecord) → Bool
has_record k docs = any (λ (e : Text × DocumentRecord). text_eq e.0 k) docs

-- `delete(cat.Documents, manifest)`
unfoldable pub without_record : Text → List (Text × DocumentRecord) → List (Text × DocumentRecord)
without_record k [] = []
without_record k ((j, x) ∷ rest) =
    let others = without_record k rest in if text_eq j k then others else (j, x) ∷ others

abbrev pub forget : Text → CatalogFile → CatalogFile
forget k cat = record { documents = without_record k cat.documents; version = cat.version }

module _ {F : Type 0} where
  -- The error of a read, passed on.
  abbrev pub from_store : {A : Type 0} → Result (StoreError F) A → Result (RemoveError F) A
  from_store (ok a) = ok a
  from_store (err e) = err (in_store e)

  abbrev pub find_root : Text → List Descriptor → Result (RemoveError F) Descriptor
  find_root k [] = err (no_such_manifest k)
  find_root k (root ∷ roots) = if text_eq root.digest k then ok root else find_root k roots

  -- The files behind the write of the catalog.
  abbrev pub saved_without :
      Text → Disk → Result (StoreError F) Disk → Disk × Option (RemoveError F)
  saved_without k disk (ok disk') = (disk', none)
  saved_without k disk (err e) = (disk, some (record_kept k e))

  module _ (lib : Foreign F) where
    unfoldable pub root_descriptor : Text → Disk → Result (RemoveError F) Descriptor
    root_descriptor k disk = from_store (read_index lib disk) >>= find_root k

    -- What is read before anything is deleted.
    unfoldable pub looked_up : Text → Disk → Result (RemoveError F) (Descriptor × CatalogFile)
    looked_up k disk = do
      root ← root_descriptor k disk
      cat ← from_store (load_catalog lib disk)
      ok (root, cat)

    -- Behind the deletion of the root, the catalog is written if it has a record to forget.
    unfoldable pub forgotten : Text → CatalogFile → Disk × Option F → Disk × Option (RemoveError F)
    forgotten k cat (disk, some f) = (disk, some (delete_failed k f))
    forgotten k cat (disk, none) =
        if has_record k cat.documents
        then saved_without k disk (save_catalog lib (forget k cat) disk)
        else (disk, none)

    abbrev pub remove_root :
        (Disk → Descriptor → Disk × Option F)
        → Text
        → Disk
        → Result (RemoveError F) (Descriptor × CatalogFile)
        → Disk × Option (RemoveError F)
    remove_root delete_root k disk (err e) = (disk, some e)
    remove_root delete_root k disk (ok (root, cat)) = forgotten k cat (delete_root disk root)

    unfoldable pub remove :
        Digests
        → (Disk → Descriptor → Disk × Option F)
        → Text
        → Disk
        → Disk × Option (RemoveError F)
    remove d delete_root k disk = elim (validate_digest d k) [
      | some e ↦ (disk, some (invalid_manifest e))
      | none ↦ remove_root delete_root k disk (looked_up k disk)
    ]
