-- ===== src/Store/Catalog.antt =====
-- store/catalog.go and store/commit.go: the catalog file `store.json`, what is recorded in it, and
-- the list of documents.
pub mod Origins
pub mod Recorded
use ocidoc_go.Base.{
  Bool, true, false, not, Option, none, some, List, [], ◌∷◌, ◌++◌, if◌then◌else◌, any, Text,
  text_eq, Result, ok, err, ◌>>=◌, ℤ, pos, above, after,
}
use ocidoc_go.Oci.{Descriptor, int_eq}
use ocidoc_go.Base.{text_leb}
use ocidoc_go.Store.{
  Disk, DocumentRecord, CatalogFile, StoreError, unparsable_catalog, future_version,
  unsupported_version, Foreign, read_store_metadata, or_error, read_index, wrapping,
  catalog_unmarshalled, temp_uncreated, temp_unwritten, catalog_unfinished,
}

pub record Document : Type 0 where
  pub updated_at : Text
  pub manifest : Text
  pub subject : Text
  pub source : Text
  pub origins : List Text

-- `emptyCatalog`
abbrev pub empty_catalog : CatalogFile
empty_catalog = record { documents = []; version = pos 1 }

abbrev pub empty_record : DocumentRecord
empty_record = record { updated_at = []; subject = []; source = []; origins = [] }

-- `cat.Documents[manifest]`, the zero record where there is none.
unfoldable pub record_at : Text → List (Text × DocumentRecord) → DocumentRecord
record_at k [] = empty_record
record_at k ((j, x) ∷ rest) = let found = record_at k rest in if text_eq j k then x else found

-- `cat.Documents[manifest] = record`
unfoldable pub put_record :
    Text → DocumentRecord → List (Text × DocumentRecord) → List (Text × DocumentRecord)
put_record k x [] = (k, x) ∷ []
put_record k x ((j, y) ∷ rest) =
    let later = put_record k x rest in if text_eq j k then (j, x) ∷ rest else (j, y) ∷ later

-- The origins to append, with `seen` as a list.
unfoldable pub new_origins : List Text → List Text → List Text
new_origins seen [] = []
new_origins seen (o ∷ added) = elim (any (text_eq o) seen) [
  | true ↦ new_origins seen added
  | false ↦ o ∷ new_origins (o ∷ seen) added
]

unfoldable pub merge_origins : List Text → List Text → List Text
merge_origins base added = base ++ new_origins base added

unfoldable pub insert_document : Document → List Document → List Document
insert_document x [] = x ∷ []
insert_document x (y ∷ ys) =
    let rest = insert_document x ys in
    if text_leb x.manifest y.manifest then x ∷ y ∷ ys else y ∷ rest

-- `sort.Slice` by manifest.
unfoldable pub sort_documents : List Document → List Document
sort_documents [] = []
sort_documents (x ∷ xs) = insert_document x (sort_documents xs)

unfoldable pub joined : CatalogFile → List Descriptor → List Document
joined cat [] = []
joined cat (root ∷ roots) =
    (record {
      updated_at = (record_at root.digest cat.documents).updated_at;
      manifest = root.digest;
      subject = (record_at root.digest cat.documents).subject;
      source = (record_at root.digest cat.documents).source;
      origins = (record_at root.digest cat.documents).origins;
    })
    ∷ joined cat roots

-- `doc.Origins = mergeOrigins(existing.Origins, doc.Origins)`
unfoldable pub with_origins : CatalogFile → Document → Document
with_origins cat doc = record {
  updated_at = doc.updated_at;
  manifest = doc.manifest;
  subject = doc.subject;
  source = doc.source;
  origins = merge_origins (record_at doc.manifest cat.documents).origins doc.origins;
}

abbrev pub record_of : Document → DocumentRecord
record_of doc = record {
  updated_at = doc.updated_at;
  subject = doc.subject;
  source = doc.source;
  origins = doc.origins;
}

unfoldable pub with_document : CatalogFile → Document → CatalogFile
with_document cat doc = record {
  documents = put_record doc.manifest (record_of (with_origins cat doc)) cat.documents;
  version = cat.version;
}

module _ {F : Type 0} where
  abbrev pub marshalled : Result F Text → Result (StoreError F) Text
  marshalled (ok bytes) = ok bytes
  marshalled (err f) = err (catalog_unmarshalled f)

  unfoldable pub check_version : CatalogFile → Result (StoreError F) CatalogFile
  check_version cat =
      if int_eq cat.version (pos 1)
      then ok cat
      else if above cat.version 1
      then err (future_version cat.version)
      else err (unsupported_version cat.version)

  module _ (lib : Foreign F) where
    unfoldable pub load_catalog_file : Option Text → Result (StoreError F) CatalogFile
    load_catalog_file none = ok empty_catalog
    load_catalog_file (some file) = do
      bytes ← read_store_metadata (some file)
      cat ← or_error unparsable_catalog (lib.parse_catalog bytes)
      check_version cat

    unfoldable pub load_catalog : Disk → Result (StoreError F) CatalogFile
    load_catalog disk = load_catalog_file disk.catalog

    -- The rename puts the new file in place at once.
    unfoldable pub publish_catalog : Disk → Text → Result (StoreError F) Disk
    publish_catalog disk bytes = after (wrapping temp_uncreated (lib.create_temp disk)) (
        after (wrapping temp_unwritten (lib.write_temp disk bytes)) (
          after (wrapping catalog_unfinished (lib.rename_temp disk bytes))
            (ok (record { index = disk.index; catalog = some bytes; blobs = disk.blobs }))))

    -- Behind an error the files are as they were: the temporary file is cleaned up.
    unfoldable pub save_catalog : CatalogFile → Disk → Result (StoreError F) Disk
    save_catalog cat disk = marshalled (lib.print_catalog cat) >>= publish_catalog disk

    unfoldable pub documents : Disk → Result (StoreError F) (List Document)
    documents disk = do
      roots ← read_index lib disk
      cat ← load_catalog disk
      ok (sort_documents (joined cat roots))

    -- `recordDocument`: the files behind it, and the document with all its origins.
    unfoldable pub record_document : Document → Disk → Result (StoreError F) (Disk × Document)
    record_document doc disk = do
      cat ← load_catalog disk
      disk' ← save_catalog (with_document cat doc) disk
      ok (disk', with_origins cat doc)
