-- ===== src/Store/Catalog/Recorded.antt =====
-- A recorded document is found again.
use ocidoc_go.Base.{
  ◌≡◌, refl, sym, ap, ◌∙◌, true, false, Option, none, some, List, [], ◌∷◌, ltb, length, Text,
  text_eq, text_eq_iff, text_eq_self, arith, Result, ok, err, ok_inj, ◌>>=◌, through, ◌||◌, ◌↔◌,
  ◌⊎◌, ◌++◌, In, if◌then◌else◌, ℤ, pos, negsuc,
}
use ocidoc_go.Oci.{int_eq}
use ocidoc_go.Store.{
  Disk, DocumentRecord, CatalogFile, StoreError, Foreign, read_store_metadata,
  max_store_metadata_size, or_error, unparsable_catalog,
}
use ocidoc_go.Store.Catalog.{
  Document, empty_catalog, record_at, put_record, check_version, load_catalog_file, load_catalog,
  marshalled, publish_catalog, save_catalog, with_origins, record_of, with_document,
  record_document,
}
use ocidoc_go.Store.Catalog.Origins.{merge_origins-In}
use ocidoc_go.Store.Remove.{has_record}

-- Lookup behind an update.
record_at-put :
    (k j : Text) (x : DocumentRecord) (docs : List (Text × DocumentRecord))
    → record_at j (put_record k x docs) ≡ (if text_eq k j then x else record_at j docs)
unfolding record_at put_record
record_at-put k j x [] = refl
record_at-put k j x ((i, y) ∷ rest) =
    ground (arith, record_at-put k j x rest, text_eq_iff i k, text_eq_iff k j, text_eq_iff i j)

has_record-put :
    (k j : Text) (x : DocumentRecord) (docs : List (Text × DocumentRecord))
    → has_record j (put_record k x docs) ≡ (text_eq k j || has_record j docs)
unfolding has_record put_record
has_record-put k j x [] = ground arith
has_record-put k j x ((i, y) ∷ rest) =
    ground (arith, has_record-put k j x rest, text_eq_iff i k, text_eq_iff k j, text_eq_iff i j)

-- Version 1 is the one that is written.
check_version-1 :
    {F : Type 0} (cat : CatalogFile) → cat.version ≡ pos 1 → check_version {F = F} cat ≡ ok cat
unfolding check_version int_eq
check_version-1 cat e = ground arith

int_eq_one : (i : ℤ) → int_eq i (pos 1) ≡ true → i ≡ pos 1
unfolding int_eq
int_eq_one (pos n) h = ap pos (ground arith)
int_eq_one (negsuc n) h = cc

checked-1 :
    {F : Type 0} (c cat : CatalogFile) → check_version {F = F} c ≡ ok cat → cat.version ≡ pos 1
unfolding check_version
checked-1 c cat h = let (e, same) = passed in ap (λ c. c.version) (sym same) ∙ e
  where
    passed : (c.version ≡ pos 1) × (c ≡ cat)
    passed = ground (arith, int_eq_one c.version)

-- The catalog that a load gives has the version that is written.
loaded-1 :
    {F : Type 0} (lib : Foreign F) (file : Option Text) (cat : CatalogFile)
    → load_catalog_file lib file ≡ ok cat
    → cat.version ≡ pos 1
unfolding load_catalog_file
loaded-1 {F = F} lib none cat h = ap (λ c. c.version) (sym (empty_is h))
  where
    empty_is :
        Path (Result (StoreError F) CatalogFile) (ok empty_catalog) (ok cat) → empty_catalog ≡ cat
    empty_is e = cc
loaded-1 {F = F} lib (some file) cat h =
    let (bytes, _, h1) = through behind_read cat (read_store_metadata (some file)) h in
    let (c, _, h2) =
      through check_version cat (or_error unparsable_catalog (lib.parse_catalog bytes)) h1 in
    checked-1 c cat h2
  where
    behind_read : Text → Result (StoreError F) CatalogFile
    behind_read bytes = or_error unparsable_catalog (lib.parse_catalog bytes) >>= check_version

read_within :
    {F : Type 0} (bytes : Text)
    → ltb max_store_metadata_size (length bytes) ≡ false
    → read_store_metadata {F = F} (some bytes) ≡ ok bytes
unfolding read_store_metadata
read_within bytes e = rw e refl

-- The files with another catalog file.
abbrev pub written : Text → Disk → Disk
written bytes disk = record { index = disk.index; catalog = some bytes; blobs = disk.blobs }

marshalled-ok :
    {F : Type 0} (r : Result F Text) (bytes : Text) → marshalled r ≡ ok bytes → r ≡ ok bytes
marshalled-ok (ok b) bytes h = ap ok (ok_inj h)
marshalled-ok (err f) bytes h = cc

module _ {F : Type 0} (lib : Foreign F) (cat : CatalogFile) (disk : Disk) where
  published :
      (bytes : Text) (disk' : Disk)
      → publish_catalog lib disk bytes ≡ ok disk'
      → written bytes disk ≡ disk'
  unfolding publish_catalog
  published bytes disk' h = ground arith

  -- A write that succeeds puts the marshalled catalog in its place.
  pub save_catalog-eq-ok :
      (disk' : Disk)
      → save_catalog lib cat disk ≡ ok disk'
      → (bytes : Text) × (lib.print_catalog cat ≡ ok bytes) × (written bytes disk ≡ disk')
  unfolding save_catalog
  save_catalog-eq-ok disk' h =
      let (bytes, printed, h1) =
        through (publish_catalog lib disk) disk' (marshalled (lib.print_catalog cat)) h in
      (bytes, marshalled-ok (lib.print_catalog cat) bytes printed, published bytes disk' h1)

  -- It succeeds if each of its steps does.
  save_catalog-writes :
      (bytes : Text)
      → lib.print_catalog cat ≡ ok bytes
      → lib.create_temp disk ≡ none
      → lib.write_temp disk bytes ≡ none
      → lib.rename_temp disk bytes ≡ none
      → save_catalog lib cat disk ≡ ok (written bytes disk)
  unfolding save_catalog publish_catalog
  save_catalog-writes bytes p c w r = rw (p, c, w, r) refl

  pub load_catalog-written :
      (bytes : Text)
      → cat.version ≡ pos 1
      → lib.parse_catalog bytes ≡ some cat
      → ltb max_store_metadata_size (length bytes) ≡ false
      → load_catalog lib (written bytes disk) ≡ ok cat
  unfolding load_catalog load_catalog_file
  load_catalog-written bytes one parsed small =
      rw (read_within bytes small, parsed) (check_version-1 cat one)

pub load_catalog-1 :
    {F : Type 0} (lib : Foreign F) (disk : Disk) (cat : CatalogFile)
    → load_catalog lib disk ≡ ok cat
    → cat.version ≡ pos 1
unfolding load_catalog
load_catalog-1 lib disk cat h = loaded-1 lib disk.catalog cat h

-- What recording `doc` leaves behind, and the document that is returned.
pub record IsRecorded {F : Type 0} (lib : Foreign F) (doc : Document) (cat : CatalogFile)
    (disk disk' : Disk) (done : Document) : Type 0 where
  pub index : disk'.index ≡ disk.index
  pub blobs : disk'.blobs ≡ disk.blobs
  pub catalog : CatalogFile
  pub loads : load_catalog lib disk' ≡ ok catalog
  pub same :
      (done.manifest ≡ doc.manifest)
      × (done.updated_at ≡ doc.updated_at)
      × (done.subject ≡ doc.subject)
      × (done.source ≡ doc.source)
  pub origins :
      (x : Text)
      → In x done.origins ↔ (In x (record_at doc.manifest cat.documents).origins ⊎ In x doc.origins)
  pub old_first :
      (rest : List Text) × (done.origins ≡ (record_at doc.manifest cat.documents).origins ++ rest)
  pub present : has_record doc.manifest catalog.documents ≡ true
  pub recorded : record_at doc.manifest catalog.documents ≡ record {
    updated_at = doc.updated_at;
    subject = doc.subject;
    source = doc.source;
    origins = done.origins;
  }
  pub others :
      (j : Text)
      → text_eq doc.manifest j ≡ false
      → (record_at j catalog.documents ≡ record_at j cat.documents)
        × (has_record j catalog.documents ≡ has_record j cat.documents)

module _ {F : Type 0} (lib : Foreign F) (doc : Document) (disk : Disk) (cat : CatalogFile) where
  written-IsRecorded :
      (bytes : Text)
      → load_catalog lib disk ≡ ok cat
      → lib.parse_catalog bytes ≡ some (with_document cat doc)
      → ltb max_store_metadata_size (length bytes) ≡ false
      → IsRecorded lib doc cat disk (written bytes disk) (with_origins cat doc)
  unfolding with_document with_origins
  written-IsRecorded bytes loaded parsed small =
      let before = (record_at doc.manifest cat.documents).origins in
      let (found, first, _) = merge_origins-In before doc.origins in
      let put = record_of (with_origins cat doc) in
      record {
        index = refl;
        blobs = refl;
        catalog = with_document cat doc;
        loads =
            load_catalog-written lib (with_document cat doc) disk bytes
              (load_catalog-1 lib disk cat loaded) parsed small;
        same = (refl, refl, refl, refl);
        origins = found;
        old_first = first;
        present =
            rw
              (
                has_record-put doc.manifest doc.manifest put cat.documents,
                text_eq_self doc.manifest,
              )
              refl;
        recorded =
            rw
              (record_at-put doc.manifest doc.manifest put cat.documents, text_eq_self doc.manifest)
              refl;
        others = λ j apart. (
          rw (record_at-put doc.manifest j put cat.documents, apart) refl,
          rw (has_record-put doc.manifest j put cat.documents, apart) refl,
        );
      }

  -- If the catalog of a store loads, and the catalog with the document is marshalled to bytes that parse
  -- as it and are within the size limit, and the temporary file is created, written and renamed, then
  -- recording succeeds: index and blobs are as before, the catalog loads again, the document that
  -- is returned has the old origins and its own, and no others, the old ones first, and is the
  -- given one but for them, the catalog has its record, and every other record is as before,
  -- present or absent.
  pub record_document-load :
      (bytes : Text)
      → load_catalog lib disk ≡ ok cat
      → lib.print_catalog (with_document cat doc) ≡ ok bytes
      → lib.parse_catalog bytes ≡ some (with_document cat doc)
      → ltb max_store_metadata_size (length bytes) ≡ false
      → lib.create_temp disk ≡ none
      → lib.write_temp disk bytes ≡ none
      → lib.rename_temp disk bytes ≡ none
      → (disk' : Disk) × (done : Document) × (record_document lib doc disk ≡ ok (disk', done))
        × IsRecorded lib doc cat disk disk' done
  unfolding record_document
  record_document-load bytes loaded printed parsed small created put renamed = (
    written bytes disk,
    with_origins cat doc,
    rw loaded (
        ap (λ r. r >>= λ disk'. ok (disk', with_origins cat doc))
          (save_catalog-writes lib (with_document cat doc) disk bytes printed created put renamed)),
    written-IsRecorded bytes loaded parsed small,
  )
