-- ===== src/Store/Verify.antt =====
-- store/maintenance.go: `Verify`, which checks the indexed documents against the catalog, and can
-- write the catalog again. Opening, verifying and closing a document are parameters, at the depth that
-- the caller asks for; the catalog file can always be inspected.
pub mod Valid
use ocidoc_go.Base.{
  Bool, true, false, not, ◌&&◌, ◌||◌, ℕ, Option, none, some, List, [], ◌∷◌, ◌++◌, map,
  if◌then◌else◌, any, length, Text, text_eq, Result, ok, err, ◌>>=◌, pos,
}
use ocidoc_go.Oci.{Descriptor, Manifest}
use ocidoc_go.Store.{
  Disk, DocumentRecord, CatalogFile, StoreError, does_not_exist, too_large, unparsable_index,
  unparsable_catalog, future_version, unsupported_version, invalid_root, root_too_large,
  unverified_root, unparsable_root, bad_blob_path, foreign, catalog_unmarshalled, temp_uncreated,
  temp_unwritten, catalog_unfinished, Foreign, read_index,
}
use ocidoc_go.Store.Catalog.{empty_catalog, record_at, put_record, load_catalog, save_catalog}
use ocidoc_go.Store.Remove.{has_record}

pub data Issue (F : Type 0) : Type 0 where
  open_issue : Text → F → Issue F
  verify_issue : Text → F → Issue F
  close_issue : Text → F → Issue F
  document_issue : Text → Text → Issue F
  not_in_catalog : Text → Issue F
  manifest_unread : Text → F → Issue F
  missing_root : Text → Issue F

pub data Repair : Type 0 where
  rebuilt_malformed : Repair
  rebuilt_missing : Repair
  added_record : Text → Repair
  removed_record : Text → Repair

pub record Verification (F : Type 0) : Type 0 where
  pub issues : List (Issue F)
  pub repaired : List Repair
  pub documents : ℕ
  pub valid : Bool

-- `openDocument`, `artifact.Verify` with its verdict and its messages, and the reader's operations.
pub record Checker (F : Type 0) : Type 0 where
  pub open_document : Descriptor → Option F
  pub verify_document : Descriptor → Result F (Bool × List Text)
  pub close_document : Descriptor → Option F
  pub read_manifest : Descriptor → Result F Manifest

-- The report so far, with `seen` and the records of the new catalog.
pub record Progress (F : Type 0) : Type 0 where
  pub report : Verification F
  pub seen : List Text
  pub rebuilt : List (Text × DocumentRecord)

-- `errors.Is(err, ErrInvalid)`, and not of a future version, for what `loadCatalog` returns.
unfoldable pub is_malformed : {F : Type 0} → StoreError F → Bool
is_malformed too_large = true
is_malformed unparsable_catalog = true
is_malformed (unsupported_version v) = true
is_malformed (future_version v) = false
is_malformed does_not_exist = false
is_malformed unparsable_index = false
is_malformed (invalid_root t) = false
is_malformed (root_too_large t) = false
is_malformed (unverified_root t) = false
is_malformed (unparsable_root t) = false
is_malformed (bad_blob_path t) = false
is_malformed (foreign f) = false
is_malformed (catalog_unmarshalled f) = false
is_malformed (temp_uncreated f) = false
is_malformed (temp_unwritten f) = false
is_malformed (catalog_unfinished f) = false

abbrev pub is_missing : Option Text → Bool
is_missing none = true
is_missing (some file) = false

-- `repairedRecord`
unfoldable pub repaired_record : Manifest → DocumentRecord → DocumentRecord
repaired_record m previous = record previous {
  subject = elim m.subject [ none ↦ [] | some s ↦ s.digest ];
}

module _ {F : Type 0} where
  unfoldable pub add_issue : Issue F → Progress F → Progress F
  add_issue i p = record p {
    report = record p.report { issues = p.report.issues ++ i ∷ []; valid = false };
  }

  unfoldable pub add_issues : Text → List Text → Progress F → Progress F
  add_issues root [] p = p
  add_issues root (m ∷ ms) p = add_issues root ms (add_issue (document_issue root m) p)

  unfoldable pub add_repair : Repair → Progress F → Progress F
  add_repair r p = record p { report = record p.report { repaired = p.report.repaired ++ r ∷ [] } }

  -- The catalog to compare with: one that is malformed is taken as empty by a repair.
  abbrev pub usable_catalog :
      Bool
      → Bool
      → Result (StoreError F) CatalogFile
      → Result (StoreError F) (CatalogFile × List Repair)
  usable_catalog repair missing (ok cat) =
      ok (cat, if repair && missing then rebuilt_missing ∷ [] else [])
  usable_catalog repair missing (err e) =
      if not repair || not (is_malformed e)
      then err e
      else ok (empty_catalog, rebuilt_malformed ∷ [])

  module _ (check : Checker F) (repair : Bool) (cat : CatalogFile) where
    unfoldable pub note_record : Text → Progress F → Progress F
    note_record root p =
        if has_record root cat.documents
        then p
        else if repair
        then add_repair (added_record root) p
        else add_issue (not_in_catalog root) p

    unfoldable pub rebuild : Descriptor → Result F Manifest → Progress F → Progress F
    rebuild root (err f) p = add_issue (manifest_unread root.digest f) p
    rebuild root (ok m) p = record p {
      rebuilt =
          put_record root.digest (repaired_record m (record_at root.digest cat.documents))
            p.rebuilt;
    }

    -- A document that is sound.
    unfoldable pub note_sound : Descriptor → Progress F → Progress F
    note_sound root p =
        let noted = note_record root.digest (record p { seen = root.digest ∷ p.seen }) in
        if repair then rebuild root (check.read_manifest root) noted else noted

    unfoldable pub note_close : Text → Option F → Progress F → Progress F
    note_close root none p = p
    note_close root (some f) p = add_issue (close_issue root f) p

    unfoldable pub note_verified :
        Descriptor → Result F (Bool × List Text) → Progress F → Progress F
    note_verified root (err f) p = add_issue (verify_issue root.digest f) p
    note_verified root (ok (valid, messages)) p =
        let closed = note_close root.digest (check.close_document root) p in
        if not valid then add_issues root.digest messages closed else note_sound root closed

    unfoldable pub visit_root : Descriptor → Progress F → Progress F
    visit_root root p = elim (check.open_document root) [
      | some f ↦ add_issue (open_issue root.digest f) p
      | none ↦ note_verified root (check.verify_document root) p
    ]

    unfoldable pub visit_roots : List Descriptor → Progress F → Progress F
    visit_roots [] p = p
    visit_roots (root ∷ roots) p = visit_roots roots (visit_root root p)

    -- The records whose root is not sound or not there.
    unfoldable pub visit_records : List (Text × DocumentRecord) → Progress F → Progress F
    visit_records [] p = p
    visit_records ((k, x) ∷ rest) p = visit_records rest (
        if any (text_eq k) p.seen
        then p
        else if repair
        then add_repair (removed_record k) p
        else add_issue (missing_root k) p)

    unfoldable pub checked_store : List Descriptor → List Repair → Progress F
    checked_store roots repaired = visit_records cat.documents (
        visit_roots roots (record {
          report = record {
            issues = [];
            repaired = repaired;
            documents = length roots;
            valid = true;
          };
          seen = [];
          rebuilt = [];
        }))

  module _ (lib : Foreign F) (check : Checker F) (repair : Bool) where
    -- The report, behind the write of the new catalog.
    abbrev pub repaired :
        Disk
        → Progress F
        → Result (StoreError F) Disk
        → Disk × Result (StoreError F) (Verification F)
    repaired disk p (ok disk') = (disk', ok p.report)
    repaired disk p (err e) = (disk, err e)

    -- What a repair writes.
    unfoldable pub saved : Disk → Progress F → Disk × Result (StoreError F) (Verification F)
    saved disk p =
        if repair
        then repaired disk p
            (save_catalog lib (record { documents = p.rebuilt; version = pos 1 }) disk)
        else (disk, ok p.report)

    abbrev pub verified :
        Disk
        → List Descriptor
        → Result (StoreError F) (CatalogFile × List Repair)
        → Disk × Result (StoreError F) (Verification F)
    verified disk roots (err e) = (disk, err e)
    verified disk roots (ok (cat, repairs)) =
        saved disk (checked_store check repair cat roots repairs)

    abbrev pub with_index :
        Disk
        → Result (StoreError F) (List Descriptor)
        → Disk × Result (StoreError F) (Verification F)
    with_index disk (err e) = (disk, err e)
    with_index disk (ok roots) =
        verified disk roots
          (usable_catalog repair (is_missing disk.catalog) (load_catalog lib disk))

    unfoldable pub verify_store : Disk → Disk × Result (StoreError F) (Verification F)
    verify_store disk = with_index disk (read_index lib disk)
